-- ===== src/Fs/Write/Total.antt =====
-- `write` of src/base/SimpleFlashFsBase.h stays inside of its buffers and ends.
use native.Mathlib.Nat.{mod-lt}
use simpleflashfs.Prelude.{
  ℕ, zero, suc, ◌+◌, ◌-◌, ◌*◌, ◌/◌, ◌%◌, ◌≤◌, ◌<◌, ◌≡◌, refl, ap, inl, inr, min, max, arith, Bool,
  true, false, not, Option, none, some, List, [], ◌∷◌, Bool-cases, length, take, drop, ltb, ◌==◌,
  length-replicate, length-take, length-drop,
}
use simpleflashfs.Fs.Types.{Header, Config, Fs, File, DataPage}
use simpleflashfs.Fs.Page.{read_page, check_page}
use simpleflashfs.Fs.Page.Copies.{put_lem}
use simpleflashfs.Fs.Read.{page_at, is_stored, load}
use simpleflashfs.Fs.Action.{need}
use simpleflashfs.Fs.Action.Post.{Meets, meets, chain, weaken, branch}
use simpleflashfs.Fs.Store.Length.{
  Steady, SameHeader, page_at-some, allocate_new_data_pages-Steady,
  allocate_new_data_page_at-Steady, write_page-Steady,
}
use simpleflashfs.Fs.Write.{
  is_fresh, page_before, overwrite, write_unaligned, write_round, write_rounds, write_pages,
}

is_fresh-length : (ps : List DataPage) (i : ℕ) → is_fresh (page_at ps i) ≡ true → i < length ps
unfolding page_at
is_fresh-length [] i e = cc
is_fresh-length (p ∷ ps) zero e = omega arith
is_fresh-length (p ∷ ps) (suc i) e = omega (arith, is_fresh-length ps i e)

module _ {S : Type 0} where
  -- What a write of n bytes leaves: the position and the file's length moved on, and the number n.
  abbrev pub Written : Header → ℕ → ℕ → ℕ → ℕ → File → Fs S → Type 0
  Written h pos len n count file fs =
      (count ≡ n)
      × (fs.header ≡ h)
      × (file.pos ≡ pos + n)
      × (file.inode.file_len ≡ max (pos + n) len)
      × (file.modified ≡ true)

module _ {S : Type 0} (config : Config S) where
  -- A `read` fills a buffer of the size that is asked for.
  abbrev pub Buffered : Type 0
  Buffered = (s : S) (address n : ℕ) → length (config.memory.read s address n).buffer ≡ n

module _ {S : Type 0} (config : Config S) (buffered : Buffered config) where
  abbrev pub PageOf : ℕ → Option (List ℕ) → Type 0
  PageOf n none = Unit {0}
  PageOf n (some page) = length page ≡ n

  pub length-load : (fs : Fs S) (p : DataPage) → PageOf fs.header.page_size (load config fs p)
  unfolding load read_page check_page
  length-load fs p =
      let offset = fs.header.page_size + p.page_id * fs.header.page_size in
      let r = config.memory.read fs.mem offset fs.header.page_size in
      elim (Bool-cases (r.len_read == fs.header.page_size)) [
        | inl e ↦ rw e (buffered fs.mem offset fs.header.page_size)
        | inr e ↦ rw e tt
      ]

  need-Steady :
      (h : Header) (pos len n : ℕ) (page : Option (List ℕ)) (file : File) (fs : Fs S)
      → Steady h pos len n file fs
      → PageOf h.page_size page
      → Meets
          (λ before file' fs'. Steady h pos len n file' fs' × (length before ≡ h.page_size))
          (SameHeader h)
          (need page file fs)
  need-Steady h pos len n none file fs s size = meets s.0
  need-Steady h pos len n (some page) file fs s size = meets (s, size)

  page_before-Steady :
      (reads : Bool) (p : DataPage) (h : Header) (pos len n : ℕ) (file : File) (fs : Fs S)
      → Steady h pos len n file fs
      → Meets
          (λ before file' fs'. Steady h pos len n file' fs' × (length before ≡ h.page_size))
          (SameHeader h)
          (page_before config reads p file fs)
  unfolding page_before
  page_before-Steady true p h pos len n file fs s =
      need-Steady h pos len n (load config fs p) file fs s (rw (← s.0) (length-load fs p))
  page_before-Steady false p h pos len n file fs s =
      meets (s, (rw s.0 (length-replicate {A = ℕ} h.page_size 0)))

  overwrite-Steady :
      (idx start : ℕ) (bytes before : List ℕ) (h : Header) (pos len : ℕ) (file : File) (fs : Fs S)
      → Steady h pos len (suc idx) file fs
      → start + length bytes ≤ length before
      → Meets
          (λ a. Steady h (pos + length bytes) len (suc idx))
          (SameHeader h)
          (overwrite config idx start bytes before file fs)
  unfolding overwrite
  overwrite-Steady idx start bytes before h pos len file fs s room =
      let (page, e, _, _) = put_lem start bytes before room in
      let (p, e2) = page_at-some file.inode.data_pages idx s.3 in
      rw (e, e2)
        (chain {Q = λ a. Steady h pos len (suc idx)}
          (branch (is_stored p.state) _ _ file fs
            (λ e3. allocate_new_data_page_at-Steady idx h pos len (suc idx) file fs s s.3)
            (λ e3. meets s))
          (λ a file1 fs1 s1.
            chain (write_page-Steady config idx page h pos len (suc idx) file1 fs1 s1 s1.3)
              (λ a file2 fs2 (header, at, long, there). meets (header, rw at refl, long, there))))

  -- What is written of the bytes in the page of the position.
  abbrev part : Header → ℕ → List ℕ → ℕ
  part h pos bytes = min (length bytes) (h.page_size - pos % h.page_size)

  write_unaligned-Steady :
      (bytes : List ℕ) (h : Header) (pos len : ℕ) (file : File) (fs : Fs S)
      → Steady h pos len 0 file fs
      → 0 < h.page_size
      → Meets
          (λ n file' fs'. (n ≡ part h pos bytes) × Steady h (pos + n) len 0 file' fs')
          (SameHeader h)
          (write_unaligned config bytes file fs)
  unfolding write_unaligned
  write_unaligned-Steady bytes h pos len file fs s some_size =
      let idx = file.pos / fs.header.page_size in
      let start = file.pos % fs.header.page_size in
      let n = min (length bytes) (fs.header.page_size - start) in
      let wide : 0 < fs.header.page_size = rw s.0 some_size in
      let size : fs.header.page_size ≡ h.page_size = ap (λ (h : Header). h.page_size) s.0 in
      chain {Q = λ a. Steady h pos len 0}
        (branch (ltb 0 idx) _ _ file fs
          (λ e.
            weaken (allocate_new_data_pages-Steady (idx - 1) h pos len 0 file fs s)
              (λ a f1 fs1 p. p.0))
          (λ e. meets s))
        (λ a file1 fs1 s1.
          chain {Q = λ a. Steady h pos len (suc idx)}
            (branch (is_fresh (page_at file1.inode.data_pages idx)) _ _ file1 fs1
              (λ e. meets (s1.0, s1.1, s1.2, is_fresh-length file1.inode.data_pages idx e))
              (λ e.
                weaken (allocate_new_data_pages-Steady idx h pos len 0 file1 fs1 s1)
                  (λ a f2 fs2 p. p.1)))
            (λ a file2 fs2 s2.
              let (p, e) = page_at-some file2.inode.data_pages idx s2.3 in
              rw e (
                chain
                  (page_before-Steady (not (is_fresh (page_at file1.inode.data_pages idx))) p h pos
                    len (suc idx) file2 fs2 s2)
                  (λ before file3 fs3 (s3, room).
                    chain
                      (overwrite-Steady idx start (take n bytes) before h pos len file3 fs3 s3
                        (omega (arith, length-take n bytes, room, size, mod-lt file.pos wide)))
                      (λ a file4 fs4 (header, at, long, there). meets (
                        rw (s.0, s.1) refl,
                        (header, omega (arith, at, length-take n bytes), long, omega arith),
                      ))))))

  write_round-Steady :
      (bytes : List ℕ) (h : Header) (pos len : ℕ) (file : File) (fs : Fs S)
      → Steady h pos len 0 file fs
      → Meets
          (λ n file' fs'. (n ≡ min (length bytes) h.page_size) × Steady h (pos + n) len 0 file' fs')
          (SameHeader h)
          (write_round config bytes file fs)
  unfolding write_round
  write_round-Steady bytes h pos len file fs s =
      let idx = file.pos / fs.header.page_size in
      chain (allocate_new_data_pages-Steady idx h pos len 0 file fs s) (λ a file1 fs1 (_, s1).
        let size : fs.header.page_size ≡ h.page_size = ap (λ (h : Header). h.page_size) s.0 in
        branch (ltb (length bytes) fs.header.page_size) _ _ file1 fs1
          (λ small.
            let (p, e) = page_at-some file1.inode.data_pages idx s1.3 in
            rw e (
              chain (page_before-Steady (is_stored p.state) p h pos len (suc idx) file1 fs1 s1)
                (λ before file2 fs2 (s2, room).
                  chain
                    (overwrite-Steady idx 0 bytes before h pos len file2 fs2 s2
                      (ground (arith, size, room)))
                    (λ a file3 fs3 (header, at, long, there).
                      meets (ground (arith, size), (header, at, long, omega arith))))))
          (λ large.
            chain
              (write_page-Steady config idx (take fs.header.page_size bytes) h pos len (suc idx)
                file1 fs1 s1 s1.3)
              (λ a file2 fs2 (header, at, long, there).
                meets (ground (arith, size), (header, omega (arith, at), long, omega arith)))))

  -- Whatever is left is written, a byte or more in each round.
  write_rounds-Steady :
      (left : ℕ) (bytes : List ℕ) (h : Header) (pos len : ℕ) (file : File) (fs : Fs S)
      → Steady h pos len 0 file fs
      → 0 < h.page_size
      → length bytes ≤ left
      → Meets
          (λ a. Steady h (pos + length bytes) len 0)
          (SameHeader h)
          (write_rounds config left bytes file fs)
  unfolding write_rounds
  write_rounds-Steady zero [] h pos len file fs s wide enough =
      meets (s.0, omega (arith, s.1), s.2, s.3)
  write_rounds-Steady (suc left) [] h pos len file fs s wide enough =
      meets (s.0, omega (arith, s.1), s.2, s.3)
  write_rounds-Steady zero (b ∷ bytes) h pos len file fs s wide enough = absurd (omega arith)
  write_rounds-Steady (suc left) (b ∷ bytes) h pos len file fs s wide enough =
      chain (write_round-Steady (b ∷ bytes) h pos len file fs s) (λ n file1 fs1 (e, s1).
        let rest = length-drop n (b ∷ bytes) in
        weaken
          (write_rounds-Steady left (drop n (b ∷ bytes)) h (pos + n) len file1 fs1 s1 wide
            (omega (arith, rest, e)))
          (λ a file2 fs2 (header, at, long, there).
            (header, omega (arith, at, rest, e), long, there)))

  pub write_pages-Written :
      (bytes : List ℕ) (h : Header) (pos len : ℕ) (file : File) (fs : Fs S)
      → Steady h pos len 0 file fs
      → 0 < h.page_size
      → Meets (Written h pos len (length bytes)) (SameHeader h) (write_pages config bytes file fs)
  unfolding write_pages
  write_pages-Written bytes h pos len file fs s wide =
      chain {Q = λ n file' fs'. (n ≤ length bytes) × Steady h (pos + n) len 0 file' fs'}
        (branch (file.pos % fs.header.page_size == 0) _ _ file fs
          (λ e. meets (omega arith, (s.0, omega (arith, s.1), s.2, s.3)))
          (λ e.
            weaken (write_unaligned-Steady bytes h pos len file fs s wide)
              (λ n f1 fs1 (e, s1). (omega (arith, e), s1))))
        (λ n file1 fs1 (small, s1).
          chain
            (write_rounds-Steady (length bytes) (drop n bytes) h (pos + n) len file1 fs1 s1 wide
              (omega (arith, length-drop n bytes)))
            (λ a file2 fs2 (header, at, long, there).
              let at' : file2.pos ≡ pos + length bytes =
                omega (arith, at, small, length-drop n bytes) in
              meets (refl, header, at', rw (at', long) refl, refl)))
