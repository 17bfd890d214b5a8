-- ===== src/Fs/Write/Apart.antt =====
-- Copy on write for `write` of src/base/SimpleFlashFsBase.h: pages that are neither free nor new in
-- the file keep their bytes.
use simpleflashfs.Prelude.{
  ℕ, zero, suc, ◌+◌, ◌-◌, ◌/◌, ◌%◌, ◌^◌, ◌≤◌, ◌<◌, ◌≡◌, ◌≢◌, ap, sym, ◌∙◌, inl, inr, arith, min,
  Bool, true, false, ◌&&◌, Option, none, some, List, [], ◌∷◌, ◌==◌, Bool-cases, length, take, drop,
  leb, ltb, length-take, length-replicate, if◌then◌else◌,
}
use simpleflashfs.Fs.Types.{Header, Config, Fs, File, DataPage}
use simpleflashfs.Fs.Page.{put, zero_page}
use simpleflashfs.Fs.Page.Copies.{put_lem}
use simpleflashfs.Fs.Memory.{IsMemory}
use simpleflashfs.PageSet.{no_data}
use simpleflashfs.Fs.Read.{page_at, is_stored, load}
use simpleflashfs.Fs.Inode.{get_inode_data_space_size}
use simpleflashfs.Fs.Action.{fault, Action, need, continue, pure, ◌>>◌}
use simpleflashfs.Fs.Action.Keeps.{Keeps, keeps, follow, either, lifted}
use simpleflashfs.Fs.Store.{allocate_new_data_pages}
use simpleflashfs.Fs.Store.Claims.{Apart}
use simpleflashfs.Fs.Store.Apart.{
  allocate_new_data_pages-Stays, allocate_new_data_page_at-Stays, write_page-Stays,
}
use simpleflashfs.Fs.Flush.CleanUp.{offset}
use simpleflashfs.Fs.Write.{
  is_fresh, widened, fits_inside, write_inside, page_before, overwrite, write_unaligned,
  write_round, write_rounds, write_pages, write_joined, spill, write_with, write,
}
use simpleflashfs.Fs.Write.Total.{Buffered, PageOf, length-load}

length-put :
    (pos : ℕ) (bytes before page : List ℕ)
    → put pos bytes before ≡ some page
    → length page ≡ length before
unfolding put
length-put pos bytes before page e = elim (Bool-cases (leb (pos + length bytes) (length before))) [
  | inl fits ↦
      let (p, e2, _, size) = put_lem pos bytes before (ground arith) in
      let same : p ≡ page = cc in sym (ap (λ (l : List ℕ). length l) same) ∙ size
  | inr long ↦ absurd (let clash = rw long at e in cc)
]

module _ {S : Type 0} (config : Config S) (buffered : Buffered config) (m : IsMemory config.memory)
    (h : Header) (size w : ℕ) (bytes_w : List ℕ) (wide : 0 < h.page_size) (word : size ≤ 2 ^ 32)
    (own : offset config m h w + h.page_size ≤ size) (real : w ≢ no_data) where
  abbrev Safe : File → Fs S → Type 0
  Safe = Apart config m h size w bytes_w

  need-Safe :
      (page : Option (List ℕ)) (file : File) (fs : Fs S)
      → Safe file fs
      → PageOf config buffered h.page_size page
      → Keeps
          (λ before file' fs'. Safe file' fs' × (length before ≡ h.page_size))
          Safe
          (need page file fs)
  need-Safe none file fs s e = keeps s
  need-Safe (some page) file fs s e = keeps (s, e)

  page_before-Safe :
      (reads : Bool) (p : DataPage) (file : File) (fs : Fs S)
      → Safe file fs
      → Keeps
          (λ before file' fs'. Safe file' fs' × (length before ≡ h.page_size))
          Safe
          (page_before config reads p file fs)
  unfolding page_before
  page_before-Safe true p file fs s =
      need-Safe (load config fs p) file fs s (rw (← s.header) (length-load config buffered fs p))
  page_before-Safe false p file fs s = keeps (
    s,
    (length-replicate {A = ℕ} fs.header.page_size 0 ∙ ap (λ (h : Header). h.page_size) s.header),
  )

  overwrite-Safe :
      (idx start : ℕ) (bytes before : List ℕ) (file : File) (fs : Fs S)
      → Safe file fs
      → length before ≡ h.page_size
      → Keeps (λ a. Safe) Safe (overwrite config idx start bytes before file fs)
  unfolding overwrite
  overwrite-Safe idx start bytes before file fs s whole =
      follow (lifted (put start bytes before) file fs s) (λ page file1 fs1 (e, same, same_fs).
        let full : length page ≡ h.page_size = length-put start bytes before page e ∙ whole in
        rw (same, same_fs)
          (follow (lifted (page_at file.inode.data_pages idx) file fs s)
            (λ p file2 fs2 (_, same2, same_fs2).
              rw (same2, same_fs2)
                (follow {Q = λ a. Safe}
                  (either (is_stored p.state) _ _ file fs
                    (λ e.
                      allocate_new_data_page_at-Stays config m h size w bytes_w wide word own real
                        idx file fs s)
                    (λ e. keeps s))
                  (λ a file3 fs3 s3.
                    follow
                      (write_page-Stays config m h size w bytes_w wide word own real idx page file3
                        fs3 s3 full)
                      (λ a file4 fs4 s4. keeps s4))))))

  allocates :
      (idx : ℕ) (file : File) (fs : Fs S)
      → Safe file fs
      → Keeps (λ a. Safe) Safe (allocate_new_data_pages idx file fs)
  allocates = allocate_new_data_pages-Stays config m h size w bytes_w wide word own real

  -- A page is read and written again.
  rewrites :
      (idx start : ℕ) (bytes : List ℕ) (reads : Bool) (p : DataPage) (n : ℕ) (file : File)
      (fs : Fs S)
      → Safe file fs
      → Keeps
          (λ (a : ℕ). Safe)
          Safe
          (continue
            (page_before config reads p file fs)
            (λ before. overwrite config idx start bytes before >> pure n))
  rewrites idx start bytes reads p n file fs s =
      follow (page_before-Safe reads p file fs s) (λ before file1 fs1 (s1, whole).
        follow (overwrite-Safe idx start bytes before file1 fs1 s1 whole)
          (λ a file2 fs2 s2. keeps s2))

  write_round-Safe :
      (bytes : List ℕ) (file : File) (fs : Fs S)
      → Safe file fs
      → Keeps (λ (n : ℕ). Safe) Safe (write_round config bytes file fs)
  unfolding write_round
  write_round-Safe bytes file fs s =
      let idx = file.pos / fs.header.page_size in
      let p_size : fs.header.page_size ≡ h.page_size = ap (λ (h : Header). h.page_size) s.header in
      follow (allocates idx file fs s) (λ a file1 fs1 s1.
        either (ltb (length bytes) fs.header.page_size) _ _ file1 fs1
          (λ small.
            follow (lifted (page_at file1.inode.data_pages idx) file1 fs1 s1)
              (λ p file2 fs2 (_, same, same_fs).
                rw (same, same_fs)
                  (rewrites idx 0 bytes (is_stored p.state) p (length bytes) file1 fs1 s1)))
          (λ large.
            follow
              (write_page-Stays config m h size w bytes_w wide word own real idx
                (take fs.header.page_size bytes) file1 fs1 s1
                (ground (arith, length-take fs.header.page_size bytes, p_size)))
              (λ a file2 fs2 s2. keeps s2)))

  write_unaligned-Safe :
      (bytes : List ℕ) (file : File) (fs : Fs S)
      → Safe file fs
      → Keeps (λ (n : ℕ). Safe) Safe (write_unaligned config bytes file fs)
  unfolding write_unaligned
  write_unaligned-Safe bytes file fs s =
      let idx = file.pos / fs.header.page_size in
      follow {Q = λ a. Safe}
        (either (ltb 0 idx) _ _ file fs (λ e. allocates (idx - 1) file fs s) (λ e. keeps s))
        (λ a file1 fs1 s1.
          follow {Q = λ a. Safe}
            (either (is_fresh (page_at file1.inode.data_pages idx)) _ _ file1 fs1 (λ e. keeps s1)
              (λ e. allocates idx file1 fs1 s1))
            (λ a file2 fs2 s2.
              follow (lifted (page_at file2.inode.data_pages idx) file2 fs2 s2)
                (λ p file3 fs3 (_, same, same_fs).
                  rw (same, same_fs) (rewrites idx _ _ _ p _ file2 fs2 s2))))

  write_rounds-Safe :
      (left : ℕ) (bytes : List ℕ) (file : File) (fs : Fs S)
      → Safe file fs
      → Keeps (λ a. Safe) Safe (write_rounds config left bytes file fs)
  unfolding write_rounds
  write_rounds-Safe zero [] file fs s = keeps s
  write_rounds-Safe (suc left) [] file fs s = keeps s
  write_rounds-Safe zero (b ∷ bytes) file fs s = keeps tt
  write_rounds-Safe (suc left) (b ∷ bytes) file fs s =
      follow (write_round-Safe (b ∷ bytes) file fs s)
        (λ n file1 fs1 s1. write_rounds-Safe left (drop n (b ∷ bytes)) file1 fs1 s1)

  write_pages-Safe :
      (bytes : List ℕ) (file : File) (fs : Fs S)
      → Safe file fs
      → Keeps (λ (n : ℕ). Safe) Safe (write_pages config bytes file fs)
  unfolding write_pages
  write_pages-Safe bytes file fs s =
      follow {Q = λ (n : ℕ). Safe}
        (either (file.pos % fs.header.page_size == 0) _ _ file fs (λ e. keeps s)
          (λ e. write_unaligned-Safe bytes file fs s))
        (λ n file1 fs1 s1.
          follow (write_rounds-Safe (length bytes) (drop n bytes) file1 fs1 s1)
            (λ a file2 fs2 s2. keeps s2))

  -- A call of `write` that keeps the page.
  abbrev Calls : (List ℕ → Action S ℕ) → Type 0
  Calls rec =
      (bytes : List ℕ) (file : File) (fs : Fs S)
      → Safe file fs
      → Keeps (λ (n : ℕ). Safe) Safe (rec bytes file fs)

  write_inside-Safe : Calls (write_inside config)
  unfolding write_inside
  write_inside-Safe bytes file fs s =
      follow
        (lifted
          (put file.pos bytes
            (widened (get_inode_data_space_size fs.header file.inode) file.inode.inode_data))
          file fs s)
        (λ inode_data file1 fs1 (_, same, same_fs). rw same_fs (keeps s))

  write_joined-Safe :
      (rec : List ℕ → Action S ℕ) (bytes : List ℕ) (n k : ℕ) (page : List ℕ) (file : File)
      (fs : Fs S)
      → Calls rec
      → Safe file fs
      → Keeps (λ (n : ℕ). Safe) Safe (write_joined config rec bytes n k page file fs)
  unfolding write_joined
  write_joined-Safe rec bytes n k page file fs calls s =
      follow
        (calls (take (n + k) page)
          (record file { inode = record file.inode { inode_data = [] }; pos = 0; modified = true })
          fs s)
        (λ written file1 fs1 s1.
          either (written == n + k) _ _ file1 fs1
            (λ e.
              either (leb (n + k) fs.header.page_size && (length bytes == k)) _ _ file1 fs1
                (λ e. keeps s1)
                (λ e.
                  follow (write_pages-Safe (drop k bytes) file1 fs1 s1)
                    (λ a file2 fs2 s2. keeps s2)))
            (λ e. keeps s1))

  spill-Safe : (rec : List ℕ → Action S ℕ) → Calls rec → Calls (spill config rec)
  unfolding spill
  spill-Safe rec calls bytes file fs s =
      let n = file.pos in
      let k = min ((fs.header.page_size + 2 ^ 64 - n % 2 ^ 64) % 2 ^ 64) (length bytes) in
      let old =
        if leb n (length file.inode.inode_data)
        then put 0 (take n file.inode.inode_data) (zero_page fs.header.page_size)
        else none in
      follow (lifted old file fs s) (λ page1 file1 fs1 (_, same1, same_fs1).
        rw (same1, same_fs1)
          (follow (lifted (put n (take k bytes) page1) file fs s)
            (λ page2 file2 fs2 (_, same2, same_fs2).
              rw (same2, same_fs2) (write_joined-Safe rec bytes n k page2 file fs calls s))))

  write_with-Safe : (rec : List ℕ → Action S ℕ) → Calls rec → Calls (write_with config rec)
  unfolding write_with
  write_with-Safe rec calls bytes file fs s =
      either (fits_inside fs.header file (length bytes)) _ _ file fs
        (λ e. write_inside-Safe bytes file fs s)
        (λ e.
          either (length file.inode.inode_data == 0) _ _ file fs
            (λ e. write_pages-Safe bytes file fs s) (λ e. spill-Safe rec calls bytes file fs s))

  -- A page w of a memory of at most 2^32 bytes that is neither free nor new in the file: after
  -- `write`, whether it ends with success or quits, w has the same bytes and is still neither free
  -- nor new. Every page that is free or new in the file stands in the memory, before and after, and
  -- a `read` of the memory fills its buffer.
  pub write-Apart :
      (bytes : List ℕ) (file : File) (fs : Fs S)
      → Apart config m h size w bytes_w file fs
      → Keeps
          (λ (n : ℕ). Apart config m h size w bytes_w)
          (Apart config m h size w bytes_w)
          (write config bytes file fs)
  unfolding write
  write-Apart bytes file fs s =
      write_with-Safe (write_with config (λ rest. λ file fs. fault))
        (write_with-Safe (λ rest. λ file fs. fault) (λ bytes file fs s. keeps tt)) bytes file fs s
