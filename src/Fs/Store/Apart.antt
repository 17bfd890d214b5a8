-- ===== src/Fs/Store/Apart.antt =====
-- Copy on write in src/base/SimpleFlashFsBase.h: a page that is neither free nor new in the file that
-- is written keeps its bytes.
use native.Mathlib.Nat.{mul_comm}
use simpleflashfs.Prelude.{
  ℕ, zero, suc, ◌+◌, ◌*◌, ◌%◌, ◌^◌, ◌≤◌, ◌<◌, ◌≡◌, ◌≢◌, refl, ap, ◌∙◌, inl, inr, arith, Bool, true,
  false, some, List, [], ◌∷◌, ◌++◌, ◌==◌, Bool-cases, length, set, ltb, if◌then◌else◌,
}
use simpleflashfs.PageSet.{no_data}
use simpleflashfs.Fs.Types.{Header, Config, Fs, File, DataPage, new, stored, deleted}
use simpleflashfs.Fs.Memory.{IsMemory}
use simpleflashfs.Fs.Memory.Windows.{length-overlay}
use simpleflashfs.Fs.Read.{page_at, is_new}
use simpleflashfs.Fs.Action.Keeps.{Keeps, keeps, follow, either, lifted}
use simpleflashfs.Fs.Store.{
  count_valid_pages, insert_page, renumber, with_pages, allocate_rounds, allocate_new_data_pages,
  allocate_new_data_page_at, store_page, write_new, write_copy, write_page,
}
use simpleflashfs.Fs.Flush.CleanUp.{offset, bytes_of, bytes_of-overlay}
use simpleflashfs.Fs.Store.Claims.{
  awaits, Apart, claim_free_page-Claimed, claim_data_page-Claimed, relist_less, relist_more,
  awaits-insert, awaits-set, awaits-append, awaits-renumber, awaits-at,
}

module _ {S : Type 0} (config : Config S) (m : IsMemory config.memory) (h : Header) (size w : ℕ)
    (bytes : List ℕ) (wide : 0 < h.page_size) (word : size ≤ 2 ^ 32)
    (own : offset config m h w + h.page_size ≤ size) (real : w ≢ no_data) where
  abbrev pub Stays : Unit {0} → File → Fs S → Type 0
  Stays a = Apart config m h size w bytes

  pub allocate_rounds-Stays :
      (left page_idx : ℕ) (file : File) (fs : Fs S)
      → Apart config m h size w bytes file fs
      → Keeps Stays (Apart config m h size w bytes) (allocate_rounds left page_idx file fs)
  unfolding allocate_rounds
  allocate_rounds-Stays zero page_idx file fs s = keeps tt
  allocate_rounds-Stays (suc left) page_idx file fs s =
      elim (Bool-cases (ltb page_idx (count_valid_pages file.inode.data_pages))) [
        | inl e ↦ rw (e, allocate_rounds) (keeps s)
        | inr e ↦
            rw (e, allocate_rounds)
              (follow (claim_data_page-Claimed config m h size w bytes file fs s real)
                (λ p file' fs' (_, s', other, stands).
                  let ps = file.inode.data_pages in
                  let valid = count_valid_pages ps in
                  let q : DataPage = record { page_id = p; state = new } in
                  allocate_rounds-Stays left page_idx (with_pages file (insert_page ps valid q)) fs'
                    (relist_more config m h size w bytes ps (insert_page ps valid q) fs' p s' other
                      stands (λ x. ground (arith, awaits-insert ps valid p x)))))
      ]

  pub allocate_new_data_pages-Stays :
      (page_idx : ℕ) (file : File) (fs : Fs S)
      → Apart config m h size w bytes file fs
      → Keeps Stays (Apart config m h size w bytes) (allocate_new_data_pages page_idx file fs)
  unfolding allocate_new_data_pages
  allocate_new_data_pages-Stays page_idx file fs s =
      allocate_rounds-Stays (page_idx + 2) page_idx file fs s

  pub allocate_new_data_page_at-Stays :
      (page_idx : ℕ) (file : File) (fs : Fs S)
      → Apart config m h size w bytes file fs
      → Keeps Stays (Apart config m h size w bytes) (allocate_new_data_page_at page_idx file fs)
  unfolding allocate_new_data_page_at
  allocate_new_data_page_at-Stays page_idx file fs s =
      follow (claim_data_page-Claimed config m h size w bytes file fs s real)
        (λ p file' fs' (same, s', other, stands). rw same (
          follow (lifted (page_at file.inode.data_pages page_idx) file fs' s')
            (λ old file2 fs2 (e, same2, same_fs).
              let ps = file.inode.data_pages in
              let moved = ps ++ record old { state = deleted } ∷ [] in
              let q : DataPage = record { page_id = p; state = new } in
              rw same_fs (
                keeps (
                  relist_more config m h size w bytes ps (set moved page_idx q) fs' p s' other
                    stands
                    (λ x. ground (
                      arith,
                      awaits-set moved page_idx q x,
                      awaits-append ps (record old { state = deleted }) x,
                    )))))))

  store_page-Stays :
      (page_id : ℕ) (page : List ℕ) (file : File) (fs : Fs S)
      → Apart config m h size w bytes file fs
      → (page_id == w) ≡ false
      → offset config m h page_id + h.page_size ≤ size
      → length page ≡ h.page_size
      → Keeps
          (λ a file' fs'. (file' ≡ file) × Apart config m h size w bytes file fs')
          (Apart config m h size w bytes)
          (store_page config page_id page file fs)
  unfolding store_page
  store_page-Stays page_id page file fs s other stands whole =
      let ps = fs.header.page_size in
      let address = (ps + ps * page_id % 2 ^ 32) % 2 ^ 32 in
      let p_size : ps ≡ h.page_size = ap (λ (h : Header). h.page_size) s.header in
      let flip : h.page_size * page_id ≡ page_id * h.page_size = mul_comm h.page_size page_id in
      let at : address ≡ offset config m h page_id = rw (p_size, flip) (omega arith) in
      let room : offset config m h page_id + length page ≤ length (m.contents fs.mem) =
        omega (arith, stands, s.len, whole) in
      let (n, e) = m.write_law fs.mem (offset config m h page_id) page room in
      let mem = (config.memory.write fs.mem (offset config m h page_id) page).0 in
      let all : ((config.memory.write fs.mem (offset config m h page_id) page).1 == length page)
          ≡ true =
        ground (arith, n) in
      let kept =
        bytes_of-overlay config m h fs.mem mem page_id w page whole e (omega (arith, stands, s.len))
          (omega (arith, own, s.len)) in
      rw (at, all)
        (keeps (
          refl,
          record {
            header = s.header;
            len =
                ap (λ (l : List ℕ). length l) e
                ∙ length-overlay (offset config m h page_id) page (m.contents fs.mem) room
                ∙ s.len;
            valid = s.valid;
            taken = s.taken;
            written = s.written;
            free_stand = s.free_stand;
            new_stand = s.new_stand;
            same =
                kept
                ∙ ap (λ (b : Bool). if b then page else bytes_of config m h fs.mem w) other
                ∙ s.same;
          },
        ))

  write_new-Stays :
      (idx : ℕ) (p : DataPage) (page : List ℕ) (file : File) (fs : Fs S)
      → Apart config m h size w bytes file fs
      → page_at file.inode.data_pages idx ≡ some p
      → is_new p.state ≡ true
      → length page ≡ h.page_size
      → Keeps Stays (Apart config m h size w bytes) (write_new config idx p page file fs)
  unfolding write_new
  write_new-Stays idx p page file fs s e fresh whole =
      let ps = file.inode.data_pages in
      let here = awaits-at ps idx p e fresh in
      let other : (p.page_id == w) ≡ false =
        ground (arith, s.written, here, λ (at : p.page_id ≡ w). ap (awaits ps) at) in
      follow (store_page-Stays p.page_id page file fs s other (s.new_stand p.page_id here) whole)
        (λ a file' fs' (same, s'). rw same (
          keeps (
            relist_less config m h size w bytes ps (set ps idx (record p { state = stored })) fs' s'
              (λ x. ground (arith, awaits-set ps idx (record p { state = stored }) x)))))

  write_copy-Stays :
      (p : DataPage) (page : List ℕ) (file : File) (fs : Fs S)
      → Apart config m h size w bytes file fs
      → length page ≡ h.page_size
      → Keeps Stays (Apart config m h size w bytes) (write_copy config p page file fs)
  unfolding write_copy
  write_copy-Stays p page file fs s whole =
      follow (claim_free_page-Claimed config m h size w bytes file fs s real)
        (λ q file1 fs1 (same1, s1, other, stands). rw same1 (
          follow (store_page-Stays q page file fs1 s1 other stands whole) (λ a file' fs' (same, s').
            rw same (
              keeps (
                relist_less config m h size w bytes file.inode.data_pages
                  (renumber p.page_id q file.inode.data_pages) fs' s'
                  (λ x. awaits-renumber p.page_id q file.inode.data_pages x))))))

  -- A page that is neither free nor new in the file keeps its bytes when a page of the file is
  -- written.
  pub write_page-Stays :
      (idx : ℕ) (page : List ℕ) (file : File) (fs : Fs S)
      → Apart config m h size w bytes file fs
      → length page ≡ h.page_size
      → Keeps Stays (Apart config m h size w bytes) (write_page config idx page file fs)
  unfolding write_page
  write_page-Stays idx page file fs s whole =
      follow (lifted (page_at file.inode.data_pages idx) file fs s)
        (λ p file' fs' (e, same, same_fs).
          rw (same, same_fs)
            (either (is_new p.state) _ _ file fs
              (λ fresh. write_new-Stays idx p page file fs s e fresh whole)
              (λ old. write_copy-Stays p page file fs s whole)))
