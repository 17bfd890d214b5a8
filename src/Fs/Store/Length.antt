-- ===== src/Fs/Store/Length.antt =====
-- Allocating and writing pages in src/base/SimpleFlashFsBase.h: what stays as it is, and that the
-- entries of the page list that are asked for are there.
use simpleflashfs.Prelude.{
  ℕ, zero, suc, ◌+◌, ◌≤◌, ◌<◌, ◌≡◌, refl, inl, inr, arith, Option, none, some, List, [], ◌∷◌, ◌++◌,
  Bool-cases, length, ltb, leb, ◌==◌, length-set, length-append, ◌*◌, ◌%◌, ◌^◌,
}
use simpleflashfs.Fs.Types.{Header, Config, Fs, File, DataPage, new, stored, deleted}
use simpleflashfs.Fs.Read.{page_at, is_new}
use simpleflashfs.Fs.Alloc.{allocate_free_data_page, allocate_file_data_page}
use simpleflashfs.Fs.Inode.{get_max_inode_data_pages}
use simpleflashfs.Fs.Action.{Outcome, need}
use simpleflashfs.Fs.Action.Post.{Meets, meets, chain}
use simpleflashfs.Fs.Store.{
  count_valid_pages, insert_page, renumber, claim_data_page, claim_free_page, allocate_rounds,
  allocate_new_data_pages, allocate_new_data_page_at, store_page, write_page, write_new, write_copy,
  with_pages,
}

module _ {S : Type 0} where
  -- The header, the position and the length of the file, and n entries or more in its page list.
  abbrev pub Steady : Header → ℕ → ℕ → ℕ → File → Fs S → Type 0
  Steady h pos len n file fs =
      (fs.header ≡ h)
      × (file.pos ≡ pos)
      × (file.inode.file_len ≡ len)
      × (n ≤ length file.inode.data_pages)

  abbrev pub SameHeader : Header → File → Fs S → Type 0
  SameHeader h file fs = fs.header ≡ h

pub page_at-some :
    (ps : List DataPage) (i : ℕ) → i < length ps → (p : DataPage) × (page_at ps i ≡ some p)
unfolding page_at
page_at-some [] i h = absurd (omega arith)
page_at-some (p ∷ ps) zero h = (p, refl)
page_at-some (p ∷ ps) (suc i) h = page_at-some ps i (omega arith)

pub count_valid-insert :
    (ps : List DataPage) (i page_id : ℕ)
    → count_valid_pages (insert_page ps i (record { page_id = page_id; state = new }))
      ≡ suc (count_valid_pages ps)
unfolding count_valid_pages insert_page
count_valid-insert [] zero q = refl
count_valid-insert [] (suc i) q = refl
count_valid-insert (p ∷ ps) zero q = refl
count_valid-insert (p ∷ ps) (suc i) q = ground (arith, count_valid-insert ps i q)

pub count_valid-length : (ps : List DataPage) → count_valid_pages ps ≤ length ps
unfolding count_valid_pages
count_valid-length [] = omega arith
count_valid-length (p ∷ ps) = ground (arith, count_valid-length ps)

length-insert :
    (ps : List DataPage) (i : ℕ) (q : DataPage) → length (insert_page ps i q) ≡ suc (length ps)
unfolding insert_page
length-insert [] zero q = refl
length-insert [] (suc i) q = refl
length-insert (p ∷ ps) zero q = refl
length-insert (p ∷ ps) (suc i) q = ground (arith, length-insert ps i q)

length-renumber :
    (old page_id : ℕ) (ps : List DataPage) → length (renumber old page_id ps) ≡ length ps
unfolding renumber
length-renumber old q [] = refl
length-renumber old q (p ∷ ps) = ground (arith, length-renumber old q ps)

module _ {S : Type 0} where
  -- A page is claimed, or the method ends; the handle and the header stay.
  abbrev pub Claims : Header → File → Outcome S ℕ → Type 0
  Claims h file = Meets (λ page file' fs'. (file' ≡ file) × (fs'.header ≡ h)) (SameHeader h)

  need-Claims :
      (h : Header) (page : Option ℕ) (file : File) (fs : Fs S)
      → fs.header ≡ h
      → Claims h file (need page file fs)
  need-Claims h none file fs e = meets e
  need-Claims h (some p) file fs e = meets (refl, e)

  claim_free_page-Claims :
      (h : Header) (file : File) (fs : Fs S)
      → fs.header ≡ h
      → Claims h file (claim_free_page file fs)
  unfolding claim_free_page allocate_free_data_page
  claim_free_page-Claims h file fs same = need-Claims h _ file _ same

  claim_data_page-Claims :
      (h : Header) (file : File) (fs : Fs S)
      → fs.header ≡ h
      → Claims h file (claim_data_page file fs)
  unfolding claim_data_page allocate_file_data_page allocate_free_data_page
  claim_data_page-Claims h file fs same =
      elim (Bool-cases
        (leb (get_max_inode_data_pages fs.header file.inode) (length file.inode.data_pages + 1))) [
          | inl e ↦ rw e (meets same)
          | inr e ↦ rw e (need-Claims h _ file _ same)
        ]

  allocate_rounds-Steady :
      (left page_idx : ℕ) (h : Header) (pos len n : ℕ) (file : File) (fs : Fs S)
      → Steady h pos len n file fs
      → 0 < left
      → page_idx + 1 < count_valid_pages file.inode.data_pages + left
      → Meets
          (λ a file' fs'. Steady h pos len n file' fs' × Steady h pos len (suc page_idx) file' fs')
          (SameHeader h)
          (allocate_rounds left page_idx file fs)
  unfolding allocate_rounds
  allocate_rounds-Steady zero page_idx h pos len n file fs s some_left enough = absurd (omega arith)
  allocate_rounds-Steady (suc left) page_idx h pos len n file fs s some_left enough =
      let (header, at, long, there) = s in
      elim (Bool-cases (ltb page_idx (count_valid_pages file.inode.data_pages))) [
        | inl e ↦
            rw (e, allocate_rounds)
              (meets
                (s, (header, at, long, ground (arith, count_valid-length file.inode.data_pages))))
        | inr e ↦
            rw (e, allocate_rounds)
              (chain (claim_data_page-Claims h file fs header) (λ page file' fs' (same, header').
                let valid = count_valid_pages file.inode.data_pages in
                let q : DataPage = record { page_id = page; state = new } in
                let longer = length-insert file.inode.data_pages valid q in
                let more = count_valid-insert file.inode.data_pages valid page in
                allocate_rounds-Steady left page_idx h pos len n
                  (with_pages file (insert_page file.inode.data_pages valid q)) fs'
                  (header', at, long, omega (arith, longer)) (ground arith) (omega (arith, more))))
      ]

  -- `allocate_new_data_pages` runs to its end, and gives the file more than page_idx pages or quits.
  pub allocate_new_data_pages-Steady :
      (page_idx : ℕ) (h : Header) (pos len n : ℕ) (file : File) (fs : Fs S)
      → Steady h pos len n file fs
      → Meets
          (λ a file' fs'. Steady h pos len n file' fs' × Steady h pos len (suc page_idx) file' fs')
          (SameHeader h)
          (allocate_new_data_pages page_idx file fs)
  unfolding allocate_new_data_pages
  allocate_new_data_pages-Steady page_idx h pos len n file fs s =
      allocate_rounds-Steady (page_idx + 2) page_idx h pos len n file fs s (omega arith)
        (omega arith)

  -- The same handle has the same pages.
  pub moved :
      (h : Header) (pos len n : ℕ) (file file' : File) (fs fs' : Fs S)
      → file' ≡ file
      → fs'.header ≡ h
      → Steady h pos len n file fs
      → Steady h pos len n file' fs'
  moved h pos len n file file' fs fs' same header (_, at, long, there) =
      rw same (header, at, long, there)

  pub allocate_new_data_page_at-Steady :
      (page_idx : ℕ) (h : Header) (pos len n : ℕ) (file : File) (fs : Fs S)
      → Steady h pos len n file fs
      → page_idx < length file.inode.data_pages
      → Meets (λ a. Steady h pos len n) (SameHeader h) (allocate_new_data_page_at page_idx file fs)
  unfolding allocate_new_data_page_at
  allocate_new_data_page_at-Steady page_idx h pos len n file fs s small =
      chain (claim_data_page-Claims h file fs s.0) (λ page file' fs' (same, header).
        let (_, at, long, there) = moved h pos len n file file' fs fs' same header s in
        let (_, _, _, small') =
          moved h pos len (suc page_idx) file file' fs fs' same header (s.0, s.1, s.2, small) in
        let (old, e) = page_at-some file'.inode.data_pages page_idx small' in
        let pages = file'.inode.data_pages ++ record old { state = deleted } ∷ [] in
        rw e (
          meets (
            header,
            at,
            long,
            omega (
              arith,
              length-set pages page_idx (record { page_id = page; state = new }),
              length-append file'.inode.data_pages (record old { state = deleted } ∷ []),
            ),
          )))

  module _ (config : Config S) where
    store_page-Steady :
        (page_id : ℕ) (page : List ℕ) (h : Header) (file : File) (fs : Fs S)
        → fs.header ≡ h
        → Meets
            (λ a file' fs'. (file' ≡ file) × (fs'.header ≡ h))
            (SameHeader h)
            (store_page config page_id page file fs)
    unfolding store_page
    store_page-Steady page_id page h file fs same =
        elim (Bool-cases (
          (config.memory.write fs.mem
            ((fs.header.page_size + fs.header.page_size * page_id % 2 ^ 32) % 2 ^ 32) page).1
          == length page)) [ inl e ↦ rw e (meets (refl, same)) | inr e ↦ rw e (meets same) ]

    write_new-Steady :
        (idx : ℕ) (p : DataPage) (page : List ℕ) (h : Header) (pos len n : ℕ) (file : File)
        (fs : Fs S)
        → Steady h pos len n file fs
        → Meets (λ a. Steady h pos len n) (SameHeader h) (write_new config idx p page file fs)
    unfolding write_new
    write_new-Steady idx p page h pos len n file fs s =
        chain (store_page-Steady p.page_id page h file fs s.0) (λ a file' fs' (same, header).
          let (_, at, long, there) = moved h pos len n file file' fs fs' same header s in
          meets (
            header,
            at,
            long,
            omega (arith, length-set file'.inode.data_pages idx (record p { state = stored })),
          ))

    write_copy-Steady :
        (p : DataPage) (page : List ℕ) (h : Header) (pos len n : ℕ) (file : File) (fs : Fs S)
        → Steady h pos len n file fs
        → Meets (λ a. Steady h pos len n) (SameHeader h) (write_copy config p page file fs)
    unfolding write_copy
    write_copy-Steady p page h pos len n file fs s =
        chain (claim_free_page-Claims h file fs s.0) (λ q file1 fs1 (same1, header1).
          chain (store_page-Steady q page h file1 fs1 header1) (λ a file' fs' (same, header).
            let (_, at, long, there) =
              moved h pos len n file1 file' fs1 fs' same header
                (moved h pos len n file file1 fs fs1 same1 header1 s) in
            meets (
              header,
              at,
              long,
              omega (arith, length-renumber p.page_id q file'.inode.data_pages),
            )))

    -- `write_page` of a page that the file has.
    pub write_page-Steady :
        (idx : ℕ) (page : List ℕ) (h : Header) (pos len n : ℕ) (file : File) (fs : Fs S)
        → Steady h pos len n file fs
        → idx < length file.inode.data_pages
        → Meets (λ a. Steady h pos len n) (SameHeader h) (write_page config idx page file fs)
    unfolding write_page
    write_page-Steady idx page h pos len n file fs s small =
        let (p, e) = page_at-some file.inode.data_pages idx small in
        rw e (elim (Bool-cases (is_new p.state)) [
          | inl e2 ↦ rw e2 (write_new-Steady idx p page h pos len n file fs s)
          | inr e2 ↦ rw e2 (write_copy-Steady p page h pos len n file fs s)
        ])
