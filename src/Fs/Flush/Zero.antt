-- ===== src/Fs/Flush/Zero.antt =====
-- `write_zero_pages` of src/base/SimpleFlashFsBase.h on a memory in which the file's pages stand.
use native.Mathlib.Nat.{mul_comm}
use simpleflashfs.Prelude.{
  ℕ, zero, suc, ◌+◌, ◌*◌, ◌%◌, ◌^◌, ◌≤◌, ◌<◌, ◌≡◌, refl, ap, sym, ◌∙◌, arith, true, some, List, [],
  ◌∷◌, ◌==◌, length, set, length-set, length-replicate,
}
use simpleflashfs.Fs.Types.{Header, Config, Fs, File, DataPage, stored}
use simpleflashfs.Fs.Page.{zero_page}
use simpleflashfs.Fs.Memory.{IsMemory, overlay}
use simpleflashfs.Fs.Memory.Windows.{length-overlay}
use simpleflashfs.Fs.Read.{page_at, is_new}
use simpleflashfs.Fs.Action.Post.{Meets, meets, chain, branch}
use simpleflashfs.Fs.Store.{store_page, write_new, write_page, write_zero_rounds, write_zero_pages}
use simpleflashfs.Fs.Store.Length.{page_at-some}
use simpleflashfs.Fs.Flush.Unused.{uses, PagesDistinct}
use simpleflashfs.Fs.Flush.CleanUp.{offset}

-- A page that is found, marked as stored.
abbrev keep_at : List DataPage → ℕ → DataPage → List DataPage
keep_at ps i p = set ps i (record p { state = stored })

uses-keep_at :
    (ps : List DataPage) (i : ℕ) (p : DataPage) (w : ℕ)
    → page_at ps i ≡ some p
    → uses (keep_at ps i p) w ≡ uses ps w
unfolding page_at
uses-keep_at [] i p w e = refl
uses-keep_at (q ∷ ps) zero p w e =
    let same : q ≡ p = cc in ground (arith, ap (λ (p : DataPage). p.page_id) same)
uses-keep_at (q ∷ ps) (suc i) p w e = ground (arith, uses-keep_at ps i p w e)

keep_at-PagesDistinct :
    (ps : List DataPage) (i : ℕ) (p : DataPage)
    → page_at ps i ≡ some p
    → PagesDistinct ps
    → PagesDistinct (keep_at ps i p)
unfolding page_at
keep_at-PagesDistinct [] i p e d = tt
keep_at-PagesDistinct (q ∷ ps) zero p e (small, once, d) =
    let same : q ≡ p = cc in rw (← same) (small, once, d)
keep_at-PagesDistinct (q ∷ ps) (suc i) p e (small, once, d) =
    (small, uses-keep_at ps i p q.page_id e ∙ once, keep_at-PagesDistinct ps i p e d)

page_at-uses :
    (ps : List DataPage) (i : ℕ) (p : DataPage) → page_at ps i ≡ some p → uses ps p.page_id ≡ true
unfolding page_at
page_at-uses [] i p e = cc
page_at-uses (q ∷ ps) zero p e =
    let same : q ≡ p = cc in ground (arith, ap (λ (p : DataPage). p.page_id) same)
page_at-uses (q ∷ ps) (suc i) p e = ground (arith, page_at-uses ps i p e)

module _ {S : Type 0} where
  abbrev pub Never : File → Fs S → Type 0
  Never file fs = ⊥

module _ {S : Type 0} (config : Config S) (m : IsMemory config.memory) where
  -- A memory of `size` bytes, at most 2^32.
  abbrev pub Holds : Header → ℕ → Fs S → Type 0
  Holds h size fs = (fs.header ≡ h) × (length (m.contents fs.mem) ≡ size) × (size ≤ 2 ^ 32)

  -- A page that stands in the memory is written whole.
  pub store_page-Holds :
      (page_id : ℕ) (page : List ℕ) (h : Header) (size : ℕ) (file : File) (fs : Fs S)
      → Holds h size fs
      → 0 < h.page_size
      → offset config m h page_id + h.page_size ≤ size
      → length page ≡ h.page_size
      → Meets
          (λ a file' fs'.
            (file' ≡ file)
            × Holds h size fs'
            × (m.contents fs'.mem ≡ overlay (offset config m h page_id) page (m.contents fs.mem)))
          Never
          (store_page config page_id page file fs)
  unfolding store_page
  store_page-Holds page_id page h size file fs (header, len, word) wide fits whole =
      let ps = fs.header.page_size in
      let address = (ps + ps * page_id % 2 ^ 32) % 2 ^ 32 in
      let p_size : ps ≡ h.page_size = ap (λ (h : Header). h.page_size) header in
      let flip : h.page_size * page_id ≡ page_id * h.page_size = mul_comm h.page_size page_id in
      let at : address ≡ offset config m h page_id = rw (p_size, flip) (omega arith) in
      let room : offset config m h page_id + length page ≤ length (m.contents fs.mem) =
        omega (arith, fits, len, whole) in
      let (n, e) = m.write_law fs.mem (offset config m h page_id) page room in
      let all : ((config.memory.write fs.mem (offset config m h page_id) page).1 == length page)
          ≡ true =
        ground (arith, n) in
      rw (at, all)
        (meets (
          refl,
          (
            header,
            ap (λ (l : List ℕ). length l) e
                ∙ length-overlay (offset config m h page_id) page (m.contents fs.mem) room
                ∙ len,
            word,
          ),
          e,
        ))

  -- The pages of the file stand in the memory, none twice; and the handle is of page `page`.
  abbrev pub Stable : Header → ℕ → ℕ → File → Fs S → Type 0
  Stable h size page file fs =
      Holds h size fs
      × (file.page ≡ page)
      × PagesDistinct file.inode.data_pages
      × ((x : ℕ) → uses file.inode.data_pages x ≡ true → offset config m h x + h.page_size ≤ size)

  write_new-Stable :
      (idx : ℕ) (p : DataPage) (bytes : List ℕ) (h : Header) (size page : ℕ) (file : File)
      (fs : Fs S)
      → Stable h size page file fs
      → 0 < h.page_size
      → page_at file.inode.data_pages idx ≡ some p
      → length bytes ≡ h.page_size
      → Meets
          (λ a file' fs'.
            Stable h size page file' fs'
            × (length file'.inode.data_pages ≡ length file.inode.data_pages))
          Never
          (write_new config idx p bytes file fs)
  unfolding write_new
  write_new-Stable idx p bytes h size page file fs (holds, at, d, all) wide e whole =
      let pages = file.inode.data_pages in
      chain
        (store_page-Holds p.page_id bytes h size file fs holds wide
          (all p.page_id (page_at-uses pages idx p e)) whole)
        (λ a file' fs' (same, holds', _). rw same (
          meets (
            (
              holds',
              at,
              keep_at-PagesDistinct pages idx p e d,
              (λ x u. all x (sym (uses-keep_at pages idx p x e) ∙ u)),
            ),
            length-set pages idx (record p { state = stored }),
          )))

  write_zero_rounds-Stable :
      (left idx : ℕ) (h : Header) (size page : ℕ) (file : File) (fs : Fs S)
      → Stable h size page file fs
      → 0 < h.page_size
      → idx + left ≤ length file.inode.data_pages
      → Meets (λ a. Stable h size page) Never (write_zero_rounds config left idx file fs)
  unfolding write_zero_rounds
  write_zero_rounds-Stable zero idx h size page file fs s wide small = meets s
  write_zero_rounds-Stable (suc left) idx h size page file fs s wide small =
      let (p, e) = page_at-some file.inode.data_pages idx (omega arith) in
      let whole : length (zero_page fs.header.page_size) ≡ h.page_size =
        length-replicate {A = ℕ} fs.header.page_size 0 ∙ ap (λ (h : Header). h.page_size) s.0.0 in
      rw e (
        chain
          {Q = λ a file' fs'.
            Stable h size page file' fs'
            × (length file'.inode.data_pages ≡ length file.inode.data_pages)}
          (branch (is_new p.state) _ _ file fs
            (λ fresh.
              unfold write_page in
              rw (e, fresh)
                (write_new-Stable idx p (zero_page fs.header.page_size) h size page file fs s wide e
                  whole))
            (λ old. meets (s, refl)))
          (λ a file' fs' (s', len).
            write_zero_rounds-Stable left (idx + 1) h size page file' fs' s' wide
              (omega (arith, len))))

  -- `write_zero_pages` never quits there.
  pub write_zero_pages-Stable :
      (h : Header) (size page : ℕ) (file : File) (fs : Fs S)
      → Stable h size page file fs
      → 0 < h.page_size
      → Meets (λ a. Stable h size page) Never (write_zero_pages config file fs)
  unfolding write_zero_pages
  write_zero_pages-Stable h size page file fs s wide =
      write_zero_rounds-Stable (length file.inode.data_pages) 0 h size page file fs s wide
        (omega arith)
