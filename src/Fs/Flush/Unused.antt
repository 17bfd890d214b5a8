-- ===== src/Fs/Flush/Unused.antt =====
-- Which pages `erase_inode_and_unused_pages` of src/base/SimpleFlashFsBase.h erases.
use simpleflashfs.Prelude.{
  ℕ, ◌<◌, ◌≡◌, ◌≢◌, refl, ap, sym, arith, Bool, false, not, ◌&&◌, ◌||◌, List, [], ◌∷◌, ◌==◌,
}
use simpleflashfs.PageSet.{PageSet, empty_set, no_data, unordered_insert, erase}
use simpleflashfs.PageSet.Members.{IsValid, has, has-insert, insert-IsValid}
use simpleflashfs.PageSet.Erase.{has-erase, erase-IsValid}
use simpleflashfs.PageSet.Reads.{unordered_insert_lem}
use simpleflashfs.Fs.Types.{File, DataPage}
use simpleflashfs.Fs.Flush.{collect_pages, remove_pages, pages_to_erase}

abbrev pub uses : List DataPage → ℕ → Bool
uses [] w = false
uses (p ∷ ps) w = (p.page_id == w) || uses ps w

-- Page numbers below NO_DATA, none twice.
abbrev pub PagesDistinct : List DataPage → Type 0
PagesDistinct [] = Unit {0}
PagesDistinct (p ∷ ps) = (p.page_id < no_data) × (uses ps p.page_id ≡ false) × PagesDistinct ps

collect_pages_lem :
    (ps : List DataPage) (s : PageSet) (w : ℕ)
    → PagesDistinct ps
    → ((x : ℕ) → (has s x && uses ps x) ≡ false)
    → IsValid s
    → IsValid (collect_pages ps s) × (has (collect_pages ps s) w ≡ (has s w || uses ps w))
unfolding collect_pages
collect_pages_lem [] s w d apart v = (v, ground arith)
collect_pages_lem (p ∷ ps) s w (small, once, d) apart v =
    let new : has s p.page_id ≡ false = ground (arith, apart p.page_id) in
    let (v1, has1) = unordered_insert_lem s p.page_id w v small new in
    let (v2, has2) =
      collect_pages_lem ps (unordered_insert p.page_id s) w d
        (λ x.
          let (_, hasx) = unordered_insert_lem s p.page_id x v small new in
          ground (arith, hasx, apart x, once, λ (e : p.page_id ≡ x). ap (uses ps) (sym e)))
        v1 in
    (v2, ground (arith, has1, has2))

pub remove_pages_lem :
    (ps : List DataPage) (s : PageSet) (w : ℕ)
    → PagesDistinct ps
    → w ≢ no_data
    → IsValid s
    → IsValid (remove_pages ps s) × (has (remove_pages ps s) w ≡ (not (uses ps w) && has s w))
unfolding remove_pages
remove_pages_lem [] s w d h v = (v, refl)
remove_pages_lem (p ∷ ps) s w (small, once, d) h v =
    let (same, _) = has-erase s p.page_id w v (omega arith) h in
    let (v2, has2) =
      remove_pages_lem ps (erase p.page_id s).0 w d h (erase-IsValid s p.page_id v) in
    (v2, ground (arith, same, has2))

pub empty_set-IsValid : IsValid empty_set
empty_set-IsValid = record { distinct = tt; ordered = λ e. tt; full = λ e e2. refl }

-- Where the page numbers of each version are below NO_DATA and none stands twice, the pages to erase
-- are a valid set: the inode page of the old version, and its data pages that the next one does not
-- use.
pub pages_to_erase_lem :
    (old next : File) (w : ℕ)
    → PagesDistinct old.inode.data_pages
    → PagesDistinct next.inode.data_pages
    → old.page < no_data
    → w ≢ no_data
    → IsValid (pages_to_erase old next)
      × (has (pages_to_erase old next) w ≡ (
          (old.page == w) || (uses old.inode.data_pages w && not (uses next.inode.data_pages w))))
unfolding pages_to_erase
pages_to_erase_lem old next w d d' small h =
    let (v1, has1) =
      collect_pages_lem old.inode.data_pages empty_set w d (λ x. refl) empty_set-IsValid in
    let (v2, has2) =
      remove_pages_lem next.inode.data_pages (collect_pages old.inode.data_pages empty_set) w d' h
        v1 in
    let rest = remove_pages next.inode.data_pages (collect_pages old.inode.data_pages empty_set) in
    (
      insert-IsValid rest old.page v2 small,
      ground (arith, has-insert rest old.page w v2 (omega arith) h, has1, has2),
    )
