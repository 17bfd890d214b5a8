-- ===== src/PageSet/Tests.antt =====
-- The theorems about src/base/SimpleFlashFsPageSet.h at concrete sets.
use simpleflashfs.Prelude.{
  ◌≡◌, arith, true, false, not, ◌&&◌, ◌||◌, [], ◌∷◌, ◌==◌, if◌then◌else◌, length,
}
use simpleflashfs.PageSet.{PageSet, no_data, insert, erase, count, get_data, size}
use simpleflashfs.PageSet.Order.{contains, Packed}
use simpleflashfs.PageSet.Members.{IsValid, has, has-insert, insert-IsValid}
use simpleflashfs.PageSet.Erase.{has-erase, count-has, erase-IsValid}
use simpleflashfs.PageSet.Reads.{get_data_lem}

-- The pages 7, 2 and 9, with a hole, in the order of their insertion.
abbrev heap : PageSet
heap = record { entries = 7 ∷ no_data ∷ 2 ∷ 9 ∷ []; unsorted = true; unshrinked = true }

heap-IsValid : IsValid heap
heap-IsValid = record { distinct = ground arith; ordered = λ e. cc; full = λ e _. cc }

-- The same pages in order, with the hole that an `erase` left.
abbrev holed : PageSet
holed = record { entries = 2 ∷ no_data ∷ 7 ∷ 9 ∷ []; unsorted = false; unshrinked = true }

holed-IsValid : IsValid holed
holed-IsValid = record { distinct = ground arith; ordered = λ _. ground arith; full = λ _ e. cc }

has-insert_example : has (insert 5 heap) 5 ≡ ((5 == 5) || has heap 5)
has-insert_example = has-insert heap 5 5 heap-IsValid (omega arith) (omega arith)

insert-IsValid_example : IsValid (insert 5 holed)
insert-IsValid_example = insert-IsValid holed 5 holed-IsValid (omega arith)

has-erase_example :
    (has (erase 7 heap).0 9 ≡ (not (7 == 9) && has heap 9))
    × ((erase 7 heap).1 ≡ (if has heap 7 then 1 else 0))
has-erase_example = has-erase heap 7 9 heap-IsValid (omega arith) (omega arith)

erase-IsValid_example : IsValid (erase 7 holed).0
erase-IsValid_example = erase-IsValid holed 7 holed-IsValid

count-has_example :
    ((count 9 holed).1 ≡ (if has holed 9 then 1 else 0)) × (has (count 9 holed).0 2 ≡ has holed 2)
count-has_example = count-has holed 9 2 holed-IsValid (omega arith) (omega arith)

get_data_lem_example :
    Packed 0 (get_data heap).1
    × IsValid (get_data heap).0
    × (has (get_data heap).0 9 ≡ has heap 9)
    × (contains (get_data heap).1 9 ≡ has heap 9)
    × (size heap ≡ length (get_data heap).1)
get_data_lem_example = get_data_lem heap 9 heap-IsValid (omega arith)
