-- ===== src/Fs/Alloc/DataPages.antt =====
-- What the allocator of data pages of src/base/SimpleFlashFsBase.h promises.
use simpleflashfs.Prelude.{
  ℕ, suc, ◌<◌, ◌≡◌, ◌≢◌, inl, refl, ◌∙◌, sym, arith, Bool, true, false, not, ◌&&◌, Option, none,
  some, List, [], ◌∷◌, ◌==◌, leb,
}
use simpleflashfs.PageSet.{PageSet, no_data, erase_at, is_empty, is_nil, get_data}
use simpleflashfs.PageSet.Order.{
  contains, Packed, Packed-Ordered, Ordered-Distinct, Ordered-mono, Ordered,
}
use simpleflashfs.PageSet.Members.{IsValid, has}
use simpleflashfs.PageSet.Reads.{get_data_lem}
use simpleflashfs.Fs.Types.{Fs}
use simpleflashfs.Fs.Alloc.{first_of, allocate_free_data_page}

-- Whether the page w is free afterwards, and that the page that was taken is the least free one.
abbrev pub Taken : PageSet → PageSet → ℕ → Option ℕ → Type 0
Taken before after w none = (has before w ≡ false) × (has after w ≡ false)
Taken before after w (some p) =
    (has before p ≡ true)
    × (p < no_data)
    × (has after w ≡ (not (p == w) && has before w))
    × ((has before w && not (leb p w)) ≡ false)

Packed-above : (lo w : ℕ) (xs : List ℕ) → Packed lo xs → (contains xs w && not (leb lo w)) ≡ false
Packed-above lo w [] p = refl
Packed-above lo w (x ∷ xs) p = ground (arith, Packed-above (suc x) w xs)

first_of_lem :
    (before : PageSet) (xs : List ℕ) (u n : Bool) (w : ℕ)
    → let s : PageSet = record { entries = xs; unsorted = u; unshrinked = n } in
      ((x : ℕ) → x ≢ no_data → has s x ≡ has before x)
      → w ≢ no_data
      → Packed 0 xs
      → IsValid s
      → IsValid (first_of s (is_nil xs)).1
        × Taken before (first_of s (is_nil xs)).1 w (first_of s (is_nil xs)).0
unfolding is_nil
first_of_lem before [] u n w same h p v = (v, (sym (same w h), refl))
first_of_lem before (x ∷ xs) u n w same h (low, small, p) v =
    let o : Ordered 0 xs = Ordered-mono 0 (suc x) xs (omega arith) (Packed-Ordered (suc x) xs p) in
    let above = Packed-above (suc x) w xs p in
    (
      unfold erase_at in
          record {
            distinct = (omega arith, inl refl, Ordered-Distinct 0 xs o);
            ordered = λ _. inl (refl, o);
            full = λ _ e. cc;
          },
      (
        sym (same x (omega arith)) ∙ ground arith,
        small,
        unfold erase_at in rw (← same w h) (ground (arith, above)),
        rw (← same w h) (ground (arith, above)),
      ),
    )

module _ {S : Type 0} where
  -- On a valid set of free pages, `allocate_free_data_page` returns nothing only when no page is free.
  -- The page that it returns was free and is the least one; no other page is taken, the set stays
  -- valid, and nothing else of the filesystem changes.
  pub allocate_free_data_page_lem :
      (fs : Fs S) (w : ℕ)
      → IsValid fs.free_data_pages
      → w ≢ no_data
      → let (page, fs') = allocate_free_data_page fs in
        IsValid fs'.free_data_pages
        × Taken fs.free_data_pages fs'.free_data_pages w page
        × (fs' ≡ record fs { free_data_pages = fs'.free_data_pages })
  unfolding allocate_free_data_page is_empty get_data
  allocate_free_data_page_lem fs w v h =
      let (packed, v', _, _, _) = get_data_lem fs.free_data_pages w v h in
      let s = (get_data fs.free_data_pages).0 in
      let (valid, taken) =
        first_of_lem fs.free_data_pages s.entries s.unsorted s.unshrinked w
          (λ x hx. (get_data_lem fs.free_data_pages x v hx).2) h packed v' in
      (valid, taken, refl)
