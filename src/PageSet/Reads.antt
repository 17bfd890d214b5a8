-- ===== src/PageSet/Reads.antt =====
-- What src/base/SimpleFlashFsPageSet.h lists, counts and appends.
use simpleflashfs.Prelude.{
  ℕ, ◌<◌, ◌≡◌, ◌≢◌, inl, inr, refl, ◌∙◌, sym, Bool, true, false, ◌&&◌, ◌||◌, List, [], ◌∷◌, ◌++◌,
  ◌==◌, length, arith, Bool-cases,
}
use simpleflashfs.PageSet.{
  PageSet, no_data, sort, place, sort_values, strip, keep_unless_last, get_data, size, count_valid,
  is_empty, is_nil, unordered_insert,
}
use simpleflashfs.PageSet.Order.{contains, Packed, Distinct, full-Packed, Packed-full, sort-Packed}
use simpleflashfs.PageSet.Members.{IsValid, has, sort-IsValid, has-sort}

count_valid-place : (v : ℕ) (xs : List ℕ) → count_valid (place v xs) ≡ count_valid (v ∷ xs)
unfolding place count_valid
count_valid-place v [] = refl
count_valid-place v (x ∷ xs) = ground (arith, count_valid-place v xs)

count_valid-sort_values : (xs : List ℕ) → count_valid (sort_values xs) ≡ count_valid xs
unfolding sort_values count_valid
count_valid-sort_values [] = refl
count_valid-sort_values (x ∷ xs) =
    count_valid-place x (sort_values xs) ∙ ground (arith, count_valid-sort_values xs)

count_valid-keep :
    (x : ℕ) (xs : List ℕ) → count_valid (keep_unless_last x xs) ≡ count_valid (x ∷ xs)
unfolding keep_unless_last count_valid
count_valid-keep x [] = ground arith
count_valid-keep x (y ∷ ys) = refl

count_valid-strip : (xs : List ℕ) → count_valid (strip xs) ≡ count_valid xs
unfolding strip count_valid
count_valid-strip [] = refl
count_valid-strip (x ∷ xs) = count_valid-keep x (strip xs) ∙ ground (arith, count_valid-strip xs)

count_valid-full : (xs : List ℕ) → contains xs no_data ≡ false → count_valid xs ≡ length xs
unfolding count_valid
count_valid-full [] h = refl
count_valid-full (x ∷ xs) h = ground (arith, count_valid-full xs)

size-sort : (s : PageSet) → Distinct s.entries → count_valid s.entries ≡ length (sort s).entries
unfolding sort
size-sort s h =
    sym (count_valid-strip (sort_values s.entries) ∙ count_valid-sort_values s.entries)
    ∙ count_valid-full _ (Packed-full 0 _ (sort-Packed s.entries h))

neither : (a b : Bool) → (a || b) ≡ false → (a ≡ false) × (b ≡ false)
neither false false h = (refl, refl)
neither false true h = cc
neither true b h = cc

-- On a valid set, the vector that `get_data` returns rises strictly and has no hole; the set is valid
-- afterwards and has the same pages, which are the vector's; and the const `size` of the set before
-- is the length of the vector.
pub get_data_lem :
    (s : PageSet) (w : ℕ)
    → IsValid s
    → w ≢ no_data
    → Packed 0 (get_data s).1
      × IsValid (get_data s).0
      × (has (get_data s).0 w ≡ has s w)
      × (contains (get_data s).1 w ≡ has s w)
      × (size s ≡ length (get_data s).1)
unfolding get_data size
get_data_lem s w v h = elim (Bool-cases (s.unsorted || s.unshrinked)) [
  | inl e ↦ simp e (
    unfold sort in sort-Packed s.entries v.distinct,
    sort-IsValid s v.distinct,
    has-sort s w h,
    has-sort s w h,
    size-sort s v.distinct,
  )
  | inr e ↦
      let (flat, tidy) = neither s.unsorted s.unshrinked e in
      let full = v.full flat tidy in
      simp e (full-Packed 0 s.entries (v.ordered flat) full, v, refl, refl, refl)
]

contains-append : (xs : List ℕ) (v w : ℕ) → contains (xs ++ v ∷ []) w ≡ (contains xs w || (v == w))
contains-append [] v w = ground arith
contains-append (x ∷ xs) v w = ground (arith, contains-append xs v w)

Distinct-append :
    (xs : List ℕ) (v : ℕ)
    → v < no_data
    → contains xs v ≡ false
    → Distinct xs
    → Distinct (xs ++ v ∷ [])
Distinct-append [] v h c d = ground arith
Distinct-append (x ∷ xs) v h c d = ground (arith, Distinct-append xs v h, contains-append xs v x)

-- Appending a page number that is not yet in a valid set: the set stays valid and gains that page
-- alone.
pub unordered_insert_lem :
    (s : PageSet) (value w : ℕ)
    → IsValid s
    → value < no_data
    → has s value ≡ false
    → IsValid (unordered_insert value s)
      × (has (unordered_insert value s) w ≡ (has s w || (value == w)))
unfolding unordered_insert
unordered_insert_lem s value w v h new = (
  record {
    distinct = Distinct-append s.entries value h new v.distinct;
    ordered = λ e. cc;
    full = λ e _. cc;
  },
  contains-append s.entries value w,
)

is_nil-length : (xs : List ℕ) → is_nil xs ≡ (length xs == 0)
unfolding is_nil
is_nil-length [] = refl
is_nil-length (x ∷ xs) = ground arith

is_nil-contains : (xs : List ℕ) (w : ℕ) → (is_nil xs && contains xs w) ≡ false
unfolding is_nil
is_nil-contains [] w = refl
is_nil-contains (x ∷ xs) w = refl

-- On a valid set, `empty` tells whether `size` is 0, and a set that it calls empty has no page.
is_empty-size :
    (s : PageSet) (w : ℕ)
    → IsValid s
    → w ≢ no_data
    → ((is_empty s).1 ≡ (size s == 0)) × (((is_empty s).1 && has s w) ≡ false)
unfolding is_empty get_data
is_empty-size s w v h =
    let (_, _, _, same, lengths) = get_data_lem s w v h in
    (rw lengths (is_nil-length (get_data s).1), rw (← same) (is_nil-contains (get_data s).1 w))
