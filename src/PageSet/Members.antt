-- ===== src/PageSet/Members.antt =====
-- The methods of src/base/SimpleFlashFsPageSet.h as operations on a finite set of page numbers.
use simpleflashfs.Prelude.{
  ℕ, suc, ◌≤◌, ◌<◌, ◌≡◌, ◌≢◌, ◌⊎◌, inl, inr, refl, ap, ◌∙◌, Bool, false, ◌||◌, Option, none, some,
  List, [], ◌∷◌, ◌==◌, arith, Bool-cases,
}
use simpleflashfs.PageSet.{
  PageSet, no_data, sort, sort_values, sorted_first, insert_from, insert, put_back,
}
use simpleflashfs.PageSet.Order.{
  contains, Ordered, Distinct, contains-sort_values, contains-strip, Packed-Ordered,
  Ordered-Distinct, sort-Packed, Packed-full,
}

-- The abstract view: which pages are in the set.
abbrev pub has : PageSet → ℕ → Bool
has s = contains s.entries

-- Entries are page numbers, none twice; unless flagged they are in order, and without holes.
pub record IsValid (s : PageSet) : Type 0 where
  pub distinct : Distinct s.entries
  pub ordered : s.unsorted ≡ false → Ordered 0 s.entries
  pub full : s.unsorted ≡ false → s.unshrinked ≡ false → contains s.entries no_data ≡ false

pub sort-IsValid : (s : PageSet) → Distinct s.entries → IsValid (sort s)
unfolding sort
sort-IsValid s h =
    let packed = sort-Packed s.entries h in
    let ordered = Packed-Ordered 0 _ packed in
    record {
      distinct = Ordered-Distinct 0 _ ordered;
      ordered = λ _. ordered;
      full = λ _ _. Packed-full 0 _ packed;
    }

pub has-sort : (s : PageSet) (w : ℕ) → w ≢ no_data → has (sort s) w ≡ has s w
unfolding sort
has-sort s w h = contains-strip w (sort_values s.entries) h ∙ contains-sort_values w s.entries

-- After the lazy sort.
pub sorted_first-IsValid : (s : PageSet) → IsValid s → IsValid (sorted_first s)
unfolding sorted_first
sorted_first-IsValid s v = elim (Bool-cases s.unsorted) [
  | inl e ↦ rw e (sort-IsValid s v.distinct)
  | inr e ↦ simp e v
]

pub sorted_first-Ordered : (s : PageSet) → IsValid s → Ordered 0 (sorted_first s).entries
unfolding sorted_first
sorted_first-Ordered s v = elim (Bool-cases s.unsorted) [
  | inl e ↦ rw e ((sort-IsValid s v.distinct).ordered (unfold sort in refl))
  | inr e ↦ simp e (v.ordered e)
]

pub has-sorted_first : (s : PageSet) (w : ℕ) → w ≢ no_data → has (sorted_first s) w ≡ has s w
unfolding sorted_first
has-sorted_first s w h = elim (Bool-cases s.unsorted) [
  | inl e ↦ rw e (has-sort s w h)
  | inr e ↦ simp e refl
]

contains-put_back :
    (p : Option ℕ) (xs : List ℕ) (w : ℕ)
    → contains (put_back p xs) w ≡ (contains (put_back p []) w || contains xs w)
contains-put_back none xs w = refl
contains-put_back (some p) xs w = ground arith

contains-insert_from :
    (value lo : ℕ) (prev : Option ℕ) (xs : List ℕ) (w : ℕ)
    → value ≢ no_data
    → w ≢ no_data
    → Ordered lo xs
    → contains (insert_from value prev xs) w
      ≡ (contains (put_back prev []) w || ((value == w) || contains xs w))
unfolding insert_from
contains-insert_from value lo none [] w v h o = ground arith
contains-insert_from value lo (some p) [] w v h o = ground arith
contains-insert_from value lo none (x ∷ xs) w v h (inl o) =
    ground (arith, contains-insert_from value lo (some x) xs w v h o.1)
contains-insert_from value lo none (x ∷ xs) w v h (inr o) =
    ground (arith, contains-insert_from value (suc x) (some x) xs w v h o.2)
contains-insert_from value lo (some p) (x ∷ xs) w v h (inl o) =
    ground (arith, contains-insert_from value lo (some x) xs w v h o.1)
contains-insert_from value lo (some p) (x ∷ xs) w v h (inr o) =
    ground (arith, contains-insert_from value (suc x) (some x) xs w v h o.2)

-- `insert` adds its page and no other.
pub has-insert :
    (s : PageSet) (value w : ℕ)
    → IsValid s
    → value ≢ no_data
    → w ≢ no_data
    → has (insert value s) w ≡ ((value == w) || has s w)
unfolding insert
has-insert s value w v p q =
    contains-insert_from value 0 none (sorted_first s).entries w p q (sorted_first-Ordered s v)
    ∙ ap (λ (b : Bool). (value == w) || b) (has-sorted_first s w q)

-- How the element before the iterator bounds what may follow it.
abbrev Before : ℕ → ℕ → Option ℕ → Type 0
Before lo next none = lo ≡ next
Before lo next (some p) =
    ((p ≡ no_data) × (lo ≡ next)) ⊎ ((lo ≤ p) × (p < no_data) × (next ≡ suc p))

put_back-Ordered :
    (lo next : ℕ) (prev : Option ℕ) (xs : List ℕ)
    → Before lo next prev
    → Ordered next xs
    → Ordered lo (put_back prev xs)
put_back-Ordered lo next none xs b o = rw b o
put_back-Ordered lo next (some p) xs (inl b) o = inl (b.0, rw b.1 o)
put_back-Ordered lo next (some p) xs (inr b) o = inr (b.0, b.1, rw (← b.2) o)

insert_from-Ordered :
    (value lo next : ℕ) (prev : Option ℕ) (xs : List ℕ)
    → next ≤ value
    → value < no_data
    → Before lo next prev
    → Ordered next xs
    → Ordered lo (insert_from value prev xs)
unfolding insert_from
insert_from-Ordered value lo next prev [] p q b o =
    put_back-Ordered lo next prev (value ∷ []) b (inr (p, q, tt))
insert_from-Ordered value lo next prev (x ∷ xs) p q b (inl o) = ground (
  arith,
  put_back-Ordered lo next prev (x ∷ xs) b (inl o),
  put_back-Ordered lo next prev (insert_from value (some x) xs) b
      (insert_from-Ordered value next next (some x) xs p q (inl (o.0, refl)) o.1),
)
insert_from-Ordered value lo next none (x ∷ xs) p q b (inr o) = ground (
  arith,
  λ (h : suc x ≤ value).
      insert_from-Ordered value next (suc x) (some x) xs h q (inr (o.0, o.1, refl)) o.2,
)
insert_from-Ordered value lo next (some y) (x ∷ xs) p q b (inr o) = ground (
  arith,
  λ (h : suc x ≤ value).
      insert_from-Ordered value next (suc x) (some x) xs h q (inr (o.0, o.1, refl)) o.2,
)

insert_from-full :
    (value : ℕ) (prev : Option ℕ) (xs : List ℕ)
    → value ≢ no_data
    → contains (put_back prev []) no_data ≡ false
    → contains xs no_data ≡ false
    → contains (insert_from value prev xs) no_data ≡ false
unfolding insert_from
insert_from-full value none [] h p q = ground arith
insert_from-full value (some y) [] h p q = ground arith
insert_from-full value none (x ∷ xs) h p q = ground (arith, insert_from-full value (some x) xs h)
insert_from-full value (some y) (x ∷ xs) h p q =
    ground (arith, insert_from-full value (some x) xs h)

-- `insert` keeps the representation valid.
pub insert-IsValid :
    (s : PageSet) (value : ℕ) → IsValid s → value < no_data → IsValid (insert value s)
unfolding insert
insert-IsValid s value v h =
    let v' = sorted_first-IsValid s v in
    let o = insert_from-Ordered value 0 0 none _ (omega arith) h refl (sorted_first-Ordered s v) in
    record {
      distinct = Ordered-Distinct 0 _ o;
      ordered = λ _. o;
      full = λ p q. insert_from-full value none _ (omega arith) refl (v'.full p q);
    }
