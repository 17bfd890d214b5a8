-- ===== src/PageSet/Order.antt =====
-- The order of the entries of src/base/SimpleFlashFsPageSet.h, before and after `sort`.
use simpleflashfs.Prelude.{
  ℕ, suc, ◌≤◌, ◌<◌, ◌≡◌, ◌≢◌, ◌⊎◌, inl, inr, refl, Bool, false, ◌||◌, List, [], ◌∷◌, ◌==◌, arith,
}
use simpleflashfs.PageSet.{no_data, place, sort_values, strip, keep_unless_last}

-- Whether a value stands in the vector.
abbrev pub contains : List ℕ → ℕ → Bool
contains [] w = false
contains (x ∷ xs) w = (x == w) || contains xs w

abbrev pub AllHoles : List ℕ → Type 0
AllHoles [] = Unit {0}
AllHoles (x ∷ xs) = (x ≡ no_data) × AllHoles xs

-- The valid entries rise strictly from `lo`; holes stand anywhere.
abbrev pub Ordered : ℕ → List ℕ → Type 0
Ordered lo [] = Unit {0}
Ordered lo (x ∷ xs) =
    ((x ≡ no_data) × Ordered lo xs) ⊎ ((lo ≤ x) × (x < no_data) × Ordered (suc x) xs)

-- As `Ordered`, with all holes at the end.
abbrev pub Settled : ℕ → List ℕ → Type 0
Settled lo [] = Unit {0}
Settled lo (x ∷ xs) =
    ((x ≡ no_data) × AllHoles xs) ⊎ ((lo ≤ x) × (x < no_data) × Settled (suc x) xs)

-- Strictly rising, with no hole.
abbrev pub Packed : ℕ → List ℕ → Type 0
Packed lo [] = Unit {0}
Packed lo (x ∷ xs) = (lo ≤ x) × (x < no_data) × Packed (suc x) xs

-- No page stands twice.
abbrev pub Distinct : List ℕ → Type 0
Distinct [] = Unit {0}
Distinct (x ∷ xs) = (x ≤ no_data) × ((x ≡ no_data) ⊎ (contains xs x ≡ false)) × Distinct xs

place-holes : (xs : List ℕ) → AllHoles xs → AllHoles (place no_data xs)
unfolding place
place-holes [] h = (refl, tt)
place-holes (x ∷ xs) h = ground arith

place-hole-Settled : (lo : ℕ) (xs : List ℕ) → Settled lo xs → Settled lo (place no_data xs)
unfolding place
place-hole-Settled lo [] h = inl (refl, tt)
place-hole-Settled lo (x ∷ xs) (inl h) = ground (arith, place-holes xs)
place-hole-Settled lo (x ∷ xs) (inr h) = ground (arith, place-hole-Settled (suc x) xs)

place-Settled :
    (lo v : ℕ) (xs : List ℕ)
    → lo ≤ v
    → v < no_data
    → contains xs v ≡ false
    → Settled lo xs
    → Settled lo (place v xs)
unfolding place
place-Settled lo v [] p q c h = inr (p, q, tt)
place-Settled lo v (x ∷ xs) p q c (inl h) = ground arith
place-Settled lo v (x ∷ xs) p q c (inr h) = ground (arith, place-Settled (suc x) v xs)

pub contains-place : (v w : ℕ) (xs : List ℕ) → contains (place v xs) w ≡ ((v == w) || contains xs w)
unfolding place
contains-place v w [] = refl
contains-place v w (x ∷ xs) = ground (arith, contains-place v w xs)

pub contains-sort_values : (w : ℕ) (xs : List ℕ) → contains (sort_values xs) w ≡ contains xs w
unfolding sort_values
contains-sort_values w [] = refl
contains-sort_values w (x ∷ xs) =
    ground (arith, contains-place x w (sort_values xs), contains-sort_values w xs)

pub sort_values-Settled : (xs : List ℕ) → Distinct xs → Settled 0 (sort_values xs)
unfolding sort_values
sort_values-Settled [] h = tt
sort_values-Settled (x ∷ xs) h = ground (
  arith,
  contains-sort_values x xs,
  place-Settled 0 x (sort_values xs),
  place-hole-Settled 0 (sort_values xs),
  sort_values-Settled xs,
)

strip-holes : (xs : List ℕ) → AllHoles xs → strip xs ≡ []
unfolding strip keep_unless_last
strip-holes [] h = refl
strip-holes (x ∷ xs) h = rw (strip-holes xs h.1) (ground arith)

keep-Packed :
    (lo x : ℕ) (xs : List ℕ)
    → lo ≤ x
    → x < no_data
    → Packed (suc x) xs
    → Packed lo (keep_unless_last x xs)
unfolding keep_unless_last
keep-Packed lo x [] p q h = ground arith
keep-Packed lo x (y ∷ ys) p q h = ground arith

pub strip-Packed : (lo : ℕ) (xs : List ℕ) → Settled lo xs → Packed lo (strip xs)
unfolding strip
strip-Packed lo [] h = tt
strip-Packed lo (x ∷ xs) (inl h) = rw (strip-holes xs h.1) (unfold keep_unless_last in ground arith)
strip-Packed lo (x ∷ xs) (inr h) = keep-Packed lo x (strip xs) h.0 h.1 (strip-Packed (suc x) xs h.2)

contains-keep :
    (x w : ℕ) (xs : List ℕ)
    → w ≢ no_data
    → contains (keep_unless_last x xs) w ≡ ((x == w) || contains xs w)
unfolding keep_unless_last
contains-keep x w [] h = ground arith
contains-keep x w (y ∷ ys) h = refl

pub contains-strip : (w : ℕ) (xs : List ℕ) → w ≢ no_data → contains (strip xs) w ≡ contains xs w
unfolding strip
contains-strip w [] h = refl
contains-strip w (x ∷ xs) h = ground (arith, contains-keep x w (strip xs), contains-strip w xs h)

pub Packed-Ordered : (lo : ℕ) (xs : List ℕ) → Packed lo xs → Ordered lo xs
Packed-Ordered lo [] h = tt
Packed-Ordered lo (x ∷ xs) h = inr (h.0, h.1, Packed-Ordered (suc x) xs h.2)

-- Nothing below the bound stands in an ordered vector.
pub Ordered-below :
    (lo w : ℕ) (xs : List ℕ) → Ordered lo xs → w < lo → w ≢ no_data → contains xs w ≡ false
Ordered-below lo w [] h p q = refl
Ordered-below lo w (x ∷ xs) (inl h) p q = ground (arith, Ordered-below lo w xs)
Ordered-below lo w (x ∷ xs) (inr h) p q = ground (arith, Ordered-below (suc x) w xs)

pub Ordered-mono : (lo hi : ℕ) (xs : List ℕ) → lo ≤ hi → Ordered hi xs → Ordered lo xs
Ordered-mono lo hi [] h o = tt
Ordered-mono lo hi (x ∷ xs) h (inl o) = inl (o.0, Ordered-mono lo hi xs h o.1)
Ordered-mono lo hi (x ∷ xs) h (inr o) = inr (omega arith, o.1, o.2)

pub Ordered-Distinct : (lo : ℕ) (xs : List ℕ) → Ordered lo xs → Distinct xs
Ordered-Distinct lo [] h = tt
Ordered-Distinct lo (x ∷ xs) (inl h) = ground (arith, Ordered-Distinct lo xs)
Ordered-Distinct lo (x ∷ xs) (inr h) =
    ground (arith, Ordered-Distinct (suc x) xs, Ordered-below (suc x) x xs)

-- `sort`, from distinct values: strictly rising, no hole left.
pub sort-Packed : (xs : List ℕ) → Distinct xs → Packed 0 (strip (sort_values xs))
sort-Packed xs h = strip-Packed 0 (sort_values xs) (sort_values-Settled xs h)

-- A packed vector is an ordered one without holes.
pub Packed-full : (lo : ℕ) (xs : List ℕ) → Packed lo xs → contains xs no_data ≡ false
Packed-full lo [] h = refl
Packed-full lo (x ∷ xs) h = ground (arith, Packed-full (suc x) xs)

pub full-Packed :
    (lo : ℕ) (xs : List ℕ) → Ordered lo xs → contains xs no_data ≡ false → Packed lo xs
full-Packed lo [] o h = tt
full-Packed lo (x ∷ xs) (inl o) h = ground arith
full-Packed lo (x ∷ xs) (inr o) h = ground (arith, full-Packed (suc x) xs)
