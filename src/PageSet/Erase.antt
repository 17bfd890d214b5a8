-- ===== src/PageSet/Erase.antt =====
-- `erase` and `count` of src/base/SimpleFlashFsPageSet.h on a valid set.
use simpleflashfs.Prelude.{
  ℕ, suc, ◌<◌, ◌≡◌, ◌≢◌, inl, inr, refl, false, not, ◌&&◌, List, [], ◌∷◌, ◌==◌, if◌then◌else◌,
  arith,
}
use simpleflashfs.PageSet.{PageSet, no_data, erase_from, erase, count_from, count}
use simpleflashfs.PageSet.Order.{contains, Ordered, Ordered-mono, Ordered-below, Ordered-Distinct}
use simpleflashfs.PageSet.Members.{
  IsValid, has, sorted_first-IsValid, sorted_first-Ordered, has-sorted_first,
}

contains-erase_from :
    (value lo : ℕ) (xs : List ℕ) (w : ℕ)
    → value ≢ no_data
    → w ≢ no_data
    → Ordered lo xs
    → contains (erase_from value xs).entries w ≡ (not (value == w) && contains xs w)
unfolding erase_from
contains-erase_from value lo [] w p q o = ground arith
contains-erase_from value lo (x ∷ xs) w p q (inl o) =
    ground (arith, contains-erase_from value lo xs w p q o.1)
contains-erase_from value lo (x ∷ xs) w p q (inr o) = ground (
  arith,
  contains-erase_from value (suc x) xs w p q o.2,
  λ (h : w < suc x). Ordered-below (suc x) w xs o.2 h q,
  λ (h : value < suc x). Ordered-below (suc x) value xs o.2 h p,
)

erased-erase_from :
    (value lo : ℕ) (xs : List ℕ)
    → value ≢ no_data
    → Ordered lo xs
    → (erase_from value xs).erased ≡ (if contains xs value then 1 else 0)
unfolding erase_from
erased-erase_from value lo [] p o = refl
erased-erase_from value lo (x ∷ xs) p (inl o) = ground (arith, erased-erase_from value lo xs p o.1)
erased-erase_from value lo (x ∷ xs) p (inr o) = ground (
  arith,
  erased-erase_from value (suc x) xs p o.2,
  λ (h : value < suc x). Ordered-below (suc x) value xs o.2 h p,
)

count_from-Ordered :
    (value lo : ℕ) (xs : List ℕ)
    → value ≢ no_data
    → Ordered lo xs
    → count_from value xs ≡ (if contains xs value then 1 else 0)
unfolding count_from
count_from-Ordered value lo [] p o = refl
count_from-Ordered value lo (x ∷ xs) p (inl o) =
    ground (arith, count_from-Ordered value lo xs p o.1)
count_from-Ordered value lo (x ∷ xs) p (inr o) = ground (
  arith,
  count_from-Ordered value (suc x) xs p o.2,
  λ (h : value < suc x). Ordered-below (suc x) value xs o.2 h p,
)

-- `erase` removes its page and no other, and says whether the page was there.
pub has-erase :
    (s : PageSet) (value w : ℕ)
    → IsValid s
    → value ≢ no_data
    → w ≢ no_data
    → (has (erase value s).0 w ≡ (not (value == w) && has s w))
      × ((erase value s).1 ≡ (if has s value then 1 else 0))
unfolding erase
has-erase s value w v p q =
    let o = sorted_first-Ordered s v in
    (
      rw (contains-erase_from value 0 _ w p q o, has-sorted_first s w q) refl,
      rw (erased-erase_from value 0 _ p o, has-sorted_first s value p) refl,
    )

-- `count` decides membership and changes no membership.
pub count-has :
    (s : PageSet) (member w : ℕ)
    → IsValid s
    → member ≢ no_data
    → w ≢ no_data
    → ((count member s).1 ≡ (if has s member then 1 else 0)) × (has (count member s).0 w ≡ has s w)
unfolding count
count-has s member w v p q = (
  rw (count_from-Ordered member 0 _ p (sorted_first-Ordered s v), has-sorted_first s member p) refl,
  has-sorted_first s w q,
)

erase_from-Ordered :
    (value lo : ℕ) (xs : List ℕ) → Ordered lo xs → Ordered lo (erase_from value xs).entries
unfolding erase_from
erase_from-Ordered value lo [] o = tt
erase_from-Ordered value lo (x ∷ xs) (inl o) = ground (arith, erase_from-Ordered value lo xs o.1)
erase_from-Ordered value lo (x ∷ xs) (inr o) =
    ground
      (arith, erase_from-Ordered value (suc x) xs o.2, Ordered-mono lo (suc x) xs (omega arith))

erase_from-full :
    (value : ℕ) (xs : List ℕ)
    → contains xs no_data ≡ false
    → (erase_from value xs).saw_hole ≡ false
    → contains (erase_from value xs).entries no_data ≡ false
unfolding erase_from
erase_from-full value [] h e = refl
erase_from-full value (x ∷ xs) h e = ground (arith, erase_from-full value xs)

-- `erase` keeps the representation valid.
pub erase-IsValid : (s : PageSet) (value : ℕ) → IsValid s → IsValid (erase value s).0
unfolding erase
erase-IsValid s value v =
    let v' = sorted_first-IsValid s v in
    let o = erase_from-Ordered value 0 _ (sorted_first-Ordered s v) in
    record {
      distinct = Ordered-Distinct 0 _ o;
      ordered = λ _. o;
      full = λ p q. erase_from-full value _ (ground (arith, v'.full)) (ground arith);
    }

-- `count` keeps the representation valid.
pub count-IsValid : (s : PageSet) (member : ℕ) → IsValid s → IsValid (count member s).0
unfolding count
count-IsValid s member v = sorted_first-IsValid s v
