-- ===== src/Prelude/Parts.antt =====
-- Parts of parts of a list.
use Prim.Native.Nat.{ℕ, zero, suc, ◌+◌, ◌≤◌}
use mathlib.Core.Path.{◌≡◌, refl, sym, ap, ◌∙◌}
use mathlib.Core.List.{List, [], ◌∷◌}
use native.Mathlib.Omega.{arith}
use simpleflashfs.Prelude.Lists.{length, take, drop}

module _ {ℓ} {A : Type ℓ} where
  pub take-take_le : (n b : ℕ) (c : List A) → n ≤ b → take n (take b c) ≡ take n c
  take-take_le zero b c h = refl
  take-take_le (suc n) zero c h = absurd (omega arith)
  take-take_le (suc n) (suc b) [] h = refl
  take-take_le (suc n) (suc b) (x ∷ c) h = ap (◌∷◌ x) (take-take_le n b c (omega arith))

  drop_nil : (n : ℕ) → drop {A = A} n [] ≡ []
  drop_nil zero = refl
  drop_nil (suc n) = refl

  pub drop-drop : (a b : ℕ) (c : List A) → drop a (drop b c) ≡ drop (b + a) c
  drop-drop a zero c = let e : 0 + a ≡ a = omega arith in rw e refl
  drop-drop a (suc b) [] = drop_nil a ∙ sym (drop_nil (suc b + a))
  drop-drop a (suc b) (x ∷ c) =
      let e : suc b + a ≡ suc (b + a) = omega arith in rw e (drop-drop a b c)

  -- A part of the first c elements is that part of all.
  pub take-drop-take :
      (m p c : ℕ) (xs : List A) → p + m ≤ c → take m (drop p (take c xs)) ≡ take m (drop p xs)
  take-drop-take m zero c xs h = take-take_le m c xs (omega arith)
  take-drop-take zero (suc p) c xs h = refl
  take-drop-take (suc m) (suc p) zero xs h = absurd (omega arith)
  take-drop-take (suc m) (suc p) (suc c) [] h = refl
  take-drop-take (suc m) (suc p) (suc c) (x ∷ xs) h = take-drop-take (suc m) p c xs (omega arith)

  pub drop-length-take : (n : ℕ) (xs : List A) → drop (length (take n xs)) xs ≡ drop n xs
  drop-length-take zero xs = refl
  drop-length-take (suc n) [] = refl
  drop-length-take (suc n) (x ∷ xs) = drop-length-take n xs
