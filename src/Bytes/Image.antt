-- ===== src/Bytes/Image.antt =====
-- Little-endian digits of an integer and back.
use mathlib.Core.List.{reverse, reverse-cons}
use native.Mathlib.Nat.{pow-suc}
use simpleflashfs.Prelude.{
  ℕ, zero, suc, ◌+◌, ◌*◌, ◌/◌, ◌%◌, ◌^◌, ◌<◌, ◌≡◌, refl, ap, arith, List, [], ◌∷◌, ◌++◌, length,
  length-append,
}
use simpleflashfs.Bytes.{little, from_little}

abbrev pub AllBytes : List ℕ → Type 0
AllBytes [] = Unit {0}
AllBytes (b ∷ bs) = (b < 256) × AllBytes bs

pub length-little : (w v : ℕ) → length (little w v) ≡ w
unfolding little
length-little zero v = refl
length-little (suc w) v = ap suc (length-little w (v / 256))

pub little-AllBytes : (w v : ℕ) → AllBytes (little w v)
unfolding little
little-AllBytes zero v = tt
little-AllBytes (suc w) v = (omega arith, little-AllBytes w (v / 256))

pub from_little-little : (w v : ℕ) → v < 256 ^ w → from_little (little w v) ≡ v
unfolding little from_little
from_little-little zero v h = omega arith
from_little-little (suc w) v h =
    omega (arith, from_little-little w (v / 256) (omega (arith, pow-suc 256 w)))

pub little-from_little : (bs : List ℕ) → AllBytes bs → little (length bs) (from_little bs) ≡ bs
unfolding little from_little
little-from_little [] h = refl
little-from_little (b ∷ bs) h =
    let low : (b + 256 * from_little bs) % 256 ≡ b = omega arith in
    let rest : (b + 256 * from_little bs) / 256 ≡ from_little bs = omega arith in
    rw (low, rest) (ap (◌∷◌ b) (little-from_little bs h.1))

pub from_little-lt : (bs : List ℕ) → AllBytes bs → from_little bs < 256 ^ length bs
unfolding from_little
from_little-lt [] h = omega arith
from_little-lt (b ∷ bs) h = omega (arith, from_little-lt bs h.1, pow-suc 256 (length bs))

pub AllBytes-append : (xs ys : List ℕ) → AllBytes xs → AllBytes ys → AllBytes (xs ++ ys)
AllBytes-append [] ys h k = k
AllBytes-append (x ∷ xs) ys h k = (h.0, AllBytes-append xs ys h.1 k)

pub AllBytes-reverse : (xs : List ℕ) → AllBytes xs → AllBytes (reverse xs)
AllBytes-reverse [] h = tt
AllBytes-reverse (x ∷ xs) h =
    rw (reverse-cons x xs)
      (AllBytes-append (reverse xs) (x ∷ []) (AllBytes-reverse xs h.1) (h.0, tt))

pub length-reverse : (xs : List ℕ) → length (reverse xs) ≡ length xs
length-reverse [] = refl
length-reverse (x ∷ xs) =
    rw (reverse-cons x xs, length-append (reverse xs) (x ∷ [])) (omega (arith, length-reverse xs))

pub from_little-append :
    (xs ys : List ℕ) → from_little (xs ++ ys) ≡ from_little xs + 256 ^ length xs * from_little ys
unfolding from_little
from_little-append [] ys = omega arith
from_little-append (x ∷ xs) ys =
    rw (pow-suc 256 (length xs), from_little-append xs ys) (omega arith)
