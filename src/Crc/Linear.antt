-- ===== src/Crc/Linear.antt =====
-- The division of src/crc/crc.c is linear over `^`.
use mathlib.Core.Logic.{◌⊎◌, inl, inr}
use native.Mathlib.Nat.{pow-succ', mul_assoc, one-le-pow}
use simpleflashfs.Prelude.{
  ℕ, zero, suc, ◌*◌, ◌/◌, ◌%◌, ◌^◌, ◌<◌, ◌≤◌, bit_and, bit_xor, ◌≡◌, refl, arith,
}
use simpleflashfs.Prelude.Xor.{
  bit_xor-zero, bit_xor-div, bit_xor-mul, bit_xor-lt, bit_and-bit, bit_xor-mod, xor_exchange,
}
use simpleflashfs.Crc.{divide_bit, divide_bits, polynomial}

-- The feedback of one round.
feedback : ℕ → ℕ
feedback top = top * polynomial

bit_zero_cases : (n : ℕ) → n < 2 → (n ≡ 0) ⊎ (n ≡ 1)
bit_zero_cases n h = omega arith

divide_bit_lem :
    (r : ℕ) → r < 2 ^ 32 → divide_bit r ≡ bit_xor (r % 2 ^ 31 * 2) (feedback (r / 2 ^ 31))
unfolding divide_bit feedback
divide_bit_lem r h = elim (bit_zero_cases (r / 2 ^ 31) (omega arith)) [
  | inl e ↦
      let off : bit_and r (2 ^ 31) ≡ 0 = rw (bit_and-bit 31 r, e) refl in
      rw (off, e, bit_xor-zero (r % 2 ^ 31 * 2)) (omega arith)
  | inr e ↦
      let on : bit_and r (2 ^ 31) ≡ 2 ^ 31 = rw (bit_and-bit 31 r, e) refl in
      let low : r * 2 % 2 ^ 32 ≡ r % 2 ^ 31 * 2 = omega arith in rw (on, e, low) refl
]

feedback-xor :
    (a b : ℕ) → a < 2 → b < 2 → feedback (bit_xor a b) ≡ bit_xor (feedback a) (feedback b)
unfolding feedback
feedback-xor zero zero p q = refl
feedback-xor zero (suc zero) p q = refl
feedback-xor (suc zero) zero p q = refl
feedback-xor (suc zero) (suc zero) p q = refl
feedback-xor zero (suc (suc b)) p q = absurd (omega arith)
feedback-xor (suc zero) (suc (suc b)) p q = absurd (omega arith)
feedback-xor (suc (suc a)) b p q = absurd (omega arith)

pub divide_bit-xor :
    (a b : ℕ)
    → a < 2 ^ 32
    → b < 2 ^ 32
    → divide_bit (bit_xor a b) ≡ bit_xor (divide_bit a) (divide_bit b)
divide_bit-xor a b p q =
    rw
      (
        divide_bit_lem (bit_xor a b) (bit_xor-lt 32 a b p q),
        divide_bit_lem a p,
        divide_bit_lem b q,
        bit_xor-mod 31 a b,
        bit_xor-div 31 a b,
        feedback-xor (a / 2 ^ 31) (b / 2 ^ 31) (omega arith) (omega arith),
        bit_xor-mul 1 (a % 2 ^ 31) (b % 2 ^ 31),
      )
      (xor_exchange (a % 2 ^ 31 * 2) (b % 2 ^ 31 * 2) _ _)

divide_bit-lt : (r : ℕ) → r < 2 ^ 32 → divide_bit r < 2 ^ 32
divide_bit-lt r h = rw (divide_bit_lem r h) (
    bit_xor-lt 32 (r % 2 ^ 31 * 2) (feedback (r / 2 ^ 31)) (omega arith)
      (unfold feedback in omega arith))

pub divide_bits-lt : (n r : ℕ) → r < 2 ^ 32 → divide_bits n r < 2 ^ 32
unfolding divide_bits
divide_bits-lt zero r h = h
divide_bits-lt (suc n) r h = divide_bits-lt n (divide_bit r) (divide_bit-lt r h)

pub divide_bits-xor :
    (n a b : ℕ)
    → a < 2 ^ 32
    → b < 2 ^ 32
    → divide_bits n (bit_xor a b) ≡ bit_xor (divide_bits n a) (divide_bits n b)
unfolding divide_bits
divide_bits-xor zero a b p q = refl
divide_bits-xor (suc n) a b p q =
    rw (divide_bit-xor a b p q)
      (divide_bits-xor n (divide_bit a) (divide_bit b) (divide_bit-lt a p) (divide_bit-lt b q))

-- While no bit falls out at the top, a round is a shift.
divide_bit-shift : (r : ℕ) → r < 2 ^ 31 → divide_bit r ≡ r * 2
unfolding feedback
divide_bit-shift r h =
    let low : r % 2 ^ 31 ≡ r = omega arith in
    let off : r / 2 ^ 31 ≡ 0 = omega arith in
    rw (divide_bit_lem r (omega arith), low, off) (bit_xor-zero (r * 2))

pub divide_bits-shift : (n r : ℕ) → r * 2 ^ n < 2 ^ 32 → divide_bits n r ≡ r * 2 ^ n
unfolding divide_bits
divide_bits-shift zero r h = omega arith
divide_bits-shift (suc n) r h =
    let wide : r * 2 * 2 ^ n ≡ r * 2 ^ suc n = rw (pow-succ' 2 n) (mul_assoc r 2 (2 ^ n)) in
    let one : r * 2 ≤ r * 2 * 2 ^ n = grind (arith, one-le-pow n 2 (omega arith)) in
    rw (divide_bit-shift r (omega arith), divide_bits-shift n (r * 2) (omega arith)) wide
