-- ===== src/Prelude/Mask.antt =====
-- `&` with a mask of low bits, and `|` of fields that do not overlap, as arithmetic.
use Prim.Native.Nat.{bit_or-bitwise, bit_or, bit_and}
use Prim.Native.Nat.{ℕ, zero, suc, ◌+◌, ◌*◌, ◌/◌, ◌%◌, ◌^◌, ◌<◌, max}
use mathlib.Core.Path.{◌≡◌, sym}
use native.Mathlib.Nat.{pow-suc, mul_assoc}
use native.Mathlib.Omega.{arith}
use simpleflashfs.Prelude.Xor.{bitwise-suc, bit_and_step, bit_and-zero}

bit_or_step : (x y : ℕ) → bit_or x y ≡ bit_or (x / 2) (y / 2) * 2 + max (x % 2) (y % 2)
bit_or_step (suc x) y =
    let lowest = bitwise-suc (λ rest. rest) max x y in
    let halves = bit_or-bitwise (suc x / 2) (y / 2) in
    omega (lowest, halves, bit_or-bitwise (suc x) y, arith)
bit_or_step zero y =
    let halves = bit_or-bitwise 0 (y / 2) in omega (halves, bit_or-bitwise 0 y, arith)

pub zero-bit_or : (b : ℕ) → bit_or 0 b ≡ b
zero-bit_or b = bit_or-bitwise 0 b

-- `acc | (q << k)` where `acc` has only bits below `k`.
pub bit_or_fields : (k acc q : ℕ) → acc < 2 ^ k → bit_or acc (q * 2 ^ k) ≡ acc + q * 2 ^ k
bit_or_fields zero zero q h = rw (zero-bit_or (q * 1)) (omega arith)
bit_or_fields zero (suc acc) q h = absurd (omega arith)
bit_or_fields (suc k) acc q h =
    let wide : q * 2 ^ suc k ≡ q * 2 ^ k * 2 = rw (pow-suc 2 k) (sym (mul_assoc q (2 ^ k) 2)) in
    let half : q * 2 ^ k * 2 / 2 ≡ q * 2 ^ k = omega arith in
    rw (wide, bit_or_step acc (q * 2 ^ k * 2), half)
      (rw (bit_or_fields k (acc / 2) q (omega (arith, pow-suc 2 k))) (omega arith))

-- The masks of the lowest binary digits, one digit at a time, up to the lowest byte.
bit_and_1 : (a : ℕ) → bit_and a 1 ≡ a % 2
bit_and_1 a = omega (arith, bit_and_step a 1, bit_and-zero (a / 2))

bit_and_3 : (a : ℕ) → bit_and a 3 ≡ a % 4
bit_and_3 a = omega (arith, bit_and_step a 3, bit_and_1 (a / 2))

bit_and_7 : (a : ℕ) → bit_and a 7 ≡ a % 8
bit_and_7 a = omega (arith, bit_and_step a 7, bit_and_3 (a / 2))

bit_and_15 : (a : ℕ) → bit_and a 15 ≡ a % 16
bit_and_15 a = omega (arith, bit_and_step a 15, bit_and_7 (a / 2))

bit_and_31 : (a : ℕ) → bit_and a 31 ≡ a % 32
bit_and_31 a = omega (arith, bit_and_step a 31, bit_and_15 (a / 2))

bit_and_63 : (a : ℕ) → bit_and a 63 ≡ a % 64
bit_and_63 a = omega (arith, bit_and_step a 63, bit_and_31 (a / 2))

bit_and_127 : (a : ℕ) → bit_and a 127 ≡ a % 128
bit_and_127 a = omega (arith, bit_and_step a 127, bit_and_63 (a / 2))

pub bit_and_byte : (a : ℕ) → bit_and a 0xFF ≡ a % 256
bit_and_byte a = omega (arith, bit_and_step a 255, bit_and_127 (a / 2))
