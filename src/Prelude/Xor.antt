-- ===== src/Prelude/Xor.antt =====
-- `^` and `&` on words: their laws at every width, from the recursion on binary digits.
use Prim.Native.Nat.{digits, bitwise, bit_xor-bitwise, bit_and-bitwise, differ}
use Prim.Native.Nat.{ℕ, zero, suc, ◌+◌, ◌*◌, ◌/◌, ◌%◌, ◌^◌, ◌≤◌, ◌<◌, min, bit_xor, bit_and}
use mathlib.Core.Path.{◌≡◌, refl, sym, ap, ap₂, ◌∙◌}
use native.Mathlib.Nat.{
  le_refl, pow-suc, one-le-pow, mod-lt, div-add-mod', pow-succ', mul-one, mul_assoc, div-one,
  div-div-eq-div-mul,
}
use native.Mathlib.Omega.{arith}

module _ (rest : ℕ → ℕ) (digit : ℕ → ℕ → ℕ) where
  -- The number of rounds does not matter, once there are as many as the word.
  rounds-eq : (r s x y : ℕ) → x ≤ s → x ≤ r → digits rest digit r x y ≡ digits rest digit s x y
  rounds-eq (suc r) (suc s) (suc x) y below_s below_r =
      let half = rounds-eq r s (suc x / 2) (y / 2) (omega arith) (omega arith) in
      omega (half, arith)
  rounds-eq (suc r) (suc s) zero y below_s below_r = refl
  rounds-eq (suc r) zero zero y below_s below_r = refl
  rounds-eq (suc r) zero (suc x) y below_s below_r = absurd (omega arith)
  rounds-eq zero s (suc x) y below_s below_r = absurd (omega arith)
  rounds-eq zero zero zero y below_s below_r = refl
  rounds-eq zero (suc s) zero y below_s below_r = refl

  pub bitwise-suc :
      (x y : ℕ)
      → let lowest = digit (suc x % 2) (y % 2) in
        bitwise rest digit (suc x) y ≡ bitwise rest digit (suc x / 2) (y / 2) * 2 + lowest
  bitwise-suc x y =
      let same = rounds-eq x (suc x / 2) (suc x / 2) (y / 2) (le_refl _) (omega arith) in
      omega (same, arith)

differ-parity : (a b : ℕ) → a < 2 → b < 2 → differ a b ≡ (a + b) % 2
differ-parity zero zero p q = refl
differ-parity zero (suc zero) p q = refl
differ-parity (suc zero) zero p q = refl
differ-parity (suc zero) (suc zero) p q = refl
differ-parity zero (suc (suc b)) p q = absurd (omega arith)
differ-parity (suc zero) (suc (suc b)) p q = absurd (omega arith)
differ-parity (suc (suc a)) b p q = absurd (omega arith)

-- The lowest digit, and the others.
pub bit_xor_step : (x y : ℕ) → bit_xor x y ≡ bit_xor (x / 2) (y / 2) * 2 + (x % 2 + y % 2) % 2
bit_xor_step (suc x) y =
    let lowest = bitwise-suc (λ rest. rest) differ x y in
    let halves = bit_xor-bitwise (suc x / 2) (y / 2) in
    let parity = differ-parity (suc x % 2) (y % 2) (omega arith) (omega arith) in
    omega (lowest, halves, parity, bit_xor-bitwise (suc x) y, arith)
bit_xor_step zero y =
    let halves = bit_xor-bitwise 0 (y / 2) in omega (halves, bit_xor-bitwise 0 y, arith)

pub bit_and_step : (x y : ℕ) → bit_and x y ≡ bit_and (x / 2) (y / 2) * 2 + min (x % 2) (y % 2)
bit_and_step (suc x) y =
    let lowest = bitwise-suc (λ rest. 0) min x y in
    let halves = bit_and-bitwise (suc x / 2) (y / 2) in
    omega (lowest, halves, bit_and-bitwise (suc x) y, arith)
bit_and_step zero y =
    let halves = bit_and-bitwise 0 (y / 2) in omega (halves, bit_and-bitwise 0 y, arith)

-- Induction on digits: fuel above both words.
xor_comm_fuel : (n a b : ℕ) → a ≤ n → b ≤ n → bit_xor a b ≡ bit_xor b a
xor_comm_fuel zero zero zero p q = refl
xor_comm_fuel zero (suc a) b p q = absurd (omega arith)
xor_comm_fuel zero zero (suc b) p q = absurd (omega arith)
xor_comm_fuel (suc n) a b p q = omega (
  arith,
  bit_xor_step a b,
  bit_xor_step b a,
  xor_comm_fuel n (a / 2) (b / 2) (omega arith) (omega arith),
)

pub bit_xor_comm : (a b : ℕ) → bit_xor a b ≡ bit_xor b a
bit_xor_comm a b = xor_comm_fuel (a + b) a b (omega arith) (omega arith)

pub bit_xor-zero : (a : ℕ) → bit_xor a 0 ≡ a
bit_xor-zero a = omega (arith, bit_xor_comm a 0, bit_xor-bitwise 0 a)

pub zero-bit_xor : (a : ℕ) → bit_xor 0 a ≡ a
zero-bit_xor a = bit_xor-bitwise 0 a

bit_xor-half : (a b : ℕ) → bit_xor a b / 2 ≡ bit_xor (a / 2) (b / 2)
bit_xor-half a b = omega (arith, bit_xor_step a b)

bit_xor-parity : (a b : ℕ) → bit_xor a b % 2 ≡ (a % 2 + b % 2) % 2
bit_xor-parity a b = omega (arith, bit_xor_step a b)

xor_assoc_fuel :
    (n a b c : ℕ) → a ≤ n → b ≤ n → c ≤ n → bit_xor (bit_xor a b) c ≡ bit_xor a (bit_xor b c)
xor_assoc_fuel zero zero zero zero p q r = refl
xor_assoc_fuel zero (suc a) b c p q r = absurd (omega arith)
xor_assoc_fuel zero zero (suc b) c p q r = absurd (omega arith)
xor_assoc_fuel zero zero zero (suc c) p q r = absurd (omega arith)
xor_assoc_fuel (suc n) a b c p q r =
    rw (bit_xor_step (bit_xor a b) c, bit_xor_step a (bit_xor b c))
      (rw (bit_xor-half a b, bit_xor-half b c, bit_xor-parity a b, bit_xor-parity b c)
        (omega (
          arith,
          xor_assoc_fuel n (a / 2) (b / 2) (c / 2) (omega arith) (omega arith) (omega arith),
        )))

pub bit_xor_assoc : (a b c : ℕ) → bit_xor (bit_xor a b) c ≡ bit_xor a (bit_xor b c)
bit_xor_assoc a b c = xor_assoc_fuel (a + b + c) a b c (omega arith) (omega arith) (omega arith)

xor_self_fuel : (n a : ℕ) → a ≤ n → bit_xor a a ≡ 0
xor_self_fuel zero zero h = refl
xor_self_fuel zero (suc a) h = absurd (omega arith)
xor_self_fuel (suc n) a h = omega (arith, bit_xor_step a a, xor_self_fuel n (a / 2) (omega arith))

pub bit_xor_self : (a : ℕ) → bit_xor a a ≡ 0
bit_xor_self a = xor_self_fuel a a (omega arith)

-- Shifts and truncation go through `^`.
pub bit_xor-div : (k a b : ℕ) → bit_xor a b / 2 ^ k ≡ bit_xor (a / 2 ^ k) (b / 2 ^ k)
bit_xor-div zero a b = rw (div-one, div-one, div-one)
bit_xor-div (suc k) a b =
    rw
      (
        pow-suc 2 k,
        ← div-div-eq-div-mul (bit_xor a b) (2 ^ k) 2,
        ← div-div-eq-div-mul a (2 ^ k) 2,
        ← div-div-eq-div-mul b (2 ^ k) 2,
        bit_xor-div k a b,
      )
      (bit_xor-half (a / 2 ^ k) (b / 2 ^ k))

bit_xor-double : (a b : ℕ) → bit_xor (a * 2) (b * 2) ≡ bit_xor a b * 2
bit_xor-double a b =
    let ea : a * 2 / 2 ≡ a = omega arith in
    let eb : b * 2 / 2 ≡ b = omega arith in rw (bit_xor_step (a * 2) (b * 2), ea, eb) (omega arith)

pub bit_xor-mul : (k a b : ℕ) → bit_xor a b * 2 ^ k ≡ bit_xor (a * 2 ^ k) (b * 2 ^ k)
bit_xor-mul zero a b = rw (mul-one, mul-one, mul-one)
bit_xor-mul (suc k) a b =
    rw
      (
        pow-suc 2 k,
        ← mul_assoc (bit_xor a b) (2 ^ k) 2,
        ← mul_assoc a (2 ^ k) 2,
        ← mul_assoc b (2 ^ k) 2,
        bit_xor-mul k a b,
      )
      (sym (bit_xor-double (a * 2 ^ k) (b * 2 ^ k)))

pub bit_xor-lt : (k a b : ℕ) → a < 2 ^ k → b < 2 ^ k → bit_xor a b < 2 ^ k
bit_xor-lt zero zero zero p q = p
bit_xor-lt zero (suc a) b p q = absurd (omega arith)
bit_xor-lt zero zero (suc b) p q = absurd (omega arith)
bit_xor-lt (suc k) a b p q = omega (
  arith,
  pow-suc 2 k,
  bit_xor_step a b,
  bit_xor-lt k (a / 2) (b / 2) (omega (arith, pow-suc 2 k)) (omega (arith, pow-suc 2 k)),
)

-- `x & (1 << k)`.
and_zero_below : (bound x : ℕ) → x ≤ bound → bit_and x 0 ≡ 0
and_zero_below (suc bound) (suc x) below =
    let half = and_zero_below bound (suc x / 2) (omega arith) in
    omega (half, bit_and_step (suc x) 0, arith)
and_zero_below zero (suc x) below = absurd (omega arith)
and_zero_below bound zero below = refl

pub bit_and-zero : (x : ℕ) → bit_and x 0 ≡ 0
bit_and-zero x = and_zero_below x x (le_refl x)

pub bit_and-bit : (k a : ℕ) → bit_and a (2 ^ k) ≡ a / 2 ^ k % 2 * 2 ^ k
bit_and-bit zero a = omega (arith, bit_and_step a 1, and_zero_below (a / 2) (a / 2) (omega arith))
bit_and-bit (suc k) a =
    let half : 2 ^ suc k / 2 ≡ 2 ^ k = omega (arith, pow-suc 2 k) in
    rw (bit_and_step a (2 ^ suc k), half, bit_and-bit k (a / 2))
      (rw (pow-succ' 2 k, ← div-div-eq-div-mul a 2 (2 ^ k))
        (omega (arith, mul_assoc (a / 2 / 2 ^ k % 2) 2 (2 ^ k))))

-- Words whose digits do not overlap: `^` is a sum.
pub bit_xor_fields : (k q r : ℕ) → r < 2 ^ k → bit_xor (q * 2 ^ k) r ≡ q * 2 ^ k + r
bit_xor_fields zero q zero h = rw (bit_xor-zero (q * 1)) (omega arith)
bit_xor_fields zero q (suc r) h = absurd (omega arith)
bit_xor_fields (suc k) q r h =
    let wide : q * 2 ^ suc k ≡ q * 2 ^ k * 2 = rw (pow-suc 2 k) (sym (mul_assoc q (2 ^ k) 2)) in
    let half : q * 2 ^ k * 2 / 2 ≡ q * 2 ^ k = omega arith in
    rw (wide, bit_xor_step (q * 2 ^ k * 2) r, half)
      (rw (bit_xor_fields k q (r / 2) (omega (arith, pow-suc 2 k))) (omega arith))

pub xor_exchange :
    (a b c d : ℕ) → bit_xor (bit_xor a b) (bit_xor c d) ≡ bit_xor (bit_xor a c) (bit_xor b d)
xor_exchange a b c d =
    rw (bit_xor_assoc a b (bit_xor c d), bit_xor_assoc a c (bit_xor b d))
      (ap (bit_xor a) (rw (← bit_xor_assoc b c d, bit_xor_comm b c) (bit_xor_assoc c b d)))

bit_xor_split :
    (k a b : ℕ)
    → bit_xor a b ≡ bit_xor (a / 2 ^ k) (b / 2 ^ k) * 2 ^ k + bit_xor (a % 2 ^ k) (b % 2 ^ k)
bit_xor_split k a b =
    ap₂ bit_xor (parts a) (parts b)
    ∙ xor_exchange (a / 2 ^ k * 2 ^ k) (a % 2 ^ k) (b / 2 ^ k * 2 ^ k) (b % 2 ^ k)
    ∙ rw (← bit_xor-mul k (a / 2 ^ k) (b / 2 ^ k)) (
        bit_xor_fields k (bit_xor (a / 2 ^ k) (b / 2 ^ k)) (bit_xor (a % 2 ^ k) (b % 2 ^ k))
          (bit_xor-lt k (a % 2 ^ k) (b % 2 ^ k) (low a) (low b)))
  where
    low : (x : ℕ) → x % 2 ^ k < 2 ^ k
    low x = mod-lt x (one-le-pow k 2 (omega arith))

    parts : (x : ℕ) → x ≡ bit_xor (x / 2 ^ k * 2 ^ k) (x % 2 ^ k)
    parts x = rw (bit_xor_fields k (x / 2 ^ k) (x % 2 ^ k) (low x)) (sym (div-add-mod' x (2 ^ k)))

pub bit_xor-mod : (k a b : ℕ) → bit_xor a b % 2 ^ k ≡ bit_xor (a % 2 ^ k) (b % 2 ^ k)
bit_xor-mod k a b = omega (
  arith,
  bit_xor_split k a b,
  bit_xor-div k a b,
  div-add-mod' (bit_xor a b) (2 ^ k),
  ap (λ (q : ℕ). q * 2 ^ k) (bit_xor-div k a b),
)
