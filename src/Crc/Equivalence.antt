-- ===== src/Crc/Equivalence.antt =====
-- The table-driven `crcFast` of src/crc/crc.c against the bit-by-bit `crcSlow`.
use simpleflashfs.Prelude.{
  ℕ_discrete, ℕ, zero, suc, ◌+◌, ◌*◌, ◌/◌, ◌%◌, ◌^◌, ◌<◌, ◌≤◌, bit_xor, ◌≡◌, refl, sym, ap, ◌∙◌,
  arith, true, false, List, [], ◌∷◌, length, get_or, set, length-set, get_or-set_self,
  get_or-set_ne,
}
use simpleflashfs.Prelude.Xor.{bit_xor_comm, bit_xor_assoc, bit_xor-mul, bit_xor-lt, bit_xor_fields}
use simpleflashfs.Crc.{
  CrcState, crc_init, crc_slow, crc_fast, slow_bytes, fast_bytes, fill_table, divide_bits,
  reflect_data, initial_remainder,
}
use simpleflashfs.Crc.Linear.{divide_bits-lt, divide_bits-xor, divide_bits-shift}

-- What the table holds for a dividend.
abbrev pub entry : ℕ → ℕ
entry dividend = divide_bits 8 (dividend * 2 ^ 24 % 2 ^ 32)

fill_table-below :
    (left d : ℕ) (table : List ℕ) (j : ℕ)
    → j < d
    → get_or (fill_table left d table) j 0 ≡ get_or table j 0
unfolding fill_table
fill_table-below zero d table j h = refl
fill_table-below (suc left) d table j h =
    fill_table-below left (d + 1) (set table d (entry d)) j (omega arith)
    ∙ get_or-set_ne table d j (entry d) 0 (omega arith)

fill_table-at :
    (left d : ℕ) (table : List ℕ) (j : ℕ)
    → d + left ≤ length table
    → d ≤ j
    → j < d + left
    → get_or (fill_table left d table) j 0 ≡ entry j
unfolding fill_table
fill_table-at zero d table j fits lo hi = absurd (omega arith)
fill_table-at (suc left) d table j fits lo hi = elim (ℕ_discrete d j) [
  | yes e ↦ rw (← e) (
      fill_table-below left (d + 1) (set table d (entry d)) d (omega arith)
      ∙ get_or-set_self table d (entry d) 0 (omega arith))
  | no ne ↦
      fill_table-at left (d + 1) (set table d (entry d)) j
        (omega (arith, length-set table d (entry d))) (omega arith) (omega arith)
]

-- The state that `crcInit` leaves behind.
pub record IsReady (s : CrcState) : Type 0 where
  pub done : s.inited ≡ true
  pub entries : (j : ℕ) → j < 256 → get_or s.table j 0 ≡ entry j

pub crc_init-IsReady :
    (s : CrcState) → s.inited ≡ false → length s.table ≡ 256 → IsReady (crc_init s)
unfolding crc_init
crc_init-IsReady s fresh size = rw (fresh) (record {
  done = refl;
  entries = λ j h. fill_table-at 256 0 s.table j (omega arith) (omega arith) (omega arith);
})

pub crc_init-twice : (s : CrcState) → crc_init (crc_init s) ≡ crc_init s
unfolding crc_init
crc_init-twice s = ground arith

slow_round : ℕ → ℕ → ℕ
slow_round r d = divide_bits 8 (bit_xor r (d * 2 ^ 24 % 2 ^ 32))

-- One byte: the top byte of the remainder is divided by the table, the rest is shifted.
round_lem :
    (r d : ℕ)
    → r < 2 ^ 32
    → d < 2 ^ 8
    → divide_bits 8 (bit_xor r (d * 2 ^ 24 % 2 ^ 32))
      ≡ bit_xor (entry (bit_xor d (r / 2 ^ 24) % 2 ^ 8)) (r * 2 ^ 8 % 2 ^ 32)
round_lem r d p q =
    rw
      (top, sums, divide_bits-xor 8 (x * 2 ^ 24) l (omega (arith, x-lt)) (omega arith), small, rest)
      (rw (divide_bits-shift 8 l (omega arith), top') refl)
  where
    h : ℕ
    h = r / 2 ^ 24

    l : ℕ
    l = r % 2 ^ 24

    x : ℕ
    x = bit_xor d h

    x-lt : x < 2 ^ 8
    x-lt = bit_xor-lt 8 d h q (omega arith)

    top : d * 2 ^ 24 % 2 ^ 32 ≡ d * 2 ^ 24
    top = omega arith

    top' : x * 2 ^ 24 % 2 ^ 32 ≡ x * 2 ^ 24
    top' = omega (arith, x-lt)

    small : x % 2 ^ 8 ≡ x
    small = omega (arith, x-lt)

    rest : r * 2 ^ 8 % 2 ^ 32 ≡ l * 2 ^ 8
    rest = omega arith

    parts : r ≡ bit_xor (h * 2 ^ 24) l
    parts = rw (bit_xor_fields 24 h l (omega arith)) (omega arith)

    sums : bit_xor r (d * 2 ^ 24) ≡ bit_xor (x * 2 ^ 24) l
    sums =
        ap (λ (y : ℕ). bit_xor y (d * 2 ^ 24)) parts
        ∙ bit_xor_comm (bit_xor (h * 2 ^ 24) l) (d * 2 ^ 24)
        ∙ sym (bit_xor_assoc (d * 2 ^ 24) (h * 2 ^ 24) l)
        ∙ ap (λ (y : ℕ). bit_xor y l) (sym (bit_xor-mul 24 d h))

reflect_data-lt : (byte : ℕ) → reflect_data byte < 2 ^ 8
unfolding reflect_data
reflect_data-lt byte = omega arith

bytes_lem :
    (s : CrcState)
    → IsReady s
    → (message : List ℕ) (r : ℕ) → r < 2 ^ 32
    → fast_bytes s.table r message ≡ slow_bytes r message
unfolding fast_bytes slow_bytes
bytes_lem s ready [] r h = refl
bytes_lem s ready (byte ∷ message) r h =
    rw (same) (bytes_lem s ready message next (divide_bits-lt 8 _ sums))
  where
    d : ℕ
    d = reflect_data byte

    next : ℕ
    next = divide_bits 8 (bit_xor r (d * 2 ^ 24 % 2 ^ 32))

    sums : bit_xor r (d * 2 ^ 24 % 2 ^ 32) < 2 ^ 32
    sums = bit_xor-lt 32 r (d * 2 ^ 24 % 2 ^ 32) h (omega arith)

    same : bit_xor (get_or s.table (bit_xor d (r / 2 ^ 24) % 2 ^ 8) 0) (r * 2 ^ 8 % 2 ^ 32) ≡ next
    same =
        ap (λ (e : ℕ). bit_xor e (r * 2 ^ 8 % 2 ^ 32))
          (ready.entries (bit_xor d (r / 2 ^ 24) % 2 ^ 8) (omega arith))
        ∙ sym (round_lem r d h (reflect_data-lt byte))

crc_fast-of_ready :
    (s : CrcState) → IsReady s → (message : List ℕ) → crc_fast s message ≡ crc_slow message
unfolding crc_fast crc_slow
crc_fast-of_ready s ready message =
    rw (bytes_lem s ready message initial_remainder (omega arith)) refl

-- Once `crcInit` has run on an uninitialised table of 256 entries, however often it runs again,
-- `crcFast` returns for every message what `crcSlow` returns.
pub crc_fast-eq-crc_slow :
    (s : CrcState) (message : List ℕ)
    → s.inited ≡ false
    → length s.table ≡ 256
    → (crc_fast (crc_init s) message ≡ crc_slow message)
      × (crc_fast (crc_init (crc_init s)) message ≡ crc_slow message)
crc_fast-eq-crc_slow s message fresh size =
    let ready : IsReady (crc_init s) = crc_init-IsReady s fresh size in
    (
      crc_fast-of_ready (crc_init s) ready message,
      rw (crc_init-twice s) (crc_fast-of_ready (crc_init s) ready message),
    )
