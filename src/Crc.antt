-- ===== src/Crc.antt =====
-- src/crc/crc.c with the CRC-32 settings of src/crc/crc.h. A `crc` is a uint32_t; `unsigned long`
-- has 64 bits, so that `1 << 31`, an int, is sign-extended when it meets one.
pub mod Linear
pub mod Equivalence
pub mod Tests
use simpleflashfs.Prelude.{
  ℕ, zero, suc, ◌+◌, ◌-◌, ◌*◌, ◌/◌, ◌%◌, ◌^◌, bit_and, bit_or, bit_xor, Bool, true, false, List, [],
  ◌∷◌, ◌==◌, if◌then◌else◌, get_or, set, replicate,
}

abbrev pub polynomial : ℕ
polynomial = 0x04C11DB7

abbrev pub initial_remainder : ℕ
initial_remainder = 0xFFFFFFFF

abbrev pub final_xor_value : ℕ
final_xor_value = 0xFFFFFFFF

abbrev pub check_value : ℕ
check_value = 0xCBF43926

-- `1 << k` as an int, converted to unsigned long.
int_bit : ℕ → ℕ
int_bit k = if k == 31 then 2 ^ 64 - 2 ^ 31 else 2 ^ k

-- The loop of `reflect` at `bit`, with `nBits - bit` rounds left.
reflect_bits : ℕ → ℕ → ℕ → ℕ → ℕ → ℕ
unfolding int_bit
reflect_bits zero n_bits bit data_bits reflection = reflection
reflect_bits (suc left) n_bits bit data_bits reflection =
    reflect_bits left n_bits (bit + 1) (data_bits / 2) (
      if bit_and data_bits 0x01 == 0
      then reflection
      else bit_or reflection (int_bit (n_bits - 1 - bit)))

pub reflect : ℕ → ℕ → ℕ
unfolding reflect_bits
reflect data_bits n_bits = reflect_bits n_bits n_bits 0 data_bits 0

-- REFLECT_DATA and REFLECT_REMAINDER, with their casts.
pub reflect_data : ℕ → ℕ
unfolding reflect
reflect_data x = reflect x 8 % 2 ^ 8

pub reflect_remainder : ℕ → ℕ
unfolding reflect
reflect_remainder x = reflect x 32 % 2 ^ 32

-- One round of the modulo-2 division; the test is `remainder & TOPBIT`.
pub divide_bit : ℕ → ℕ
divide_bit remainder =
    if bit_and remainder (2 ^ 31) == 0
    then remainder * 2 % 2 ^ 32
    else bit_xor (remainder * 2 % 2 ^ 32) polynomial

-- The inner loop, with `bit` rounds left.
pub divide_bits : ℕ → ℕ → ℕ
unfolding divide_bit
divide_bits zero remainder = remainder
divide_bits (suc bit) remainder = divide_bits bit (divide_bit remainder)

pub slow_bytes : ℕ → List ℕ → ℕ
slow_bytes remainder [] = remainder
slow_bytes remainder (byte ∷ message) =
    slow_bytes (divide_bits 8 (bit_xor remainder (reflect_data byte * 2 ^ 24 % 2 ^ 32))) message

pub crc_slow : List ℕ → ℕ
crc_slow message =
    bit_xor (reflect_remainder (slow_bytes initial_remainder message)) final_xor_value

-- `crcTable` and the flag that `crcInit` keeps.
pub record CrcState : Type 0 where
  pub inited : Bool
  pub table : List ℕ

-- Static storage starts as zeros.
abbrev pub start : CrcState
start = record { inited = false; table = replicate 256 0 }

-- The loop of `crcInit` at `dividend`, with `256 - dividend` rounds left.
pub fill_table : ℕ → ℕ → List ℕ → List ℕ
fill_table zero dividend table = table
fill_table (suc left) dividend table =
    fill_table left (dividend + 1) (set table dividend (divide_bits 8 (dividend * 2 ^ 24 % 2 ^ 32)))

pub crc_init : CrcState → CrcState
crc_init s = if s.inited then s else record { inited = true; table = fill_table 256 0 s.table }

pub fast_bytes : List ℕ → ℕ → List ℕ → ℕ
fast_bytes table remainder [] = remainder
fast_bytes table remainder (byte ∷ message) =
    let index = bit_xor (reflect_data byte) (remainder / 2 ^ 24) % 2 ^ 8 in
    fast_bytes table (bit_xor (get_or table index 0) (remainder * 2 ^ 8 % 2 ^ 32)) message

unfoldable pub crc_fast : CrcState → List ℕ → ℕ
crc_fast s message =
    bit_xor (reflect_remainder (fast_bytes s.table initial_remainder message)) final_xor_value
