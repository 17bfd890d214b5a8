-- ===== src/Crc/Tests.antt =====
-- Runs of src/crc/crc.c, and the theorems about it at concrete messages.
use simpleflashfs.Prelude.{◌≡◌, refl, List, [], ◌∷◌, ℕ}
use simpleflashfs.Crc.{
  crc_slow, crc_fast, crc_init, start, check_value, reflect_remainder, slow_bytes, divide_bits,
  reflect_data,
}
use simpleflashfs.Crc.Equivalence.{crc_fast-eq-crc_slow}

-- "123456789"
abbrev digits_message : List ℕ
digits_message = b'1' ∷ b'2' ∷ b'3' ∷ b'4' ∷ b'5' ∷ b'6' ∷ b'7' ∷ b'8' ∷ b'9' ∷ []

crc_slow_check : crc_slow digits_message ≡ check_value
unfolding crc_slow reflect_remainder slow_bytes divide_bits reflect_data
crc_slow_check = refl

-- The check value of CRC-32, through the table.
crc_fast-eq-crc_slow_example :
    (crc_fast (crc_init start) digits_message ≡ crc_slow digits_message)
    × (crc_fast (crc_init (crc_init start)) digits_message ≡ crc_slow digits_message)
crc_fast-eq-crc_slow_example = crc_fast-eq-crc_slow start digits_message refl refl
