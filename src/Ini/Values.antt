-- ===== src/Ini/Values.antt =====
-- read and write of src_2face/SimpleIni.cc for numbers and characters.
use simpleflashfs.Prelude.{
  ℕ, ◌-◌, ◌%◌, ◌^◌, Bool, Option, none, some, List, [], ◌∷◌, ltb, ◌==◌, if◌then◌else◌,
}
use simpleflashfs.Prelude.Int.{ℤ, pos, negsuc}
use simpleflashfs.FileBuffer.Types.{Method, return, ◌>>=◌}
use simpleflashfs.Ini
use simpleflashfs.Ini.{Ini}
use simpleflashfs.Ini.Numerals.{from_chars_unsigned, from_chars_signed, remove_hex_prefix}
use simpleflashfs.Ini.Write

-- The `char` of an `int`, as a byte, and the `int` of a `char`, which is signed.
unfoldable pub char_of_int : ℤ → ℕ
char_of_int (pos n) = n % 2 ^ 8
char_of_int (negsuc n) = 255 - n % 2 ^ 8

unfoldable pub int_of_char : ℕ → ℤ
int_of_char c = if ltb c 128 then pos c else negsuc (255 - c)

-- The text that stands for a character in its comment.
unfoldable pub char_text : ℕ → List ℕ
char_text c =
    if c == 10
    then b'\\' ∷ b'n' ∷ []
    else (if c == 9 then b'\\' ∷ b't' ∷ [] else (if c == 13 then b'\\' ∷ b'r' ∷ [] else c ∷ []))

-- `comment.empty() ? "" : " "`.
unfoldable pub separator : List ℕ → List ℕ
separator [] = []
separator (c ∷ comment) = b' ' ∷ []

module _ {S : Type 0} (ini : Ini S) where
  -- A value that is read by `from_chars`; none is false.
  unfoldable pub iread : {A : Type 0} → (List ℕ → Option A) → List ℕ → List ℕ → Method S (Option A)
  unfolding Ini.read
  iread from_chars section key = do
    value ← Ini.read ini section key
    return (elim value [ none ↦ none | some s_value ↦ from_chars s_value ])

  unfoldable pub read_int32 : List ℕ → List ℕ → Method S (Option ℤ)
  unfolding iread from_chars_signed
  read_int32 = iread (from_chars_signed 10 (2 ^ 31))

  unfoldable pub read_uint32 : List ℕ → List ℕ → Method S (Option ℕ)
  unfolding iread from_chars_unsigned
  read_uint32 = iread (from_chars_unsigned 10 (2 ^ 32))

  unfoldable pub read_int64 : List ℕ → List ℕ → Method S (Option ℤ)
  unfolding iread from_chars_signed
  read_int64 = iread (from_chars_signed 10 (2 ^ 63))

  unfoldable pub read_uint64 : List ℕ → List ℕ → Method S (Option ℕ)
  unfolding iread from_chars_unsigned
  read_uint64 = iread (from_chars_unsigned 10 (2 ^ 64))

  -- The bits of a float, and of a double.
  unfoldable pub read_float : List ℕ → List ℕ → Method S (Option ℕ)
  unfolding iread from_chars_unsigned remove_hex_prefix
  read_float = iread (λ s. from_chars_unsigned 16 (2 ^ 32) (remove_hex_prefix s))

  unfoldable pub read_double : List ℕ → List ℕ → Method S (Option ℕ)
  unfolding iread from_chars_unsigned remove_hex_prefix
  read_double = iread (λ s. from_chars_unsigned 16 (2 ^ 64) (remove_hex_prefix s))

  -- `from_chars` and `static_cast<char>` of `read` for a character.
  unfoldable pub char_from_chars : List ℕ → Option ℕ
  unfolding from_chars_signed remove_hex_prefix char_of_int
  char_from_chars s = elim (from_chars_signed 16 (2 ^ 31) (remove_hex_prefix s)) [
    | none ↦ none
    | some i ↦ some (char_of_int i)
  ]

  unfoldable pub read_char : List ℕ → List ℕ → Method S (Option ℕ)
  unfolding iread char_from_chars
  read_char = iread char_from_chars

  -- The four types of integers.
  unfoldable pub write_integer : List ℕ → List ℕ → ℤ → List ℕ → Method S Bool
  unfolding Write.write
  write_integer section key value comment =
      Write.write ini section key (ini.format_decimal value) comment

  unfoldable pub write_char : List ℕ → List ℕ → ℕ → List ℕ → Method S Bool
  unfolding int_of_char char_text separator Write.write
  write_char section key value comment =
      Write.write ini section key (ini.format_hex (int_of_char value))
        (ini.format_comment comment (separator comment) (char_text value))

  -- The bits of a float, and of a double.
  unfoldable pub write_float : List ℕ → List ℕ → ℕ → List ℕ → Method S Bool
  unfolding separator Write.write
  write_float section key bits comment =
      Write.write ini section key (ini.format_hex (pos bits))
        (ini.format_comment comment (separator comment) (ini.format_float bits))

  unfoldable pub write_double : List ℕ → List ℕ → ℕ → List ℕ → Method S Bool
  unfolding separator Write.write
  write_double section key bits comment =
      Write.write ini section key (ini.format_hex (pos bits))
        (ini.format_comment comment (separator comment) (ini.format_double bits))
