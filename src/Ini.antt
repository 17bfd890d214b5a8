-- ===== src/Ini.antt =====
-- SimpleIniBase of src_2face/SimpleIni.h and .cc: ini files, read and written through a FileBuffer.
pub mod Find
pub mod Lookup
pub mod Reading
pub mod Insert
pub mod Write
pub mod Numerals
pub mod Blob
pub mod Hex
pub mod Values
pub mod Tests
use simpleflashfs.Prelude.{
  ℕ, zero, suc, ◌+◌, Bool, true, false, ◌&&◌, ◌||◌, Option, none, some, List, [], ◌∷◌, ◌==◌,
  if◌then◌else◌,
}
use simpleflashfs.Prelude.Int.{ℤ}
use simpleflashfs.Fs.Header.{same_bytes}
use simpleflashfs.FileBuffer.Types.{FileInterface, Method, return, ◌>>=◌, ◌>>◌}
use simpleflashfs.FileBuffer.{seek}
use simpleflashfs.FileBuffer.Lines.{LineString, get_line}

-- The file below, the type of a line, `properties`, and what the code takes from its string library:
-- `strip_view` for white space, `strip_view( line, "[]" )`, `+=` of a string of a given capacity, and
-- the formats: "%d", "0x%X", "%02X", "%f" of the bits of a float and of a double, and "%s%s(%s)". What
-- does not fit throws, which is none.
pub record Ini (S : Type 0) : Type 0 where
  pub io : FileInterface S
  pub line_string : LineString
  pub line_buffer_size : ℕ
  pub comment_signs : List ℕ
  pub strip_view : List ℕ → List ℕ
  pub strip_brackets : List ℕ → List ℕ
  pub string_append : ℕ → List ℕ → List ℕ → Option (List ℕ)
  pub format_decimal : ℤ → List ℕ
  pub format_hex : ℤ → List ℕ
  pub format_byte : ℕ → List ℕ
  pub format_float : ℕ → List ℕ
  pub format_double : ℕ → List ℕ
  pub format_comment : List ℕ → List ℕ → List ℕ → List ℕ

abbrev pub is_among : List ℕ → ℕ → Bool
is_among [] c = false
is_among (d ∷ rest) c = c == d || is_among rest c

-- `line.find( '=' )`: the parts before and behind it.
unfoldable pub split_at : List ℕ → Option (List ℕ × List ℕ)
split_at [] = none
split_at (c ∷ rest) =
    if c == b'='
    then some ([], rest)
    else elim (split_at rest) [ none ↦ none | some (key, value) ↦ some (c ∷ key, value) ]

-- What `read` does with a line: it goes on, in the section or or stops with a value.
pub data Step : Type 0 where
  go_on : Bool → Step
  stop : List ℕ → Step

module _ {S : Type 0} (ini : Ini S) where
  unfoldable pub is_comment : List ℕ → Bool
  is_comment [] = false
  is_comment (c ∷ line) = is_among ini.comment_signs c

  unfoldable pub get_section_name : List ℕ → List ℕ
  get_section_name line = ini.strip_view (ini.strip_brackets line)

  unfoldable pub get_key_value : List ℕ → List ℕ × List ℕ
  unfolding split_at
  get_key_value line = elim (split_at line) [
    | none ↦ ([], [])
    | some (key, value) ↦ (ini.strip_view key, ini.strip_view value)
  ]

  -- The line without white space at its ends, or none for one to ignore.
  unfoldable pub visible : List ℕ → Option (List ℕ)
  unfolding is_comment
  visible [] = none
  visible (c ∷ line) =
      if is_comment (c ∷ line)
      then none
      else elim (ini.strip_view (c ∷ line)) [ [] ↦ none | d ∷ rest ↦ some (d ∷ rest) ]

  unfoldable pub is_section : List ℕ → Bool
  is_section [] = false
  is_section (c ∷ line) = c == b'['

  unfoldable pub has_key : List ℕ → Bool
  unfolding split_at
  has_key line = elim (split_at line) [ none ↦ false | some parts ↦ true ]

  -- A line that is not to be ignored.
  unfoldable pub read_visible : List ℕ → List ℕ → Bool → List ℕ → Step
  unfolding get_section_name get_key_value is_section has_key
  read_visible section key found line =
      if is_section line
      then go_on (same_bytes (get_section_name line) section)
      else (if found && has_key line && same_bytes (get_key_value line).0 key
          then stop (get_key_value line).1
          else go_on found)

  unfoldable pub read_line : List ℕ → List ℕ → Bool → List ℕ → Step
  unfolding visible read_visible
  read_line section key found line = elim (visible line) [
    | none ↦ go_on found
    | some sv_line ↦ read_visible section key found sv_line
  ]

  -- The loop of `read`, on fuel; none is also where the fuel is used up.
  unfoldable pub read_rounds : ℕ → List ℕ → List ℕ → Bool → Method S (Option (List ℕ))
  unfolding get_line read_line
  read_rounds zero section key found b = none
  read_rounds (suc fuel) section key found b = elim (get_line ini.line_string ini.io b) [
    | none ↦ none
    | some (none, b') ↦ some (none, b')
    | some (some line, b') ↦ elim (read_line section key found line) [
      | go_on found' ↦ read_rounds fuel section key found' b'
      | stop value ↦ some (some value, b')
    ]
  ]

  -- As many rounds as the file has bytes, and one more.
  unfoldable pub read : List ℕ → List ℕ → Method S (Option (List ℕ))
  unfolding read_rounds seek
  read section key b =
      (seek ini.io 0 >> read_rounds (ini.io.file_size b.file + 1) section key false) b

  unfoldable pub read_or : List ℕ → List ℕ → List ℕ → Method S (List ℕ)
  unfolding read
  read_or section key default_value = do
    value ← read section key
    return (elim value [ none ↦ default_value | some v ↦ v ])
