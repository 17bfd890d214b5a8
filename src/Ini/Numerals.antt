-- ===== src/Ini/Numerals.antt =====
-- std::from_chars, as src_2face/SimpleIni.cc uses it, and remove_hex_prefix.
use simpleflashfs.Prelude.{
  ℕ, zero, suc, ◌+◌, ◌-◌, ◌*◌, ◌&&◌, Option, none, some, List, [], ◌∷◌, drop, take, leb, ltb, ◌==◌,
  if◌then◌else◌,
}
use simpleflashfs.Prelude.Int.{ℤ, pos, negsuc}
use simpleflashfs.Fs.Header.{same_bytes}

-- What a character is worth as a digit; 36 for one that is no digit.
unfoldable pub digit_value : ℕ → ℕ
digit_value c =
    if leb b'0' c && leb c b'9'
    then c - b'0'
    else (if leb b'a' c && leb c b'z'
        then c - b'a' + 10
        else (if leb b'A' c && leb c b'Z' then c - b'A' + 10 else 36))

-- The number of the digits in front, behind those that are read.
unfoldable pub digits_from : ℕ → ℕ → List ℕ → ℕ
unfolding digit_value
digits_from base n [] = n
digits_from base n (c ∷ rest) =
    if ltb (digit_value c) base then digits_from base (n * base + digit_value c) rest else n

unfoldable pub magnitude : ℕ → List ℕ → Option ℕ
unfolding digit_value digits_from
magnitude base [] = none
magnitude base (c ∷ rest) =
    if ltb (digit_value c) base then some (digits_from base 0 (c ∷ rest)) else none

-- For an unsigned type with values below `limit`.
unfoldable pub from_chars_unsigned : ℕ → ℕ → List ℕ → Option ℕ
unfolding magnitude
from_chars_unsigned base limit s = elim (magnitude base s) [
  | none ↦ none
  | some n ↦ if ltb n limit then some n else none
]

abbrev pub negated : ℕ → ℤ
negated zero = pos 0
negated (suc n) = negsuc n

-- For a signed type with values from -limit to limit - 1.
unfoldable pub from_chars_signed : ℕ → ℕ → List ℕ → Option ℤ
unfolding magnitude
from_chars_signed base limit [] = none
from_chars_signed base limit (c ∷ rest) =
    if c == b'-'
    then elim (magnitude base rest) [
      | none ↦ none
      | some n ↦ if leb n limit then some (negated n) else none
    ]
    else elim (magnitude base (c ∷ rest)) [
      | none ↦ none
      | some n ↦ if ltb n limit then some (pos n) else none
    ]

unfoldable pub remove_hex_prefix : List ℕ → List ℕ
remove_hex_prefix s =
    if same_bytes (take 2 s) (b'0' ∷ b'x' ∷ [])
    then drop 2 s
    else (if same_bytes (take 2 s) (b'0' ∷ b'X' ∷ []) then drop 2 s else s)
