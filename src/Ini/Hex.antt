-- ===== src/Ini/Hex.antt =====
-- What write_blob of src_2face/SimpleIni.h encodes, read_blob of src_2face/SimpleIni.cc decodes.
use simpleflashfs.Prelude.{
  ℕ, ◌+◌, ◌-◌, ◌*◌, ◌/◌, ◌%◌, ◌^◌, ◌≤◌, ◌<◌, ◌≡◌, refl, ap, ◌∙◌, arith, true, false, some, List, [],
  ◌∷◌, ◌++◌, length, ltb, ◌==◌, if◌then◌else◌, append_assoc, append-nil, length-append, lt→ltb,
  leb_of_lt,
}
use simpleflashfs.Bytes.Image.{AllBytes}
use simpleflashfs.Ini.{Ini}
use simpleflashfs.Ini.Numerals.{digit_value, digits_from, magnitude, from_chars_unsigned}
use simpleflashfs.Ini.Blob.{text, decode, blob_of, encode_from, encode}

-- A digit of "%X".
abbrev pub hex_digit : ℕ → ℕ
hex_digit n = if ltb n 10 then b'0' + n else b'A' + n - 10

abbrev pub hex : ℕ → List ℕ
hex c = hex_digit (c / 16) ∷ hex_digit (c % 16) ∷ []

-- "%02X" gives two digits, and `+=` appends what fits.
pub record HasFormats {S : Type 0} (ini : Ini S) : Type 0 where
  pub format_byte_lem : (c : ℕ) → c < 256 → ini.format_byte c ≡ hex c
  pub string_append_lem :
      (n : ℕ) (s t : List ℕ) → length s + length t ≤ n → ini.string_append n s t ≡ some (s ++ t)

digit_value-hex_digit : (n : ℕ) → n < 16 → digit_value (hex_digit n) ≡ n
unfolding digit_value
digit_value-hex_digit n h = ground arith

two_digits :
    (a b : ℕ)
    → digit_value a < 16
    → digit_value b < 16
    → magnitude 16 (a ∷ b ∷ []) ≡ some (digit_value a * 16 + digit_value b)
unfolding magnitude digits_from
two_digits a b h l =
    let t = lt→ltb (digit_value a) 16 h in
    let t' = lt→ltb (digit_value b) 16 l in rw (magnitude, t, t') (ap some (omega arith))

in_range :
    (s : List ℕ) (n limit : ℕ)
    → magnitude 16 s ≡ some n
    → n < limit
    → from_chars_unsigned 16 limit s ≡ some n
unfolding from_chars_unsigned
in_range s n limit e h = rw (from_chars_unsigned, e, lt→ltb n limit h) refl

from_chars-hex : (c : ℕ) → c < 256 → from_chars_unsigned 16 (2 ^ 32) (hex c) ≡ some c
from_chars-hex c h =
    let high = digit_value-hex_digit (c / 16) (omega arith) in
    let low = digit_value-hex_digit (c % 16) (omega arith) in
    let both =
      two_digits (hex_digit (c / 16)) (hex_digit (c % 16)) (omega (arith, high))
        (omega (arith, low)) in
    in_range (hex c) c (2 ^ 32) (both ∙ ap some (omega (arith, high, low))) (omega arith)

abbrev hexes : List ℕ → List ℕ
hexes [] = []
hexes (c ∷ blob) = hex_digit (c / 16) ∷ hex_digit (c % 16) ∷ hexes blob

length-hexes : (blob : List ℕ) → length (hexes blob) ≡ length blob * 2
length-hexes [] = refl
length-hexes (c ∷ blob) = omega (arith, length-hexes blob)

decode_pair :
    (c d v : ℕ) (rest bytes : List ℕ)
    → from_chars_unsigned 16 (2 ^ 32) (c ∷ d ∷ []) ≡ some v
    → decode rest ≡ some bytes
    → decode (c ∷ d ∷ rest) ≡ some (v % 2 ^ 8 ∷ bytes)
unfolding decode
decode_pair c d v rest bytes p q = rw (decode, p, q) refl

decode-hexes : (blob : List ℕ) → AllBytes blob → decode (hexes blob) ≡ some blob
unfolding decode
decode-hexes [] h = refl
decode-hexes (c ∷ blob) h =
    let byte : c % 256 ≡ c = omega (arith, h.0) in
    decode_pair (hex_digit (c / 16)) (hex_digit (c % 16)) c (hexes blob) blob (from_chars-hex c h.0)
      (decode-hexes blob h.1)
    ∙ ap (λ b. some (b ∷ blob)) byte

even : {n : ℕ} (m : ℕ) → n ≡ m * 2 → (n % 2 == 0) ≡ true
even m e = ground (arith, e)

not_larger :
    (blob : List ℕ) {size : ℕ} → length blob ≤ size → ltb size (length (hexes blob) / 2) ≡ false
not_larger blob h = ground (arith, h, length-hexes blob)

module _ {S : Type 0} (ini : Ini S) (law : HasFormats ini) where
  encode_from-hexes :
      (buffer blob : List ℕ)
      → AllBytes blob
      → length buffer + length blob * 2 ≤ ini.line_string.capacity
      → encode_from ini buffer blob ≡ text (buffer ++ hexes blob)
  unfolding encode_from
  encode_from-hexes buffer [] h k = rw (append-nil buffer) refl
  encode_from-hexes buffer (c ∷ blob) h k =
      let fits : ltb ini.line_string.capacity (length buffer + 2) ≡ false = ground (arith, k) in
      rw
        (
          encode_from,
          fits,
          law.format_byte_lem c h.0,
          law.string_append_lem ini.line_string.capacity buffer (hex c) (omega (arith, k)),
          encode_from-hexes (buffer ++ hex c) blob h.1
              (omega (arith, k, length-append buffer (hex c))),
          append_assoc,
        )
        refl

  -- A blob of bytes that takes less than the line's capacity is encoded, and read_blob decodes the
  -- text to the same bytes, for every size of its blob that is large enough.
  pub blob_of-encode :
      (blob : List ℕ) (size : ℕ)
      → AllBytes blob
      → length blob * 2 < ini.line_string.capacity
      → length blob ≤ size
      → (t : List ℕ) × (encode ini blob ≡ text t) × (blob_of size t ≡ some blob)
  unfolding encode blob_of
  blob_of-encode blob size h k l = (
    hexes blob,
    rw (leb_of_lt ini.line_string.capacity (length blob * 2) k)
        (encode_from-hexes [] blob h (omega (arith, k))),
    rw (even (length blob) (length-hexes blob), not_larger blob l) (decode-hexes blob h),
  )
