-- ===== src/Ini/Blob.antt =====
-- read_blob of src_2face/SimpleIni.cc and write_blob of src_2face/SimpleIni.h.
use simpleflashfs.Prelude.{
  ℕ, ◌+◌, ◌*◌, ◌/◌, ◌%◌, ◌^◌, Bool, false, not, Option, none, some, List, [], ◌∷◌, length, leb, ltb,
  ◌==◌, if◌then◌else◌,
}
use simpleflashfs.FileBuffer.Types.{Method, return, ◌>>=◌, throw}
use simpleflashfs.Ini
use simpleflashfs.Ini.{Ini}
use simpleflashfs.Ini.Numerals.{from_chars_unsigned}
use simpleflashfs.Ini.Write

-- The loop of `read_blob` over pairs of characters: the bytes, or none where one cannot be read.
unfoldable pub decode : List ℕ → Option (List ℕ)
unfolding from_chars_unsigned
decode [] = some []
decode (c ∷ []) = none
decode (c ∷ d ∷ rest) = elim (from_chars_unsigned 16 (2 ^ 32) (c ∷ d ∷ [])) [
  | none ↦ none
  | some value ↦ elim (decode rest) [ none ↦ none | some bytes ↦ some (value % 2 ^ 8 ∷ bytes) ]
]

-- `read_blob` behind the read, with the size of the blob: its bytes, or none for false.
unfoldable pub blob_of : ℕ → List ℕ → Option (List ℕ)
unfolding decode
blob_of size s_value =
    if not (length s_value % 2 == 0)
    then none
    else (if ltb size (length s_value / 2) then none else decode s_value)

-- What the loop of `write_blob` leaves: the text, a return, or an exception.
pub data Encoded : Type 0 where
  text : List ℕ → Encoded
  full thrown : Encoded

module _ {S : Type 0} (ini : Ini S) where
  unfoldable pub read_blob : ℕ → List ℕ → List ℕ → Method S (Option (List ℕ))
  unfolding Ini.read blob_of
  read_blob size section key = do
    value ← Ini.read ini section key
    return (elim value [ none ↦ none | some s_value ↦ blob_of size s_value ])

  -- The loop of `write_blob`, behind the text so far.
  unfoldable pub encode_from : List ℕ → List ℕ → Encoded
  encode_from buffer [] = text buffer
  encode_from buffer (byte ∷ rest) =
      if ltb ini.line_string.capacity (length buffer + 2)
      then full
      else elim (ini.string_append ini.line_string.capacity buffer (ini.format_byte byte)) [
        | none ↦ thrown
        | some buffer' ↦ encode_from buffer' rest
      ]

  unfoldable pub encode : List ℕ → Encoded
  unfolding encode_from
  encode blob = if leb ini.line_string.capacity (length blob * 2) then full else encode_from [] blob

  unfoldable pub write_blob : List ℕ → List ℕ → List ℕ → List ℕ → Method S Bool
  unfolding encode Write.write
  write_blob section key blob comment = elim (encode blob) [
    | full ↦ return false
    | thrown ↦ throw
    | text buffer ↦
        if leb ini.line_string.capacity (length buffer)
        then return false
        else Write.write ini section key buffer comment
  ]
