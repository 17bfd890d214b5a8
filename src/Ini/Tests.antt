-- ===== src/Ini/Tests.antt =====
-- Runs of src_2face/SimpleIni.cc.
use mathlib.Core.List.{reverse}
use simpleflashfs.Prelude.{
  ℕ, ◌+◌, ◌≡◌, refl, arith, Bool, false, ◌||◌, Option, none, some, List, [], ◌∷◌, ◌++◌, length,
  replicate, leb, ltb, ◌==◌, if◌then◌else◌, ◌≤◌, leb_of_le,
}
use simpleflashfs.FileBuffer.Types.{FileBuffer}
use simpleflashfs.FileBuffer.{flush}
use simpleflashfs.FileBuffer.Ram.{Ram, ram}
use simpleflashfs.Ini.{Ini, read}
use simpleflashfs.Ini.Write.{write}
use simpleflashfs.Ini.Blob.{text, blob_of, encode}
use simpleflashfs.Ini.Hex.{hex, HasFormats, blob_of-encode}

abbrev is_space : ℕ → Bool
is_space c = c == b' ' || c == 9 || c == 13

abbrev is_bracket : ℕ → Bool
is_bracket c = c == b'[' || c == b']'

abbrev drop_front : (ℕ → Bool) → List ℕ → List ℕ
drop_front p [] = []
drop_front p (c ∷ s) = let rest = drop_front p s in if p c then rest else c ∷ s

abbrev strip : (ℕ → Bool) → List ℕ → List ℕ
strip p s = reverse (drop_front p (reverse (drop_front p s)))

abbrev sixty : Ini Ram
sixty = record {
  io = ram;
  line_string = record {
    capacity = 60;
    push_back = λ s c. if ltb (length s) 60 then some (s ++ c ∷ []) else none;
  };
  line_buffer_size = 60;
  comment_signs = b'"' ∷ b',' ∷ [];
  strip_view = strip is_space;
  strip_brackets = strip is_bracket;
  string_append = λ n s t. if leb (length s + length t) n then some (s ++ t) else none;
  format_decimal = λ i. [];
  format_hex = λ i. [];
  format_byte = hex;
  format_float = λ b. [];
  format_double = λ b. [];
  format_comment = λ a b c. a ++ b ++ c;
}

-- [a] with k = v, a comment, and [b] with k = w.
abbrev sections : List ℕ
sections =
    b'[' ∷ b'a' ∷ b']' ∷ 10 ∷ b'k' ∷ b'=' ∷ b'v' ∷ 10 ∷ b',' ∷ b'=' ∷ 10 ∷ b'[' ∷ b'b' ∷ b']' ∷ 10
    ∷ 9 ∷ b'k' ∷ b' ' ∷ b'=' ∷ b' ' ∷ b'w' ∷ 10 ∷ []

abbrev opened : List ℕ → FileBuffer Ram
opened bytes = record {
  file = record { bytes = bytes; at = 0 };
  buffer = replicate 16 0;
  current = 0;
  current_buffer_start = 0;
  pos = 0;
  current_buffer_modified = false;
}

abbrev value_of : Option (Option (List ℕ) × FileBuffer Ram) → Option (List ℕ)
value_of none = none
value_of (some (value, b)) = value

read_second : value_of (read sixty (b'b' ∷ []) (b'k' ∷ []) (opened sections)) ≡ some (b'w' ∷ [])
unfolding read
read_second = refl

abbrev bytes_of : Option (Bool × FileBuffer Ram) → List ℕ
bytes_of none = []
bytes_of (some (ok, b)) = elim (flush ram b) [ none ↦ [] | some (done, b') ↦ b'.file.bytes ]

abbrev long_value : List ℕ
long_value = replicate 12 b'x'

-- A value that is longer, one that is shorter, and a new section.
longer_value :
    bytes_of (write sixty (b'b' ∷ []) (b'k' ∷ []) long_value [] (opened sections))
    ≡ b'['
      ∷ b'a'
      ∷ b']'
      ∷ 10
      ∷ b'k'
      ∷ b'='
      ∷ b'v'
      ∷ 10
      ∷ b','
      ∷ b'='
      ∷ 10
      ∷ b'['
      ∷ b'b'
      ∷ b']'
      ∷ 10
      ∷ 9
      ∷ b'k'
      ∷ b' '
      ∷ b'='
      ∷ b' '
      ∷ (long_value ++ 10 ∷ [])
unfolding write flush
longer_value = refl

shorter_value :
    bytes_of (write sixty (b'b' ∷ []) (b'k' ∷ []) [] [] (opened sections))
    ≡ b'[' ∷ b'a' ∷ b']' ∷ 10 ∷ b'k' ∷ b'=' ∷ b'v' ∷ 10 ∷ b',' ∷ b'=' ∷ 10 ∷ b'[' ∷ b'b' ∷ b']' ∷ 10
      ∷ 9 ∷ b'k' ∷ b' ' ∷ b'=' ∷ b' ' ∷ 10 ∷ []
unfolding write flush
shorter_value = refl

new_section :
    bytes_of (write sixty (b'c' ∷ []) (b'k' ∷ []) (b'y' ∷ []) [] (opened sections))
    ≡ sections ++ (10 ∷ b'[' ∷ b'c' ∷ b']' ∷ 10 ∷ 9 ∷ b'k' ∷ b' ' ∷ b'=' ∷ b' ' ∷ b'y' ∷ 10 ∷ [])
unfolding write flush
new_section = refl

sixty-string_append :
    (n : ℕ) (s t : List ℕ)
    → length s + length t ≤ n
    → (if leb (length s + length t) n then some (s ++ t) else none) ≡ some (s ++ t)
sixty-string_append n s t h = rw (leb_of_le (length s + length t) n h) refl

sixty-HasFormats : HasFormats sixty
sixty-HasFormats = record { format_byte_lem = λ c h. refl; string_append_lem = sixty-string_append }

abbrev three_bytes : List ℕ
three_bytes = 0 ∷ 171 ∷ 255 ∷ []

blob_of-encode_example :
    (t : List ℕ) × (encode sixty three_bytes ≡ text t) × (blob_of 8 t ≡ some three_bytes)
blob_of-encode_example =
    blob_of-encode sixty sixty-HasFormats three_bytes 8 (omega arith) (omega arith) (omega arith)
