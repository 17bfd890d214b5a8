-- ===== src/FileBuffer/Tests.antt =====
-- Runs of src_2face/SimpleFlashFsFileBuffer.cc.
use simpleflashfs.Prelude.{
  ℕ, ◌≡◌, refl, true, false, Option, none, some, List, [], ◌∷◌, ◌++◌, length, ltb, if◌then◌else◌,
}
use simpleflashfs.FileBuffer.Types.{FileBuffer, return, ◌>>=◌, ◌>>◌, ask}
use simpleflashfs.FileBuffer.{tellg, read_span, seek, write, read, flush}
use simpleflashfs.FileBuffer.Lines.{LineString, get_line}
use simpleflashfs.FileBuffer.Ram.{Ram, ram}

-- A buffer of four bytes.
abbrev opened : List ℕ → FileBuffer Ram
opened bytes = record {
  file = record { bytes = bytes; at = 0 };
  buffer = 0 ∷ 0 ∷ 0 ∷ 0 ∷ [];
  current = 0;
  current_buffer_start = 0;
  pos = 0;
  current_buffer_modified = false;
}

abbrev six_bytes : List ℕ
six_bytes = b'a' ∷ b'b' ∷ 10 ∷ b'c' ∷ b'd' ∷ b'e' ∷ []

abbrev six : FileBuffer Ram
six = opened six_bytes

-- Strings of at most eight characters.
abbrev eight : LineString
eight = record {
  capacity = 8;
  push_back = λ s c. if ltb (length s) 8 then some (s ++ c ∷ []) else none;
}

abbrev result : {A : Type 0} → Option (A × FileBuffer Ram) → Option A
result none = none
result (some (a, b)) = some a

two_lines :
    result (
      (do
        a ← get_line eight ram
        b ← get_line eight ram
        c ← get_line eight ram
        return (a ∷ b ∷ c ∷ []))
        six)
    ≡ some (some (b'a' ∷ b'b' ∷ []) ∷ some (b'c' ∷ b'd' ∷ b'e' ∷ []) ∷ none ∷ [])
unfolding get_line
two_lines = refl

-- A write behind a full buffer goes outside of it.
full_buffer : (write ram (1 ∷ 2 ∷ 3 ∷ 4 ∷ []) >> write ram (5 ∷ [])) (opened []) ≡ none
unfolding write
full_buffer = refl

-- seek to the end of the buffer leaves the position where it was.
seek_behind_buffer : result ((do read_span ram 1; seek ram 4; ask (tellg ram)) six) ≡ some 1
unfolding read_span seek tellg
seek_behind_buffer = refl

-- A read of more than the buffer has does not start at the position.
read_past_buffer : result ((do read_span ram 1; read ram 5) six) ≡ some (b'd' ∷ b'e' ∷ [])
unfolding read_span read
read_past_buffer = refl

abbrev map_bytes : {A : Type 0} → Option (A × FileBuffer Ram) → Option (List ℕ)
map_bytes none = none
map_bytes (some (a, b)) = some b.file.bytes

-- Two bytes that wait.
abbrev half : FileBuffer Ram
half = record {
  file = record { bytes = six_bytes; at = 0 };
  buffer = 1 ∷ 2 ∷ 0 ∷ 0 ∷ [];
  current = 2;
  current_buffer_start = 0;
  pos = 2;
  current_buffer_modified = true;
}

-- A write and a seek back, and a shorter write: the second byte of the first write is lost.
cut_tail :
    map_bytes
      ((write ram (1 ∷ 2 ∷ []) >> seek ram 0 >> write ram (9 ∷ []) >> flush ram) (opened []))
    ≡ some (9 ∷ [])
unfolding write seek flush
cut_tail = refl
