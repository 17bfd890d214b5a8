-- ===== src/Streams/Tests.antt =====
-- Runs of src/dynamic/SimpleFlashFsDynamicWrapper.cc on a file in memory.
use simpleflashfs.Prelude.{◌≡◌, refl, true, [], ◌∷◌, some, none}
use simpleflashfs.FileBuffer.Ram.{Ram, ram}
use simpleflashfs.Streams.{find_newline, finds, starts_with, no_mode, modes_of, fgets, fgetc}
use simpleflashfs.Streams.Gets.{Gets}

abbrev two_lines : Ram
two_lines = record { bytes = b'a' ∷ b'b' ∷ 10 ∷ b'c' ∷ []; at = 0 }

first_gets : fgets ram 8 two_lines ≡ (record two_lines { at = 3 }, some (b'a' ∷ b'b' ∷ 10 ∷ []))
unfolding fgets find_newline
first_gets = refl

first_byte : fgetc ram two_lines ≡ (record two_lines { at = 1 }, some b'a')
unfolding fgetc
first_byte = refl

read_mode : modes_of (b'r' ∷ b'b' ∷ []) ≡ (record no_mode { input = true }, none)
unfolding modes_of finds starts_with
read_mode = refl

other_spelling : modes_of (b'r' ∷ b'b' ∷ b'+' ∷ []) ≡ (record no_mode { input = true }, none)
unfolding modes_of finds starts_with
other_spelling = refl
