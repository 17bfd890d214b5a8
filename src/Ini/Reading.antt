-- ===== src/Ini/Reading.antt =====
-- read of src_2face/SimpleIni.cc finds the setting in the file.
use simpleflashfs.Prelude.{
  ℕ, ◌≤◌, ◌≡◌, Bool, false, Option, some, List, [], ◌∷◌, length, drop, ◌==◌,
}
use simpleflashfs.FileBuffer.Types.{FileBuffer}
use simpleflashfs.FileBuffer.{tellg}
use simpleflashfs.FileBuffer.Files.{IsFile}
use simpleflashfs.FileBuffer.Reading.{IsClean}
use simpleflashfs.FileBuffer.Text.{IsLineString}
use simpleflashfs.Ini.{Ini}

-- All lines fit a string of the capacity.
abbrev pub AllFit : ℕ → List (List ℕ) → Type 0
AllFit capacity [] = Unit {0}
AllFit capacity (l ∷ ls) = (length l ≤ capacity) × AllFit capacity ls

-- From the start of a line, or from inside of one: the last line is one byte, its newline included.
abbrev pub ends_short : Bool → List ℕ → Bool
ends_short start [] = false
ends_short start (c ∷ []) = start
ends_short start (c ∷ d ∷ rest) = ends_short (c == 10) (d ∷ rest)

module _ {S : Type 0} (ini : Ini S) (law : IsFile ini.io) (s : IsLineString ini.line_string) where
  abbrev rest_at : FileBuffer S → List ℕ
  rest_at b = drop (tellg ini.io b) (law.content b.file)

  -- An outcome with the value, behind which nothing is changed.
  pub record Finds (value : Option (List ℕ)) (b : FileBuffer S)
      (o : Option (Option (List ℕ) × FileBuffer S)) : Type 0 where
    pub after : FileBuffer S
    pub result : o ≡ some (value, after)
    pub clean : IsClean ini.io law after
    pub same_content : law.content after.file ≡ law.content b.file
    pub same_size : length after.buffer ≡ length b.buffer
