-- ===== src/Streams/Gets.antt =====
-- fgets of src/dynamic/SimpleFlashFsDynamicWrapper.cc on a file that is its bytes and a position.
use simpleflashfs.Prelude.{
  ℕ, ◌+◌, ◌-◌, ◌≤◌, ◌≡◌, Option, none, some, List, length, take, drop, min, ◌==◌, if◌then◌else◌,
}
use simpleflashfs.FileBuffer.Types.{FileInterface}
use simpleflashfs.FileBuffer.Files.{IsFile}
use simpleflashfs.FileBuffer.Text.{used}

-- What the newline of a part of a text says of the first line of the text.
abbrev Found : ℕ → List ℕ → Option ℕ → Type 0
Found n xs none = (length (take n xs) ≡ min (used xs) n) × (take n xs ≡ take (min (used xs) n) xs)
Found n xs (some i) =
    (i + 1 ≡ min (used xs) n)
    × (i + 1 ≤ length (take n xs))
    × (take (i + 1) (take n xs) ≡ take (min (used xs) n) xs)

abbrev later : Option ℕ → Option ℕ
later o = elim o [ none ↦ none | some i ↦ some (i + 1) ]

module _ {S : Type 0} (io : FileInterface S) (law : IsFile io) where
  -- What is behind the position, and how much of it `fgets` takes.
  abbrev pub rest : S → List ℕ
  rest f = drop (io.tellg f) (law.content f)

  abbrev pub end_of : ℕ → S → ℕ
  end_of size f = min (used (rest f)) (size - 1)

  pub record Gets (size : ℕ) (f : S) (o : S × Option (List ℕ)) : Type 0 where
    pub line : o.1 ≡ (if length (rest f) == 0 then none else some (take (end_of size f) (rest f)))
    pub position : io.tellg o.0 ≡ io.tellg f + end_of size f
    pub same : law.content o.0 ≡ law.content f

  module _ (size : ℕ) (f : S) (h : 2 ≤ size) (inside : io.tellg f ≤ length (law.content f)) where
    abbrev after : S
    after = (io.read f (size - 1)).0
