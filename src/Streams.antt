-- ===== src/Streams.antt =====
-- The functions of src/dynamic/SimpleFlashFsDynamicWrapper.cc on an open file, over the file's handle,
-- which is a record of operations. SIMPLE_FLASH_FS_DYNAMIC_EOF is none. A string s is the bytes in
-- front of its terminator.
pub mod Gets
pub mod Tests
use simpleflashfs.Prelude.{
  ℕ, ◌+◌, ◌-◌, ◌*◌, ◌/◌, ◌%◌, ◌^◌, Bool, true, false, ◌||◌, Option, none, some, List, [], ◌∷◌,
  length, take, ltb, leb, ◌==◌, if◌then◌else◌,
}
use simpleflashfs.FileBuffer.Types.{FileInterface}
use simpleflashfs.Fs.Handle.{OpenMode}

-- `smode.find` of a C string.
unfoldable pub starts_with : List ℕ → List ℕ → Bool
starts_with s [] = true
starts_with [] (c ∷ word) = false
starts_with (b ∷ s) (c ∷ word) = if b == c then starts_with s word else false

unfoldable pub finds : List ℕ → List ℕ → Bool
unfolding starts_with
finds [] word = starts_with [] word
finds (b ∷ s) word = starts_with (b ∷ s) word || finds s word

-- std::ios_base::openmode.
pub record Modes : Type 0 where
  pub input : Bool
  pub rest : OpenMode

abbrev pub no_mode : Modes
no_mode = record {
  input = false;
  rest = record { out = false; app = false; trunc = false; ate = false };
}

abbrev pub in_out : Modes
in_out = record no_mode {
  input = true;
  rest = record { out = true; app = false; trunc = false; ate = false };
}

-- `mode` and `mode2` of `fopen`; none is an empty mode2.
unfoldable pub modes_of : List ℕ → Modes × Option Modes
unfolding finds
modes_of smode =
    if finds smode (b'r' ∷ b'+' ∷ [])
    then (record no_mode { input = true }, some in_out)
    else (if finds smode (b'w' ∷ b'+' ∷ [])
        then (record in_out { rest = record in_out.rest { trunc = true } }, none)
        else (if finds smode (b'a' ∷ b'+' ∷ [])
            then (record in_out { rest = record in_out.rest { app = true } }, none)
            else (if finds smode (b'r' ∷ [])
                then (record no_mode { input = true }, none)
                else (if finds smode (b'w' ∷ [])
                    then (record no_mode { rest = record in_out.rest { trunc = true } }, none)
                    else (if finds smode (b'a' ∷ [])
                        then (record no_mode { rest = record in_out.rest { app = true } }, none)
                        else (no_mode, none))))))

-- The first newline of the bytes that were read.
unfoldable pub find_newline : List ℕ → Option ℕ
find_newline [] = none
find_newline (c ∷ s) =
    let rest = find_newline s in
    if c == 10 then some 0 else elim rest [ none ↦ none | some i ↦ some (i + 1) ]

module _ {S : Type 0} (io : FileInterface S) where
  unfoldable pub fflush : S → S × Option ℕ
  fflush stream = let r = io.flush stream in (r.0, if r.1 then some 0 else none)

  -- none is a division by a size of 0.
  unfoldable pub fwrite : List ℕ → ℕ → ℕ → S → Option (S × ℕ)
  fwrite bytes size nmemb stream =
      let r = io.write stream (take (size * nmemb % 2 ^ 64) bytes) in
      if size == 0 then none else some (r.0, r.1 / size)

  unfoldable pub fread : ℕ → ℕ → S → Option (S × List ℕ × ℕ)
  fread size nmemb stream =
      let r = io.read stream (size * nmemb % 2 ^ 64) in
      if size == 0 then none else some (r.0, r.1, length r.1 / size)

  unfoldable pub feof : S → Option ℕ
  feof stream = if io.eof stream then none else some 0

  unfoldable pub fgetc : S → S × Option ℕ
  fgetc stream =
      let r = io.read stream 1 in
      (r.0, elim (r.1) [ [] ↦ none | b ∷ bs ↦ if length (b ∷ bs) == 1 then some b else none ])

  -- `size` is an int; its negative values are as 0.
  unfoldable pub fgets : ℕ → S → S × Option (List ℕ)
  unfolding find_newline
  fgets size stream =
      if leb size 0
      then (stream, none)
      else (if size == 1
          then (stream, some [])
          else (let r = io.read stream (size - 1) in
              if length r.1 == 0 then (r.0, none) else elim (find_newline r.1) [
                | some i ↦ ((io.seek r.0 (io.tellg stream + i + 1)).0, some (take (i + 1) r.1))
                | none ↦ (r.0, some r.1)
              ]))

  -- The bytes of an int; its lowest one is written.
  unfoldable pub fputc : ℕ → S → S × Option ℕ
  fputc c stream =
      let r = io.write stream (c % 256 ∷ []) in (r.0, if r.1 == 1 then some c else none)

  unfoldable pub fputs : List ℕ → S → S × Option ℕ
  fputs s stream =
      if length s == 0
      then (stream, some 0)
      else (let r = io.write stream s in (r.0, if ltb 0 r.1 then some r.1 else none))
