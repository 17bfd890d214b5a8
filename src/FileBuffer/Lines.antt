-- ===== src/FileBuffer/Lines.antt =====
-- get_line of src_2face/SimpleFlashFsFileBuffer.h, for strings of a fixed capacity.
use simpleflashfs.Prelude.{
  ℕ, zero, suc, ◌+◌, min, true, false, ◌||◌, Option, none, some, List, [], ◌∷◌, length, ◌==◌, ltb,
  if◌then◌else◌,
}
use simpleflashfs.FileBuffer.Types.{FileInterface, Method, return, ◌>>◌}
use simpleflashfs.FileBuffer.{tellg, eof, read_span, seek}

-- `t_std_string`: `push_back` is none where it throws.
pub record LineString : Type 0 where
  pub capacity : ℕ
  pub push_back : List ℕ → ℕ → Option (List ℕ)

-- What the loop over one span leaves: the line and the newline's index, or the line so far.
pub data Scanned : Type 0 where
  newline_at : List ℕ → ℕ → Scanned
  unfinished : List ℕ → Scanned
  overflow : Scanned

-- `return ret` behind the loop.
unfoldable pub what_is_left : List ℕ → Option (List ℕ)
what_is_left [] = none
what_is_left (c ∷ ret) = some (c ∷ ret)

module _ (t : LineString) where
  unfoldable pub scan : List ℕ → List ℕ → ℕ → Scanned
  scan ret [] i = unfinished ret
  scan ret (c ∷ rest) i = elim (c == 10) [
    | true ↦ newline_at ret i
    | false ↦ elim (t.push_back ret c) [ none ↦ overflow | some ret' ↦ scan ret' rest (i + 1) ]
  ]

  unfoldable pub size_to_read : ℕ → ℕ
  size_to_read buffer_size = if ltb 0 t.capacity then min t.capacity buffer_size else buffer_size

module _ {S : Type 0} (t : LineString) (io : FileInterface S) where
  -- The rounds of the loop, on fuel; it throws where the fuel is used up.
  unfoldable pub get_line_rounds : ℕ → List ℕ → Method S (Option (List ℕ))
  unfolding scan what_is_left size_to_read eof tellg read_span seek
  get_line_rounds zero ret b = none
  get_line_rounds (suc fuel) ret b = elim (eof io b || (size_to_read t (length b.buffer) == 0)) [
    | true ↦ some (what_is_left ret, b)
    | false ↦ elim (read_span io (size_to_read t (length b.buffer)) b) [
      | none ↦ none
      | some ([], b') ↦ some (what_is_left ret, b')
      | some (c ∷ bytes, b') ↦ elim (scan t ret (c ∷ bytes) 0) [
        | newline_at line i ↦ (seek io (tellg io b + i + 1) >> return (some line)) b'
        | unfinished ret' ↦ get_line_rounds fuel ret' b'
        | overflow ↦ none
      ]
    ]
  ]

  -- As many rounds as the file has bytes, and two more.
  unfoldable pub get_line : Method S (Option (List ℕ))
  unfolding get_line_rounds
  get_line b = get_line_rounds (io.file_size b.file + 2) [] b
