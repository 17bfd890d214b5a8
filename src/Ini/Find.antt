-- ===== src/Ini/Find.antt =====
-- The searches of src_2face/SimpleIni.cc: for a section, for the next section and for the next key.
use simpleflashfs.Prelude.{ℕ, zero, suc, ◌+◌, ◌&&◌, Option, none, some, List, if◌then◌else◌}
use simpleflashfs.Fs.Header.{same_bytes}
use simpleflashfs.FileBuffer.Types.{Method, return, ◌>>=◌, ◌>>◌}
use simpleflashfs.FileBuffer.{tellg, seek}
use simpleflashfs.FileBuffer.Lines.{get_line}
use simpleflashfs.Ini.{Ini, visible, is_section, has_key, get_section_name}

-- What a search does with a line.
pub data Hit : Type 0 where
  miss here give_up : Hit

module _ {S : Type 0} (ini : Ini S) where
  unfoldable pub names_section : List ℕ → List ℕ → Hit
  unfolding visible is_section get_section_name
  names_section section line = elim (visible ini line) [
    | none ↦ miss
    | some sv_line ↦
        if is_section ini sv_line && same_bytes (get_section_name ini sv_line) section
        then here
        else miss
  ]

  unfoldable pub any_section : List ℕ → Hit
  unfolding visible is_section
  any_section line = elim (visible ini line) [
    | none ↦ miss
    | some sv_line ↦ if is_section ini sv_line then here else miss
  ]

  unfoldable pub next_key : List ℕ → Hit
  unfolding visible is_section has_key
  next_key line = elim (visible ini line) [
    | none ↦ miss
    | some sv_line ↦
        if is_section ini sv_line then give_up else (if has_key ini sv_line then here else miss)
  ]

  -- The loop of a search, on fuel; none is also where the fuel is used up. The result has the
  -- positions before and behind the line.
  unfoldable pub search_rounds : (List ℕ → Hit) → ℕ → Method S (Option (ℕ × ℕ))
  unfolding get_line tellg seek
  search_rounds test zero b = none
  search_rounds test (suc fuel) b = elim (get_line ini.line_string ini.io b) [
    | none ↦ none
    | some (none, b') ↦ some (none, b')
    | some (some line, b') ↦ elim (test line) [
      | miss ↦ search_rounds test fuel b'
      | here ↦ some (some (tellg ini.io b, tellg ini.io b'), b')
      | give_up ↦ (seek ini.io (tellg ini.io b) >> return none) b'
    ]
  ]

  unfoldable pub search_file : (List ℕ → Hit) → Method S (Option (ℕ × ℕ))
  unfolding search_rounds
  search_file test b = search_rounds test (ini.io.file_size b.file + 1) b

  -- The position behind the line of the section.
  unfoldable pub find_section : List ℕ → Method S (Option ℕ)
  unfolding search_file names_section seek
  find_section section = do
    seek ini.io 0
    found ← search_file (names_section section)
    return (elim found [ none ↦ none | some (before, behind) ↦ some behind ])

  unfoldable pub find_next_section : Method S (Option ℕ)
  unfolding search_file any_section
  find_next_section = do
    found ← search_file any_section
    return (elim found [ none ↦ none | some (before, behind) ↦ some behind ])

  -- The position of the line with the key.
  unfoldable pub find_next_key : Method S (Option ℕ)
  unfolding search_file next_key
  find_next_key = do
    found ← search_file next_key
    return (elim found [ none ↦ none | some (before, behind) ↦ some before ])
