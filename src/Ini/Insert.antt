-- ===== src/Ini/Insert.antt =====
-- What src_2face/SimpleIni.cc writes: strings, a section or a key at the end, and `insert`.
use simpleflashfs.Prelude.{
  ℕ, zero, suc, ◌+◌, ◌-◌, Bool, true, false, not, ◌&&◌, Option, none, some, List, [], ◌∷◌, length,
  ltb, ◌==◌, if◌then◌else◌,
}
use simpleflashfs.FileBuffer.Types.{Method, return, ◌>>=◌, ◌>>◌, throw, unless_failed, ask}
use simpleflashfs.FileBuffer
use simpleflashfs.FileBuffer.{tellg, file_size, seek, get_char}
use simpleflashfs.Ini.{Ini}

abbrev pub total_size : List (List ℕ) → ℕ
total_size [] = 0
total_size (s ∷ rest) = length s + total_size rest

module _ {S : Type 0} (ini : Ini S) where
  unfoldable pub write_string : List ℕ → Method S Bool
  unfolding FileBuffer.write
  write_string s = do len_written ← FileBuffer.write ini.io s; return (len_written == length s)

  unfoldable pub write_strings : List (List ℕ) → Method S Bool
  unfolding write_string
  write_strings [] = return true
  write_strings (s ∷ rest) = unless_failed (write_string s) false (write_strings rest)

  -- `append_section`: the newline at the end of the last line.
  unfoldable pub end_line : Method S Bool
  unfolding file_size seek get_char write_string
  end_line = do
    size ← ask (file_size ini.io)
    if ltb 0 size
        then (do
          seek ini.io (size - 1)
          c ← get_char ini.io
          elim c [
            | none ↦ return true
            | some c' ↦ if c' == 10 then return true else write_string (10 ∷ [])
          ])
        else return true

  unfoldable pub empty_line : Method S Bool
  unfolding tellg write_string
  empty_line = do at ← ask (tellg ini.io); if ltb 0 at then write_string (10 ∷ []) else return true

  unfoldable pub append_section : List ℕ → Method S Bool
  unfolding end_line empty_line write_strings
  append_section section = unless_failed end_line false (
      unless_failed empty_line false
        (write_strings ((b'[' ∷ []) ∷ section ∷ (b']' ∷ 10 ∷ []) ∷ [])))

  abbrev pub get_comment_sign : List ℕ
  get_comment_sign = elim ini.comment_signs [ [] ↦ [] | c ∷ rest ↦ c ∷ [] ]

  -- The strings of a comment, if there is one, and of a key's line.
  unfoldable pub comment_strings : List ℕ → List (List ℕ)
  comment_strings [] = []
  comment_strings (c ∷ comment) = get_comment_sign ∷ (9 ∷ []) ∷ (c ∷ comment) ∷ (10 ∷ []) ∷ []

  unfoldable pub key_strings : List ℕ → List ℕ → List (List ℕ)
  key_strings key value = (9 ∷ []) ∷ key ∷ (b' ' ∷ b'=' ∷ b' ' ∷ []) ∷ value ∷ (10 ∷ []) ∷ []

  unfoldable pub append_key : List ℕ → List ℕ → List ℕ → Method S Bool
  unfolding write_strings comment_strings key_strings
  append_key key value comment =
      unless_failed (write_strings (comment_strings comment)) false
        (write_strings (key_strings key value))

  -- The values in one buffer of `line_buffer_size` bytes.
  unfoldable pub joined_values : List ℕ → List (List ℕ) → Option (List ℕ)
  joined_values buffer [] = some buffer
  joined_values buffer (s ∷ rest) = elim (ini.string_append ini.line_buffer_size buffer s) [
    | none ↦ none
    | some buffer' ↦ joined_values buffer' rest
  ]

  -- The loop of `insert`, on fuel: the bytes to write next are read before they are overwritten. It
  -- throws where the fuel is used up.
  unfoldable pub insert_rounds : ℕ → ℕ → ℕ → List ℕ → Method S Bool
  unfolding tellg seek FileBuffer.read FileBuffer.write
  insert_rounds zero p new_file_size waiting b = none
  insert_rounds (suc fuel) p new_file_size waiting b =
      elim (ltb p new_file_size && not (length waiting == 0)) [
        | false ↦ some (true, b)
        | true ↦ elim (FileBuffer.read ini.io ini.line_buffer_size b) [
          | none ↦ none
          | some (next, b') ↦
              elim ((seek ini.io (tellg ini.io b) >> FileBuffer.write ini.io waiting) b') [
                | none ↦ none
                | some (written, b'') ↦ elim (written == length waiting) [
                  | true ↦ insert_rounds fuel (p + length waiting) new_file_size next b''
                  | false ↦ some (false, b'')
                ]
              ]
        ]
      ]

  -- As many rounds as the new file has bytes, and two more.
  unfoldable pub insert_at : ℕ → List (List ℕ) → Method S Bool
  unfolding seek joined_values file_size insert_rounds
  insert_at pos_in_file values = do
    seek ini.io pos_in_file
    elim (joined_values [] values) [
      | none ↦ throw
      | some waiting ↦ do
        size ← ask (file_size ini.io)
        let new_file_size = size + total_size values
        insert_rounds (new_file_size + 2) pos_in_file new_file_size waiting
    ]
