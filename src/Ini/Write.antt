-- ===== src/Ini/Write.antt =====
-- write of src_2face/SimpleIni.cc, for a value that is a string.
use simpleflashfs.Prelude.{
  ℕ, zero, suc, ◌+◌, ◌-◌, min, Bool, true, false, Option, none, some, List, [], ◌∷◌, ◌++◌, length,
  take, drop, replicate, ltb, ◌==◌, if◌then◌else◌,
}
use simpleflashfs.Fs.Header.{same_bytes}
use simpleflashfs.FileBuffer.Types.{Method, return, ◌>>=◌, ◌>>◌, unless_failed, ask}
use simpleflashfs.FileBuffer
use simpleflashfs.FileBuffer.{sub64, tellg, file_size, seek, truncate, get_char}
use simpleflashfs.FileBuffer.Lines.{get_line}
use simpleflashfs.Ini.{Ini, get_key_value}
use simpleflashfs.Ini.Find.{find_section, find_next_key}
use simpleflashfs.Ini.Insert.{
  total_size, write_string, write_strings, comment_strings, key_strings, append_section, append_key,
  insert_at,
}

abbrev pub without_last : List (List ℕ) → List (List ℕ)
without_last [] = []
without_last (s ∷ []) = []
without_last (s ∷ t ∷ rest) = s ∷ without_last (t ∷ rest)

abbrev pub joined : List (List ℕ) → List ℕ
joined [] = []
joined (s ∷ rest) = s ++ joined rest

-- The result of the loop that moves the tail; `unread` where `read` fails.
pub data Moved : Type 0 where
  moved unread unwritten : Moved

module _ {S : Type 0} (ini : Ini S) where
  -- `sl`: the strings of the comment and of the key's line.
  unfoldable pub line_strings : List ℕ → List ℕ → List ℕ → List (List ℕ)
  unfolding comment_strings key_strings
  line_strings key value comment = comment_strings ini comment ++ key_strings ini key value

  unfoldable pub pad_with_spaces : ℕ → ℕ → List (List ℕ) → Method S Bool
  unfolding seek write_strings write_string
  pad_with_spaces start shrink_amount sl = do
    seek ini.io start
    unless_failed (write_strings ini (without_last sl)) false (
        unless_failed (write_strings ini (replicate shrink_amount (b' ' ∷ []))) false
          (write_string ini (10 ∷ [])))

  -- The loop that moves the tail to the front, on fuel; none is also where the fuel is used up.
  unfoldable pub shift_rounds : ℕ → ℕ → ℕ → ℕ → Method S Moved
  unfolding seek FileBuffer.read FileBuffer.write
  shift_rounds zero bytes_remaining read_pos write_pos b = none
  shift_rounds (suc fuel) bytes_remaining read_pos write_pos b = elim (ltb 0 bytes_remaining) [
    | false ↦ some (moved, b)
    | true ↦
        let chunk = min bytes_remaining ini.line_buffer_size in
        elim ((seek ini.io read_pos >> FileBuffer.read ini.io chunk) b) [
          | none ↦ none
          | some ([], b') ↦ some (unread, b')
          | some (c ∷ rest, b') ↦
              elim ((seek ini.io write_pos >> FileBuffer.write ini.io (c ∷ rest)) b') [
                | none ↦ none
                | some (written, b'') ↦ elim (written == length (c ∷ rest)) [
                  | false ↦ some (unwritten, b'')
                  | true ↦
                      shift_rounds fuel (bytes_remaining - length (c ∷ rest))
                        (read_pos + length (c ∷ rest)) (write_pos + length (c ∷ rest)) b''
                ]
              ]
        ]
  ]

  -- The path where the new line is shorter.
  unfoldable pub write_shorter : ℕ → ℕ → List (List ℕ) → Method S Bool
  unfolding file_size seek write_strings shift_rounds pad_with_spaces truncate
  write_shorter start size_to_overwrite sl = do
    let shrink_amount = size_to_overwrite - total_size sl
    let tail_start_old = start + size_to_overwrite
    old_file_size ← ask (file_size ini.io)
    let tail_size = old_file_size - tail_start_old
    let new_file_size = sub64 old_file_size shrink_amount
    seek ini.io start
    unless_failed (write_strings ini sl) false (do
      result ←
          shift_rounds (tail_size + 1) tail_size tail_start_old (tail_start_old - shrink_amount)
      elim result [
        | unread ↦ pad_with_spaces start shrink_amount sl
        | unwritten ↦ return false
        | moved ↦ do
          done ← truncate ini.io new_file_size
          if done then return true else pad_with_spaces start shrink_amount sl
      ])

  -- The path where it is not.
  unfoldable pub write_longer : ℕ → List (List ℕ) → Method S Bool
  unfolding write_string tellg insert_at
  write_longer size_to_overwrite sl =
      unless_failed (write_string ini (take size_to_overwrite (joined sl))) false
        (do at ← ask (tellg ini.io); insert_at ini at (drop size_to_overwrite (joined sl) ∷ []))

  -- The lines from `start` to the position are replaced.
  unfoldable pub replace_line : ℕ → List (List ℕ) → Method S Bool
  unfolding tellg seek write_shorter write_longer
  replace_line start sl = do
    end ← ask (tellg ini.io)
    seek ini.io start
    let size_to_overwrite = sub64 end start
    if ltb (total_size sl) size_to_overwrite
        then write_shorter start size_to_overwrite sl
        else write_longer size_to_overwrite sl

  unfoldable pub step_back : Method S (Unit {0})
  unfolding tellg seek get_char
  step_back = do
    current_pos ← ask (tellg ini.io)
    if ltb 0 current_pos
        then (do
          seek ini.io (current_pos - 1)
          c ← get_char ini.io
          elim c [
            | none ↦ return tt
            | some c' ↦ if c' == 10 then seek ini.io (current_pos - 1) >> return tt else return tt
          ])
        else return tt

  -- Behind the loop: the section does not have the key.
  unfoldable pub insert_key : Option ℕ → List (List ℕ) → Method S Bool
  unfolding step_back tellg insert_at
  insert_key last_key_end sl = do
    step_back
    at ← ask (tellg ini.io)
    insert_at ini (elim last_key_end [ none ↦ at | some end ↦ end ]) sl

  -- The loop over the keys of the section, on fuel; it throws where the fuel is used up.
  unfoldable pub write_rounds : ℕ → List ℕ → List ℕ → List ℕ → ℕ → Option ℕ → Method S Bool
  unfolding find_next_key seek get_line tellg line_strings replace_line insert_key get_key_value
  write_rounds zero key value comment section_keys_start last_key_end b = none
  write_rounds (suc fuel) key value comment section_keys_start last_key_end b =
      elim (find_next_key ini b) [
        | none ↦ none
        | some (none, b') ↦ insert_key last_key_end (line_strings key value comment) b'
        | some (some next, b') ↦ elim ((seek ini.io next >> get_line ini.line_string ini.io) b') [
          | none ↦ none
          | some (none, b'') ↦ some (false, b'')
          | some (some line, b'') ↦ elim (same_bytes (get_key_value ini line).0 key) [
            | false ↦
                write_rounds fuel key value comment section_keys_start (some (tellg ini.io b'')) b''
            | true ↦ elim (same_bytes (get_key_value ini line).1 value) [
              | true ↦ some (true, b'')
              | false ↦
                  replace_line (elim last_key_end [ none ↦ section_keys_start | some end ↦ end ])
                    (line_strings key value comment) b''
            ]
          ]
        ]
      ]

  -- As many rounds as the file has bytes, and one more.
  unfoldable pub write : List ℕ → List ℕ → List ℕ → List ℕ → Method S Bool
  unfolding find_section append_section append_key tellg file_size write_rounds
  write section key value comment = do
    found ← find_section ini section
    elim found [
      | none ↦ unless_failed (append_section ini section) false (append_key ini key value comment)
      | some at ↦ do
        start ← ask (tellg ini.io)
        size ← ask (file_size ini.io)
        write_rounds (size + 1) key value comment start none
    ]
