-- ===== src/FileBuffer/Writing.antt =====
-- The write of src_2face/SimpleFlashFsFileBuffer.cc, as a write to the file with what waits for it.
use simpleflashfs.Prelude.{ℕ, ◌+◌, ◌≤◌, ◌<◌, ◌≡◌, true, Option, List, length, leb, if◌then◌else◌}
use simpleflashfs.FileBuffer.Types.{FileInterface, FileBuffer, unless_failed, on_file}
use simpleflashfs.FileBuffer.{discard_buffer, write_empty, overwrite_buffer}
use simpleflashfs.FileBuffer.Files.{IsFile}

module _ {S : Type 0} (io : FileInterface S) (law : IsFile io) where
  -- Nothing that waits behind the position is cut off where the buffer is made to end at the new bytes.
  abbrev pub KeepsTail : FileBuffer S → ℕ → Type 0
  KeepsTail b n =
      b.current_buffer_modified ≡ true → b.pos + 1 + n < length b.buffer → b.current ≤ b.pos + n

  -- `write_filled` with the size that `current_buffer` has behind its first step.
  abbrev write_sized : FileBuffer S → List ℕ → ℕ → Option (ℕ × FileBuffer S)
  write_sized b bytes e =
      if leb (b.pos + length bytes) e
      then overwrite_buffer io bytes (record b { current = e })
      else (unless_failed (discard_buffer io) 0 (
            unless_failed (on_file (λ f. io.seek f (b.current_buffer_start + b.pos))) 0
              (write_empty io bytes)))
          (record b { current = e })
