-- ===== src/FileBuffer.antt =====
-- FileBuffer of src_2face/SimpleFlashFsFileBuffer.h and .cc: a file behind a buffer of fixed size.
pub mod Types
pub mod Lines
pub mod Files
pub mod Reading
pub mod Refill
pub mod Spans
pub mod Text
pub mod Round
pub mod GetLine
pub mod Ram
pub mod Copies
pub mod Open
pub mod Flushed
pub mod Writing
pub mod Tests
use simpleflashfs.Prelude.{
  ℕ, zero, suc, ◌+◌, ◌-◌, ◌%◌, ◌^◌, min, max, Bool, true, false, not, ◌&&◌, ◌||◌, Option, none,
  some, List, [], ◌∷◌, ◌++◌, length, take, drop, ltb, leb, ◌==◌, if◌then◌else◌,
}
use simpleflashfs.FileBuffer.Types.{
  FileInterface, FileBuffer, Method, return, ◌>>=◌, ◌>>◌, throw, unless_failed, ask, change,
  on_file,
}

-- a - b in std::size_t.
abbrev pub sub64 : ℕ → ℕ → ℕ
sub64 a b = (a + 2 ^ 64 - b % 2 ^ 64) % 2 ^ 64

-- The bytes of `current_buffer` from a position on, and the buffer with bytes copied to one.
abbrev pub subspan : {S : Type 0} → FileBuffer S → ℕ → ℕ → List ℕ
subspan b from size = take size (drop from b.buffer)

abbrev pub copied : List ℕ → ℕ → List ℕ → List ℕ
copied buffer at bytes = take at buffer ++ (bytes ++ drop (at + length bytes) buffer)

abbrev pub filled : {S : Type 0} → FileBuffer S → Bool
filled b = not (b.current == 0)

module _ {S : Type 0} (io : FileInterface S) where
  unfoldable pub tellg : FileBuffer S → ℕ
  tellg b = if filled b then b.current_buffer_start + b.pos else io.tellg b.file

  unfoldable pub file_size : FileBuffer S → ℕ
  file_size b =
      if filled b && b.current_buffer_modified
      then max (b.current_buffer_start + b.current) (io.file_size b.file)
      else max (b.current_buffer_start + b.pos) (io.file_size b.file)

  unfoldable pub eof : FileBuffer S → Bool
  unfolding file_size
  eof b = if filled b then leb (file_size b) (b.current_buffer_start + b.pos) else io.eof b.file

  -- The result of file.seek is not looked at.
  unfoldable pub flush_buffer : Method S Bool
  flush_buffer b =
      if b.current_buffer_modified
      then (do
        on_file (λ f. io.seek f b.current_buffer_start)
        let bytes = subspan b 0 b.current
        written ← on_file (λ f. io.write f bytes)
        if written == b.current
            then (do change (λ b. record b { current_buffer_modified = false }); return true)
            else return false)
          b
      else some (true, b)

  unfoldable pub discard_buffer : Method S Bool
  unfolding flush_buffer
  discard_buffer =
      unless_failed flush_buffer false
        (do change (λ b. record b { pos = 0; current_buffer_start = 0; current = 0 }); return true)

  unfoldable pub flush : Method S Bool
  unfolding flush_buffer
  flush = unless_failed flush_buffer false (on_file io.flush)

  -- `read_to_buffer` behind its test for the end of the file, with the size to read.
  unfoldable pub fill : ℕ → ℕ → Method S Bool
  unfolding discard_buffer
  fill size size_to_read = do
    bytes ← on_file (λ f. io.read f size_to_read)
    change (λ b. record b { current = size_to_read; buffer = copied b.buffer 0 bytes })
    if length bytes == size_to_read
        then (do
          change (λ b. record b { pos = if ltb size_to_read size then size_to_read else size })
          return true)
        else discard_buffer >> return false

  unfoldable pub read_to_buffer : ℕ → Method S Bool
  unfolding fill
  read_to_buffer size = do
    change (λ b. record b { current_buffer_start = io.tellg b.file })
    left ← ask (λ b. sub64 (io.file_size b.file) (io.tellg b.file))
    capacity ← ask (λ b. length b.buffer)
    let size_to_read = min left capacity
    if size_to_read == 0 then return false else fill size size_to_read

  -- The end of read( size ), where the buffer has no bytes for it.
  unfoldable pub refill : ℕ → Method S (List ℕ)
  unfolding read_to_buffer
  refill size = unless_failed (read_to_buffer size) [] (ask (λ b. subspan b 0 (min size b.current)))

  -- The bytes at the position, which moves behind them.
  unfoldable pub take_bytes : ℕ → Method S (List ℕ)
  take_bytes size b = some (subspan b b.pos size, record b { pos = b.pos + size })

  -- read( size ), which gives a span of the buffer.
  unfoldable pub read_span : ℕ → Method S (List ℕ)
  unfolding file_size discard_buffer refill take_bytes
  read_span size b =
      if ltb (length b.buffer) size
      then some ([], b)
      else (if filled b && ltb (b.pos + size) b.current
          then take_bytes size b
          else (if filled b && leb (file_size b) (b.current_buffer_start + b.current)
              then take_bytes (min size (sub64 b.current b.pos)) b
              else (if filled b
                  then (unless_failed discard_buffer []
                        (do on_file (λ f. io.seek f (b.current_buffer_start + b.pos)); refill size))
                      b
                  else refill size b)))

  -- read( data, size ): the bytes that it copies to data.
  unfoldable pub read : ℕ → Method S (List ℕ)
  unfolding discard_buffer read_span
  read size b =
      if ltb (length b.buffer) size
      then (unless_failed discard_buffer [] (on_file (λ f. io.read f size))) b
      else read_span size b

  -- `seek` to a position that the buffer does not have.
  unfoldable pub seek_outside : ℕ → Method S Bool
  unfolding discard_buffer
  seek_outside to b =
      if (io.tellg b.file == to) && (not (filled b) || not b.current_buffer_modified)
      then some (true, b)
      else (unless_failed discard_buffer false (on_file (λ f. io.seek f to))) b

  unfoldable pub seek : ℕ → Method S Bool
  unfolding seek_outside
  seek to b =
      if filled b && leb b.current_buffer_start to && ltb to (b.current_buffer_start + b.current)
      then (do
        change (λ b. record b { pos = to - b.current_buffer_start })
        on_file (λ f. io.seek f to))
          b
      else seek_outside to b

  -- `write` where the buffer is empty.
  unfoldable pub write_empty : List ℕ → Method S ℕ
  write_empty bytes b = some (
    length bytes,
    record b {
      current_buffer_start = io.tellg b.file;
      buffer = copied b.buffer 0 bytes;
      current = length bytes;
      current_buffer_modified = true;
      pos = length bytes;
    },
  )

  -- memcpy into `current_buffer`; outside of the buffer it is none.
  unfoldable pub overwrite_buffer : List ℕ → Method S ℕ
  overwrite_buffer bytes b =
      if ltb (length b.buffer) (b.pos + length bytes)
      then none
      else some (
        length bytes,
        record b {
          buffer = copied b.buffer b.pos bytes;
          current_buffer_modified = true;
          pos = b.pos + length bytes;
        },
      )

  -- The size of `current_buffer` behind the test that enlarges it.
  unfoldable pub enlarged : ℕ → FileBuffer S → ℕ
  enlarged size b =
      if ltb size (sub64 (length b.buffer) (b.pos + 1)) then b.pos + size else b.current

  -- `write` where the buffer is not empty. The recursive call finds it empty.
  unfoldable pub write_filled : List ℕ → Method S ℕ
  unfolding enlarged overwrite_buffer discard_buffer write_empty
  write_filled bytes b =
      let wide = record b { current = enlarged (length bytes) b } in
      if leb (b.pos + length bytes) wide.current
      then overwrite_buffer bytes wide
      else (unless_failed discard_buffer 0 (
            unless_failed (on_file (λ f. io.seek f (b.current_buffer_start + b.pos))) 0
              (write_empty bytes)))
          wide

  unfoldable pub write_buffered : List ℕ → Method S ℕ
  unfolding write_filled write_empty
  write_buffered bytes b = if filled b then write_filled bytes b else write_empty bytes b

  -- `write` of more bytes than the buffer has.
  unfoldable pub write_through : List ℕ → Method S ℕ
  unfolding discard_buffer
  write_through bytes b =
      (unless_failed discard_buffer 0 (
          unless_failed (on_file (λ f. io.seek f (io.tellg b.file))) 0
            (on_file (λ f. io.write f bytes))))
        b

  unfoldable pub write : List ℕ → Method S ℕ
  unfolding write_through discard_buffer write_buffered
  write bytes b =
      if ltb (length b.buffer) (length bytes)
      then write_through bytes b
      else (if filled b && not b.current_buffer_modified && io.is_append_mode b.file
          then (unless_failed discard_buffer 0 (write_buffered bytes)) b
          else write_buffered bytes b)

  unfoldable pub truncate : ℕ → Method S Bool
  unfolding discard_buffer
  truncate new_size = unless_failed discard_buffer false (on_file (λ f. io.truncate f new_size))

  unfoldable pub get_char : Method S (Option ℕ)
  unfolding read_span
  get_char = do bytes ← read_span 1; return (elim bytes [ [] ↦ none | c ∷ rest ↦ some c ])
