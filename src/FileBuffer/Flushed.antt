-- ===== src/FileBuffer/Flushed.antt =====
-- discard_buffer of src_2face/SimpleFlashFsFileBuffer.cc gives the file what waits for it.
use simpleflashfs.Prelude.{
  ℕ, ◌≡◌, refl, sym, ◌∙◌, arith, inl, inr, Bool, true, false, Option, some, List, length, take,
  ◌==◌, Bool-cases, length-take,
}
use simpleflashfs.FileBuffer.Types.{FileInterface, FileBuffer, ◌>>=◌, unless_failed}
use simpleflashfs.FileBuffer.{flush_buffer, discard_buffer}
use simpleflashfs.FileBuffer.Files.{IsFile}
use simpleflashfs.FileBuffer.Open.{view, IsOpen}

module _ {S : Type 0} (io : FileInterface S) (law : IsFile io) where
  -- The file below writes all the bytes that wait.
  abbrev pub Takes : FileBuffer S → Type 0
  Takes b =
      b.current_buffer_modified ≡ true
      → (io.write (io.seek b.file b.current_buffer_start).0 (take b.current b.buffer)).1 ≡ b.current

  -- The buffer is empty, and the file has what waited.
  pub record Discards (b : FileBuffer S) (o : Option (Bool × FileBuffer S)) : Type 0 where
    pub after : FileBuffer S
    pub result : o ≡ some (true, after)
    pub written : law.content after.file ≡ view io law b
    pub no_append : io.is_append_mode after.file ≡ false
    pub same_buffer : after.buffer ≡ b.buffer

  module _ (b : FileBuffer S) (c : IsOpen io law b) (m : b.current_buffer_modified ≡ true)
      (takes : Takes b) where
    abbrev sought : S
    sought = (io.seek b.file b.current_buffer_start).0

    abbrev bytes : List ℕ
    bytes = take b.current b.buffer

    flushed_modified :
        flush_buffer io b
        ≡ some
            (true, record b { file = (io.write sought bytes).0; current_buffer_modified = false })
    unfolding flush_buffer
    flushed_modified =
        let all : ((io.write sought bytes).1 == b.current) ≡ true = ground (arith, takes m) in
        rw (m, flush_buffer, all) refl

    written_modified : law.content (io.write sought bytes).0 ≡ view io law b
    written_modified =
        let long : length bytes ≡ b.current =
          omega (arith, length-take b.current b.buffer, c.room) in
        law.content-write sought bytes
          (law.is_append_mode-seek b.file b.current_buffer_start ∙ c.no_append)
          (rw
            (
              law.tellg-seek b.file b.current_buffer_start c.starts,
              law.content-seek b.file b.current_buffer_start c.starts,
            )
            c.starts)
          (takes m ∙ sym long)
        ∙ rw
            (
              m,
              law.tellg-seek b.file b.current_buffer_start c.starts,
              law.content-seek b.file b.current_buffer_start c.starts,
            )
            refl

    discard_modified : Discards b (discard_buffer io b)
    unfolding discard_buffer
    discard_modified = record {
      after = record b {
        file = (io.write sought bytes).0;
        current_buffer_modified = false;
        pos = 0;
        current_buffer_start = 0;
        current = 0;
      };
      result = rw (discard_buffer, unless_failed, ◌>>=◌, flushed_modified) refl;
      written = written_modified;
      no_append =
          law.is_append_mode-write sought bytes
          ∙ law.is_append_mode-seek b.file b.current_buffer_start
          ∙ c.no_append;
      same_buffer = refl;
    }

  discard_unmodified :
      (b : FileBuffer S)
      → IsOpen io law b
      → b.current_buffer_modified ≡ false
      → Discards b (discard_buffer io b)
  unfolding discard_buffer flush_buffer
  discard_unmodified b c m = record {
    after = record b { pos = 0; current_buffer_start = 0; current = 0 };
    result = rw m refl;
    written = rw m refl;
    no_append = c.no_append;
    same_buffer = refl;
  }

  pub discard_lem :
      (b : FileBuffer S) → IsOpen io law b → Takes b → Discards b (discard_buffer io b)
  discard_lem b c takes = elim (Bool-cases b.current_buffer_modified) [
    | inl m ↦ discard_modified b c m takes
    | inr m ↦ discard_unmodified b c m
  ]

  -- What flush leaves: the file has what waited, whether its own flush succeeds or not.
  pub record Flushes (b : FileBuffer S) (o : Option (Bool × FileBuffer S)) : Type 0 where
    pub after : FileBuffer S
    pub done : Bool
    pub result : o ≡ some (done, after)
    pub written : law.content after.file ≡ view io law b
    pub nothing_waits : after.current_buffer_modified ≡ false
