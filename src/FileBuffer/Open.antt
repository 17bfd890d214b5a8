-- ===== src/FileBuffer/Open.antt =====
-- What src_2face/SimpleFlashFsFileBuffer.cc has open: the file with what waits for it, and what a write
-- does to it.
use simpleflashfs.Prelude.{
  ℕ, ◌+◌, ◌^◌, ◌≤◌, ◌<◌, ◌≡◌, ◌⊎◌, refl, sym, ap, ap₂, ◌∙◌, arith, inl, inr, true, false, Option,
  some, List, length, take, drop, ltb, if◌then◌else◌, Bool-cases, length-take, take-append_self,
}
use simpleflashfs.FileBuffer.Types.{FileInterface, FileBuffer}
use simpleflashfs.FileBuffer.{copied, filled, tellg, write_empty, overwrite_buffer}
use simpleflashfs.FileBuffer.Files.{IsFile}
use simpleflashfs.FileBuffer.Copies.{take-copied, length-copied, copied-copied}
use simpleflashfs.FileBuffer.Reading.{tellg_filled}

module _ {S : Type 0} (io : FileInterface S) (law : IsFile io) where
  -- The file with the bytes that wait to be written.
  abbrev pub view : FileBuffer S → List ℕ
  view b =
      if b.current_buffer_modified
      then copied (law.content b.file) b.current_buffer_start (take b.current b.buffer)
      else law.content b.file

  -- The buffer has bytes that wait, or a part of the file.
  pub record IsOpen (b : FileBuffer S) : Type 0 where
    pub no_append : io.is_append_mode b.file ≡ false
    pub inside : io.tellg b.file ≤ length (law.content b.file)
    pub starts : b.current_buffer_start ≤ length (law.content b.file)
    pub in_span : b.pos ≤ b.current
    pub room : b.current ≤ length b.buffer
    pub small : length b.buffer < 2 ^ 64
    pub held :
        b.current_buffer_modified ≡ false
        → copied (law.content b.file) b.current_buffer_start (take b.current b.buffer)
          ≡ law.content b.file

  -- A write of the bytes at the position, which moves behind them.
  pub record Writes (b : FileBuffer S) (bytes : List ℕ) (o : Option (ℕ × FileBuffer S))
      : Type 0 where
    pub after : FileBuffer S
    pub result : o ≡ some (length bytes, after)
    pub same_view : view after ≡ copied (view b) (tellg io b) bytes
    pub moved : tellg io after ≡ tellg io b + length bytes
    pub still_open : IsOpen after

  pub view-copied :
      (b : FileBuffer S)
      → IsOpen b
      → view b ≡ copied (law.content b.file) b.current_buffer_start (take b.current b.buffer)
  view-copied b c = elim (Bool-cases b.current_buffer_modified) [
    | inl e ↦ rw e refl
    | inr e ↦ rw e (sym (c.held e))
  ]

  -- The bytes in the buffer are as good as in the file.
  pub in_view :
      (b : FileBuffer S) (e : ℕ) (bytes : List ℕ)
      → IsOpen b
      → filled b ≡ true
      → (e ≡ b.current) × (b.pos + length bytes ≤ b.current)
        ⊎ ((b.current ≤ b.pos + length bytes) × (e ≡ b.pos + length bytes))
      → copied (law.content b.file) b.current_buffer_start (take e (copied b.buffer b.pos bytes))
        ≡ copied (view b) (tellg io b) bytes
  in_view b e bytes c f d =
      ap (copied (law.content b.file) b.current_buffer_start)
        (take-copied b.buffer b.current b.pos e bytes c.in_span c.room d)
      ∙ sym (
          copied-copied b.current_buffer_start b.pos (law.content b.file) (take b.current b.buffer)
            bytes c.starts (omega (arith, length-take b.current b.buffer, c.in_span, c.room)))
      ∙ ap₂ (λ v at. copied v at bytes) (sym (view-copied b c)) (sym (tellg_filled io law b f))

  pub overwrite_Writes :
      (b : FileBuffer S) (e : ℕ) (bytes : List ℕ)
      → IsOpen b
      → filled b ≡ true
      → 0 < length bytes
      → b.pos + length bytes ≤ e
      → e ≤ length b.buffer
      → copied (law.content b.file) b.current_buffer_start (take e (copied b.buffer b.pos bytes))
        ≡ copied (view b) (tellg io b) bytes
      → Writes b bytes (overwrite_buffer io bytes (record b { current = e }))
  unfolding overwrite_buffer
  overwrite_Writes b e bytes c f n l m v =
      let inside : ltb (length b.buffer) (b.pos + length bytes) ≡ false = ground (arith, l, m) in
      let after = record b {
        buffer = copied b.buffer b.pos bytes;
        current = e;
        current_buffer_modified = true;
        pos = b.pos + length bytes;
      } in
      let long = length-copied b.buffer b.pos bytes (omega (arith, l, m)) in
      record {
        after = after;
        result = rw inside refl;
        same_view = v;
        moved =
            tellg_filled io law after (ground (arith, n, l))
            ∙ omega (arith, tellg_filled io law b f);
        still_open = record {
          no_append = c.no_append;
          inside = c.inside;
          starts = c.starts;
          in_span = l;
          room = omega (arith, long, m);
          small = omega (arith, long, c.small);
          held = λ x. absurd (ground (arith, x));
        };
      }

  tellg_behind :
      (b : FileBuffer S)
      → b.pos ≡ b.current
      → b.current_buffer_start ≡ io.tellg b.file
      → tellg io b ≡ b.current_buffer_start + b.current
  unfolding tellg
  tellg_behind b p s = ground (arith, p, s)

  -- `write` with an empty buffer.
  pub write_empty-Writes :
      (b b' : FileBuffer S) (bytes : List ℕ)
      → io.is_append_mode b'.file ≡ false
      → io.tellg b'.file ≡ tellg io b
      → law.content b'.file ≡ view b
      → tellg io b ≤ length (view b)
      → length bytes ≤ length b'.buffer
      → length b'.buffer < 2 ^ 64
      → Writes b bytes (write_empty io bytes b')
  unfolding write_empty
  write_empty-Writes b b' bytes a t v i h s =
      let long = length-copied b'.buffer 0 bytes (omega (arith, h)) in
      let after = record b' {
        current_buffer_start = io.tellg b'.file;
        buffer = copied b'.buffer 0 bytes;
        current = length bytes;
        current_buffer_modified = true;
        pos = length bytes;
      } in
      let there : io.tellg b'.file ≤ length (law.content b'.file) = rw (t, v) i in
      record {
        after = after;
        result = refl;
        same_view =
            ap (copied (law.content b'.file) (io.tellg b'.file))
              (take-append_self bytes (drop (0 + length bytes) b'.buffer) (length bytes) refl)
            ∙ rw (t, v) refl;
        moved = tellg_behind after refl refl ∙ ap (λ at. at + length bytes) t;
        still_open = record {
          no_append = a;
          inside = there;
          starts = there;
          in_span = omega arith;
          room = omega (arith, long, h);
          small = omega (arith, long, s);
          held = λ x. absurd (ground (arith, x));
        };
      }
