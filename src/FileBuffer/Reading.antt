-- ===== src/FileBuffer/Reading.antt =====
-- The reads of src_2face/SimpleFlashFsFileBuffer.cc are those of the file below, as long as nothing
-- is written.
use simpleflashfs.Prelude.{
  ℕ, ◌+◌, ◌^◌, ◌≤◌, ◌<◌, ◌≡◌, ◌≢◌, refl, sym, ap, ◌∙◌, arith, true, false, Option, some, List,
  length, take, drop,
}
use simpleflashfs.Prelude.Parts.{take-drop-take, drop-drop}
use simpleflashfs.FileBuffer.Types.{FileInterface, FileBuffer}
use simpleflashfs.FileBuffer.{
  subspan, filled, tellg, file_size, flush_buffer, discard_buffer, take_bytes,
}
use simpleflashfs.FileBuffer.Files.{IsFile, rest_of, length-rest_of}

module _ {S : Type 0} (io : FileInterface S) (law : IsFile io) where
  -- Nothing waits to be written, and the buffer holds a part of the file.
  pub record IsClean (b : FileBuffer S) : Type 0 where
    pub unmodified : b.current_buffer_modified ≡ false
    pub small : length (law.content b.file) < 2 ^ 64
    pub inside : io.tellg b.file ≤ length (law.content b.file)
    pub behind : b.current_buffer_start ≤ io.tellg b.file
    pub in_span : b.pos ≤ b.current
    pub reach : b.current_buffer_start + b.current ≤ length (law.content b.file)
    pub room : b.current ≤ length b.buffer
    pub held :
        take b.current b.buffer ≡ take b.current (drop b.current_buffer_start (law.content b.file))

  -- A read of n bytes gives those at the position, which moves behind them.
  pub record Reads (b : FileBuffer S) (n : ℕ) (o : Option (List ℕ × FileBuffer S)) : Type 0 where
    pub after : FileBuffer S
    pub result : o ≡ some (rest_of (law.content b.file) (tellg io b) n, after)
    pub clean : IsClean after
    pub same_content : law.content after.file ≡ law.content b.file
    pub moved : tellg io after ≡ tellg io b + length (rest_of (law.content b.file) (tellg io b) n)
    pub same_size : length after.buffer ≡ length b.buffer
    pub started : after.current_buffer_start ≤ tellg io b
    pub has_bytes : n ≢ 0 → tellg io b < length (law.content b.file) → filled after ≡ true

  abbrev pub emptied : FileBuffer S → FileBuffer S
  emptied b = record b { pos = 0; current_buffer_start = 0; current = 0 }

  pub discard_buffer_clean :
      (b : FileBuffer S)
      → b.current_buffer_modified ≡ false
      → discard_buffer io b ≡ some (true, emptied b)
  unfolding discard_buffer flush_buffer
  discard_buffer_clean b e = rw e refl

  pub file_size_clean :
      (b : FileBuffer S) → IsClean b → file_size io b ≡ length (law.content b.file)
  unfolding file_size
  file_size_clean b c =
      rw (c.unmodified, law.file_size_lem b.file) (ground (arith, c.in_span, c.reach))

  pub tellg-le : (b : FileBuffer S) → IsClean b → tellg io b ≤ length (law.content b.file)
  unfolding tellg
  tellg-le b c = ground (arith, c.in_span, c.reach, c.inside)

  pub tellg_filled :
      (b : FileBuffer S) → filled b ≡ true → tellg io b ≡ b.current_buffer_start + b.pos
  unfolding tellg
  tellg_filled b f = ground arith

  -- A part of the buffer is that part of the file.
  subspan_lem :
      (b : FileBuffer S) (p m : ℕ)
      → IsClean b
      → p + m ≤ b.current
      → subspan b p m ≡ rest_of (law.content b.file) (b.current_buffer_start + p) m
  subspan_lem b p m c h =
      sym (take-drop-take m p b.current b.buffer h)
      ∙ ap (λ xs. take m (drop p xs)) c.held
      ∙ take-drop-take m p b.current (drop b.current_buffer_start (law.content b.file)) h
      ∙ ap (take m) (drop-drop p b.current_buffer_start (law.content b.file))

  pub take_bytes_lem :
      (b : FileBuffer S) (n m : ℕ)
      → IsClean b
      → filled b ≡ true
      → b.pos + m ≤ b.current
      → rest_of (law.content b.file) (tellg io b) n ≡ rest_of (law.content b.file) (tellg io b) m
      → Reads b n (take_bytes io m b)
  unfolding take_bytes
  take_bytes_lem b n m c f h e =
      let at = tellg_filled b f in
      let part = subspan_lem b b.pos m c h in
      let long =
        length-rest_of (law.content b.file) (b.current_buffer_start + b.pos) m
          (omega (arith, c.reach)) in
      record {
        after = record b { pos = b.pos + m };
        result = rw (e, at, part) refl;
        clean = record {
          unmodified = c.unmodified;
          small = c.small;
          inside = c.inside;
          behind = c.behind;
          in_span = h;
          reach = c.reach;
          room = c.room;
          held = c.held;
        };
        same_content = refl;
        moved = rw (e, at, long) (rw (tellg_filled (record b { pos = b.pos + m }) f) (omega arith));
        same_size = refl;
        started = omega (arith, at);
        has_bytes = λ _ _. f;
      }
