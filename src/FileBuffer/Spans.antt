-- ===== src/FileBuffer/Spans.antt =====
-- read( size ) and seek of src_2face/SimpleFlashFsFileBuffer.cc, where nothing is written.
use simpleflashfs.Prelude.{
  ℕ, ◌+◌, ◌-◌, ◌≤◌, ◌≡◌, refl, ◌∙◌, arith, inl, inr, Bool, true, false, not, ◌&&◌, ◌||◌, Option,
  some, length, leb, ltb, ◌==◌, Bool-cases,
}
use simpleflashfs.FileBuffer.Types.{FileInterface, FileBuffer, on_file}
use simpleflashfs.FileBuffer.{filled, tellg, seek, seek_outside}
use simpleflashfs.FileBuffer.Files.{IsFile}
use simpleflashfs.FileBuffer.Reading.{IsClean, emptied, tellg-le, tellg_filled}
use simpleflashfs.FileBuffer.Refill.{tellg_empty, discarded}

module _ {S : Type 0} (io : FileInterface S) (law : IsFile io) where
  abbrev moved_to : FileBuffer S → ℕ → FileBuffer S
  moved_to b p = record (emptied io law b) { file = (io.seek b.file p).0 }

  -- What seek leaves, as an outcome: the position that is asked for, in the same file.
  pub record Sought (b : FileBuffer S) (to : ℕ) (o : Option (Bool × FileBuffer S)) : Type 0 where
    pub after : FileBuffer S
    pub result : o ≡ some (true, after)
    pub clean : IsClean io law after
    pub same_content : law.content after.file ≡ law.content b.file
    pub there : tellg io after ≡ to
    pub same_size : length after.buffer ≡ length b.buffer

  Sought-inside :
      (b : FileBuffer S) (to : ℕ)
      → IsClean io law b
      → (filled b && leb b.current_buffer_start to && ltb to (b.current_buffer_start + b.current))
        ≡ true
      → Sought b to (seek io to b)
  unfolding seek
  Sought-inside b to c e =
      let reached : to ≤ length (law.content b.file) = ground (arith, e, c.reach) in
      let b' = record b { pos = to - b.current_buffer_start; file = (io.seek b.file to).0 } in
      record {
        after = b';
        result = rw (e, law.seek_true b.file to reached) refl;
        clean = record {
          unmodified = c.unmodified;
          small = rw (law.content-seek b.file to reached) c.small;
          inside =
              rw (law.content-seek b.file to reached, law.tellg-seek b.file to reached) reached;
          behind = rw (law.tellg-seek b.file to reached) (ground (arith, e));
          in_span = ground (arith, e);
          reach = rw (law.content-seek b.file to reached) c.reach;
          room = c.room;
          held = rw (law.content-seek b.file to reached) c.held;
        };
        same_content = law.content-seek b.file to reached;
        there = tellg_filled io law b' (ground (arith, e)) ∙ ground (arith, e);
        same_size = refl;
      }

  -- The test by which seek finds the file at the position.
  at_place : FileBuffer S → ℕ → Bool
  at_place b to = (io.tellg b.file == to) && (not (filled b) || not b.current_buffer_modified)

  Sought-here :
      (b : FileBuffer S) (to : ℕ)
      → IsClean io law b
      → tellg io b ≡ to
      → at_place b to ≡ true
      → Sought b to (seek_outside io to b)
  unfolding seek_outside at_place
  Sought-here b to c e t = record {
    after = b;
    result = rw t refl;
    clean = c;
    same_content = refl;
    there = e;
    same_size = refl;
  }

  Sought-away :
      (b : FileBuffer S) (to : ℕ)
      → IsClean io law b
      → to ≤ length (law.content b.file)
      → at_place b to ≡ false
      → Sought b to (seek_outside io to b)
  unfolding seek_outside at_place
  Sought-away b to c h t = record {
    after = moved_to b to;
    result =
        rw
          (
            t,
            discarded io law b false (on_file (λ f. io.seek f to)) c.unmodified,
            law.seek_true b.file to h,
          )
          refl;
    clean = record {
      unmodified = c.unmodified;
      small = rw (law.content-seek b.file to h) c.small;
      inside = rw (law.content-seek b.file to h, law.tellg-seek b.file to h) h;
      behind = omega arith;
      in_span = omega arith;
      reach = omega arith;
      room = omega arith;
      held = refl;
    };
    same_content = law.content-seek b.file to h;
    there = tellg_empty io law (moved_to b to) refl ∙ law.tellg-seek b.file to h;
    same_size = refl;
  }

  abbrev in_buffer : FileBuffer S → ℕ → Bool
  in_buffer b to =
      filled b && leb b.current_buffer_start to && ltb to (b.current_buffer_start + b.current)

  seek-outside :
      (b : FileBuffer S) (to : ℕ) → in_buffer b to ≡ false → seek io to b ≡ seek_outside io to b
  unfolding seek
  seek-outside b to e = rw e refl

  -- seek goes to a position in the file, unless the file below is there and the buffer is not.
  pub seek_lem :
      (b : FileBuffer S) (to : ℕ)
      → IsClean io law b
      → to ≤ length (law.content b.file)
      → (io.tellg b.file ≡ to → in_buffer b to ≡ false → tellg io b ≡ to)
      → Sought b to (seek io to b)
  seek_lem b to c h honest = elim (Bool-cases (in_buffer b to)) [
    | inl e ↦ Sought-inside b to c e
    | inr e ↦ rw (seek-outside b to e) (elim (Bool-cases (at_place b to)) [
      | inl t ↦ Sought-here b to c (honest (unfold at_place in ground (arith, t)) e) t
      | inr t ↦ Sought-away b to c h t
    ])
  ]

  -- It goes back to a position in the span that was read last, and to the start of the file.
  pub seek_back :
      (b : FileBuffer S) (to : ℕ)
      → IsClean io law b
      → b.current_buffer_start ≤ to
      → to ≤ tellg io b
      → filled b ≡ true
      → Sought b to (seek io to b)
  seek_back b to c h k f =
      seek_lem b to c (omega (arith, tellg-le io law b c))
        (λ _ e. ground (arith, e, f, tellg_filled io law b f, c.in_span))

  pub seek_start : (b : FileBuffer S) → IsClean io law b → Sought b 0 (seek io 0 b)
  seek_start b c = seek_lem b 0 c (omega arith) (λ e o. elim (Bool-cases (filled b)) [
    | inl f ↦ ground (arith, e, o, f, c.behind)
    | inr f ↦ tellg_empty io law b (ground (arith, f)) ∙ e
  ])
