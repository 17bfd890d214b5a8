-- ===== src/FileBuffer/Refill.antt =====
-- The buffer of src_2face/SimpleFlashFsFileBuffer.cc, filled from the file below.
use simpleflashfs.Prelude.{
  ℕ, ◌+◌, ◌-◌, ◌^◌, ◌≤◌, ◌<◌, ◌≡◌, min, refl, sym, ap, ◌∙◌, arith, inl, inr, Bool, true, false, not,
  Option, some, List, [], ◌∷◌, length, take, drop, ltb, ◌==◌, if◌then◌else◌, Bool-cases,
  length-drop, take-append_self, length-append,
}
use simpleflashfs.Prelude.Parts.{take-take_le}
use simpleflashfs.FileBuffer.Types.{
  FileInterface, FileBuffer, Method, ◌>>=◌, unless_failed, ask, change,
}
use simpleflashfs.FileBuffer.{
  sub64, copied, filled, tellg, flush_buffer, discard_buffer, fill, read_to_buffer, refill,
}
use simpleflashfs.FileBuffer.Files.{IsFile, rest_of, length-rest_of, length-part, take-min}
use simpleflashfs.FileBuffer.Reading.{IsClean, Reads, emptied, tellg_filled}

module _ {S : Type 0} (io : FileInterface S) (law : IsFile io) where
  -- `read_to_buffer` from the position of the file, where it is not at its end.
  pub loaded : FileBuffer S → ℕ → ℕ → FileBuffer S
  loaded b size m = record b {
    file = (io.read b.file m).0;
    buffer = copied b.buffer 0 (io.read b.file m).1;
    current = m;
    current_buffer_start = io.tellg b.file;
    pos = if ltb m size then m else size;
  }

  module _ (b : FileBuffer S) (inside : io.tellg b.file ≤ length (law.content b.file)) (m : ℕ)
      (there : io.tellg b.file + m ≤ length (law.content b.file)) where
    length-read_bytes : length (io.read b.file m).1 ≡ m
    length-read_bytes =
        ap length (law.read_bytes b.file m inside)
        ∙ length-rest_of (law.content b.file) (io.tellg b.file) m there

    fill_lem :
        (size : ℕ)
        → fill io size m (record b { current_buffer_start = io.tellg b.file })
          ≡ some (true, loaded b size m)
    unfolding fill loaded
    fill_lem size =
        let full : (length (io.read b.file m).1 == m) ≡ true = ground (arith, length-read_bytes) in
        rw full refl

    loaded-held :
        (size : ℕ)
        → take m (loaded b size m).buffer ≡ rest_of (law.content b.file) (io.tellg b.file) m
    unfolding loaded
    loaded-held size =
        take-append_self (io.read b.file m).1 (drop (0 + length (io.read b.file m).1) b.buffer) m
          length-read_bytes
        ∙ law.read_bytes b.file m inside

    loaded-IsClean :
        (size : ℕ)
        → b.current_buffer_modified ≡ false
        → length (law.content b.file) < 2 ^ 64
        → m ≤ length b.buffer
        → IsClean io law (loaded b size m)
    unfolding loaded
    loaded-IsClean size u s r = record {
      unmodified = u;
      small = rw (law.content-read b.file m) s;
      inside =
          rw (law.content-read b.file m, law.tellg-read b.file m inside, length-read_bytes) there;
      behind = rw (law.tellg-read b.file m inside) (omega arith);
      in_span = ground arith;
      reach = rw (law.content-read b.file m) there;
      room = omega (
        arith,
        length-append (io.read b.file m).1 (drop (0 + length (io.read b.file m).1) b.buffer),
        length-read_bytes,
      );
      held = rw (law.content-read b.file m) (loaded-held size);
    }

    length-loaded :
        (size : ℕ) → m ≤ length b.buffer → length (loaded b size m).buffer ≡ length b.buffer
    unfolding loaded
    length-loaded size r = omega (
      arith,
      length-append (io.read b.file m).1 (drop (0 + length (io.read b.file m).1) b.buffer),
      length-drop (0 + length (io.read b.file m).1) b.buffer,
      length-read_bytes,
    )

  pub tellg_empty : (b : FileBuffer S) → b.current ≡ 0 → tellg io b ≡ io.tellg b.file
  unfolding tellg
  tellg_empty b e = ground arith

  -- An empty buffer that is to be filled from the position of the file.
  pub record IsEmpty (b : FileBuffer S) : Type 0 where
    pub unmodified : b.current_buffer_modified ≡ false
    pub small : length (law.content b.file) < 2 ^ 64
    pub inside : io.tellg b.file ≤ length (law.content b.file)
    pub no_bytes : b.current ≡ 0
    pub at_start : b.pos ≡ 0

  pub left_lem :
      (b : FileBuffer S)
      → IsEmpty b
      → sub64 (io.file_size b.file) (io.tellg b.file)
        ≡ length (law.content b.file) - io.tellg b.file
  left_lem b c = rw (law.file_size_lem b.file) (ground (arith, c.small, c.inside))

  abbrev amount : FileBuffer S → ℕ
  amount b = min (sub64 (io.file_size b.file) (io.tellg b.file)) (length b.buffer)

  refill_end :
      (b : FileBuffer S) (n : ℕ)
      → (amount b == 0) ≡ true
      → refill io n b ≡ some ([], record b { current_buffer_start = io.tellg b.file })
  unfolding refill read_to_buffer
  refill_end b n e = rw (e, refill, unless_failed, ◌>>=◌, read_to_buffer, ask, change) refl

  refill_more :
      (b : FileBuffer S) (n : ℕ)
      → IsEmpty b
      → (amount b == 0) ≡ false
      → refill io n b
        ≡ some (take (min n (amount b)) (loaded b n (amount b)).buffer, loaded b n (amount b))
  unfolding refill read_to_buffer loaded
  refill_more b n c e =
      let there : io.tellg b.file + amount b ≤ length (law.content b.file) =
        omega (arith, left_lem b c, c.inside) in
      rw (e, refill, unless_failed, ◌>>=◌, read_to_buffer, fill_lem b c.inside (amount b) there n)
        refl

  refill_end-Reads :
      (b : FileBuffer S) (n : ℕ)
      → IsEmpty b
      → n ≤ length b.buffer
      → (amount b == 0) ≡ true
      → Reads io law b n (refill io n b)
  refill_end-Reads b n c h e =
      let b' = record b { current_buffer_start = io.tellg b.file } in
      let here = tellg_empty b c.no_bytes in
      let nothing : (rest_of (law.content b.file) (tellg io b) n) ≡ [] =
        nothing_of (rest_of (law.content b.file) (tellg io b) n) (
          ground (arith, e, left_lem b c, length-part (law.content b.file) (tellg io b) n, here)) in
      record {
        after = b';
        result = rw (nothing, refill_end b n e) refl;
        clean = record {
          unmodified = c.unmodified;
          small = c.small;
          inside = c.inside;
          behind = omega arith;
          in_span = omega (arith, c.at_start);
          reach = omega (arith, c.no_bytes, c.inside);
          room = omega (arith, c.no_bytes);
          held = rw c.no_bytes refl;
        };
        same_content = refl;
        moved = rw (nothing, here, tellg_empty b' c.no_bytes) (omega arith);
        same_size = refl;
        started = omega (arith, here);
        has_bytes = λ ne more. absurd (ne (ground (arith, e, left_lem b c, here, more, h)));
      }
    where
      nothing_of : (xs : List ℕ) → length xs ≡ 0 → xs ≡ []
      nothing_of [] z = refl
      nothing_of (x ∷ xs) z = absurd (omega arith)

  loaded-subspan :
      (b : FileBuffer S) (n : ℕ)
      → IsEmpty b
      → n ≤ length b.buffer
      → take (min n (amount b)) (loaded b n (amount b)).buffer
        ≡ rest_of (law.content b.file) (io.tellg b.file) n
  loaded-subspan b n c h =
      let rest = drop (io.tellg b.file) (law.content b.file) in
      let there : io.tellg b.file + amount b ≤ length (law.content b.file) =
        omega (arith, left_lem b c, c.inside) in
      let long : min n (amount b) ≡ min n (length rest) =
        omega (arith, length-drop (io.tellg b.file) (law.content b.file), left_lem b c) in
      sym (take-take_le (min n (amount b)) (amount b) (loaded b n (amount b)).buffer (omega arith))
      ∙ ap (take (min n (amount b))) (loaded-held b c.inside (amount b) there n)
      ∙ take-take_le (min n (amount b)) (amount b) rest (omega arith)
      ∙ ap (λ k. take k rest) long
      ∙ take-min n rest

  loaded-moved :
      (b : FileBuffer S) (n : ℕ)
      → IsEmpty b
      → n ≤ length b.buffer
      → (amount b == 0) ≡ false
      → tellg io (loaded b n (amount b))
        ≡ tellg io b + length (rest_of (law.content b.file) (tellg io b) n)
  unfolding loaded
  loaded-moved b n c h e =
      let at = tellg_filled io law (loaded b n (amount b)) (ap not e) in
      let long = length-part (law.content b.file) (tellg io b) n in
      ground (arith, at, long, tellg_empty b c.no_bytes, left_lem b c)

  refill_more-Reads :
      (b : FileBuffer S) (n : ℕ)
      → IsEmpty b
      → n ≤ length b.buffer
      → (amount b == 0) ≡ false
      → Reads io law b n (refill io n b)
  unfolding loaded
  refill_more-Reads b n c h e =
      let b' = loaded b n (amount b) in
      let here = tellg_empty b c.no_bytes in
      let there : io.tellg b.file + amount b ≤ length (law.content b.file) =
        omega (arith, left_lem b c, c.inside) in
      record {
        after = b';
        result = rw (refill_more b n c e, here, loaded-subspan b n c h) refl;
        clean = loaded-IsClean b c.inside (amount b) there n c.unmodified c.small (omega arith);
        same_content = law.content-read b.file (amount b);
        moved = loaded-moved b n c h e;
        same_size = length-loaded b c.inside (amount b) there n (omega arith);
        started = omega (arith, here);
        has_bytes = λ _ _. ap not e;
      }

  pub refill-Reads :
      (b : FileBuffer S) (n : ℕ)
      → IsEmpty b
      → n ≤ length b.buffer
      → Reads io law b n (refill io n b)
  refill-Reads b n c h = elim (Bool-cases (amount b == 0)) [
    | inl e ↦ refill_end-Reads b n c h e
    | inr e ↦ refill_more-Reads b n c h e
  ]

  pub Reads-from :
      (b b' : FileBuffer S) (n : ℕ) {o : Option (List ℕ × FileBuffer S)}
      → tellg io b' ≡ tellg io b
      → law.content b'.file ≡ law.content b.file
      → length b'.buffer ≡ length b.buffer
      → Reads io law b' n o
      → Reads io law b n o
  Reads-from b b' n p q l r = record {
    after = r.after;
    result = r.result ∙ (rw (p, q) refl);
    clean = r.clean;
    same_content = r.same_content ∙ q;
    moved = r.moved ∙ (rw (p, q) refl);
    same_size = r.same_size ∙ l;
    started = omega (arith, r.started, p);
    has_bytes = λ ne more. r.has_bytes ne (rw (p, q) more);
  }

  pub discarded :
      {A : Type 0} (b : FileBuffer S) (a : A) (rest : Method S A)
      → b.current_buffer_modified ≡ false
      → unless_failed (discard_buffer io) a rest b ≡ rest (emptied io law b)
  unfolding discard_buffer flush_buffer
  discarded b a rest e = rw e refl

  -- The part of the buffer up to the end of the file.
  pub up_to_end :
      (b : FileBuffer S) (n : ℕ)
      → IsClean io law b
      → filled b ≡ true
      → length (law.content b.file) ≤ b.current_buffer_start + b.current
      → rest_of (law.content b.file) (tellg io b) n
        ≡ rest_of (law.content b.file) (tellg io b) (min n (sub64 b.current b.pos))
  up_to_end b n c f h =
      let rest = drop (tellg io b) (law.content b.file) in
      let long : min n (length rest) ≡ min n (sub64 b.current b.pos) = ground (
        arith,
        length-drop (tellg io b) (law.content b.file),
        tellg_filled io law b f,
        c.small,
        c.in_span,
        c.reach,
      ) in
      sym (take-min n rest) ∙ ap (λ k. take k rest) long

  pub choose_Reads :
      (b : FileBuffer S) (n : ℕ) (t : Bool) (o o' : Option (List ℕ × FileBuffer S))
      → (t ≡ true → Reads io law b n o)
      → (t ≡ false → Reads io law b n o')
      → Reads io law b n (if t then o else o')
  choose_Reads b n true o o' p q = p refl
  choose_Reads b n false o o' p q = q refl
