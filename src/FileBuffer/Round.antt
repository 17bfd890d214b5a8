-- ===== src/FileBuffer/Round.antt =====
-- A round of the loop in get_line of src_2face/SimpleFlashFsFileBuffer.h.
use simpleflashfs.Prelude.{
  ℕ, zero, suc, ◌+◌, ◌-◌, ◌≤◌, ◌≡◌, ◌≢◌, refl, sym, ap, ◌∙◌, arith, inl, inr, Bool, true, false,
  ◌||◌, Option, some, none, List, [], ◌∷◌, ◌++◌, length, take, drop, leb, ◌==◌, Bool-cases,
  take-append-drop, append-nil, append_assoc, length-append,
}
use simpleflashfs.Prelude.Parts.{drop-drop, drop-length-take}
use simpleflashfs.FileBuffer.Types.{FileInterface, FileBuffer, ◌>>=◌, ◌>>◌}
use simpleflashfs.FileBuffer.{filled, tellg, file_size, eof, read_span, seek}
use simpleflashfs.FileBuffer.Lines.{
  LineString, newline_at, unfinished, scan, what_is_left, size_to_read, get_line_rounds,
}
use simpleflashfs.FileBuffer.Files.{IsFile, rest_of}
use simpleflashfs.FileBuffer.Reading.{IsClean, Reads, file_size_clean, tellg_filled}
use simpleflashfs.FileBuffer.Refill.{tellg_empty}
use simpleflashfs.FileBuffer.Spans.{seek_back}
use simpleflashfs.FileBuffer.Text.{
  line, used, has_newline, IsLineString, line-append_found, line-append_none, used_bounds,
  scan_found, scan_none,
}

-- The line that the loop gives, with the bytes that it has already and those in the file.
abbrev pub line_from : List ℕ → List ℕ → Option (List ℕ)
line_from [] [] = none
line_from (c ∷ ret) [] = some (c ∷ ret)
line_from ret (c ∷ rest) = some (ret ++ line (c ∷ rest))

pub what_is_left_lem : (ret : List ℕ) → what_is_left ret ≡ line_from ret []
unfolding what_is_left
what_is_left_lem [] = refl
what_is_left_lem (c ∷ ret) = refl

line_from-some :
    (ret rest : List ℕ) (n : ℕ)
    → 1 ≤ length (take n rest)
    → line_from ret rest ≡ some (ret ++ line rest)
line_from-some ret [] zero h = absurd (omega arith)
line_from-some ret [] (suc n) h = absurd (omega arith)
line_from-some [] (c ∷ rest) n h = refl
line_from-some (d ∷ ret) (c ∷ rest) n h = refl

-- With the first bytes read, which have no newline.
line_from-append :
    (ret xs rest : List ℕ)
    → 1 ≤ length xs
    → has_newline xs ≡ false
    → line_from (ret ++ xs) rest ≡ some (ret ++ line (xs ++ rest))
line_from-append ret [] rest k h = absurd (omega arith)
line_from-append ret (x ∷ xs) [] k h =
    rw ((line-append_none (x ∷ xs) [] h).0, append-nil (x ∷ xs)) (ends ret)
  where
    ends : (ret : List ℕ) → line_from (ret ++ x ∷ xs) [] ≡ some (ret ++ x ∷ xs)
    ends [] = refl
    ends (r ∷ ret) = refl
line_from-append ret (x ∷ xs) (c ∷ rest) k h =
    line_from-some (ret ++ x ∷ xs) (c ∷ rest) 1 (omega arith)
    ∙ rw ((line-append_none (x ∷ xs) (c ∷ rest) h).0, append_assoc) refl

pub take-nil : (n : ℕ) → take {A = ℕ} n [] ≡ []
take-nil zero = refl
take-nil (suc n) = refl

pub cons_of : (xs : List ℕ) → 1 ≤ length xs → (c : ℕ) × (rest : List ℕ) × (xs ≡ c ∷ rest)
cons_of [] h = absurd (omega arith)
cons_of (x ∷ xs) h = (x, xs, refl)

module _ {S : Type 0} (io : FileInterface S) (law : IsFile io) (t : LineString)
    (s : IsLineString t) where
  abbrev pub rest_at : FileBuffer S → List ℕ
  rest_at b = drop (tellg io b) (law.content b.file)

  -- An outcome that has the line, and is behind it.
  pub record Gets (ret : List ℕ) (b : FileBuffer S) (o : Option (Option (List ℕ) × FileBuffer S))
      : Type 0 where
    pub after : FileBuffer S
    pub result : o ≡ some (line_from ret (drop (tellg io b) (law.content b.file)), after)
    pub clean : IsClean io law after
    pub same_content : law.content after.file ≡ law.content b.file
    pub moved : tellg io after ≡ tellg io b + used (drop (tellg io b) (law.content b.file))
    pub same_size : length after.buffer ≡ length b.buffer

  eof_filled :
      (b : FileBuffer S)
      → filled b ≡ true
      → eof io b ≡ leb (file_size io b) (b.current_buffer_start + b.pos)
  unfolding eof
  eof_filled b f = rw f refl

  eof_empty : (b : FileBuffer S) → filled b ≡ false → eof io b ≡ io.eof b.file
  unfolding eof
  eof_empty b f = rw f refl

  -- Where the buffer is empty, there is not just one byte left.
  abbrev pub NotLast : FileBuffer S → Type 0
  NotLast b = filled b ≡ false → length (law.content b.file) ≢ tellg io b + 1

  pub eof_lem :
      (b : FileBuffer S)
      → IsClean io law b
      → NotLast b
      → eof io b ≡ true
      → length (law.content b.file) ≤ tellg io b
  eof_lem b c last e = elim (Bool-cases (filled b)) [
    | inl f ↦ ground (arith, eof_filled b f, e, file_size_clean io law b c, tellg_filled io law b f)
    | inr f ↦
        let at = tellg_empty io law b (ground (arith, f)) in
        omega (arith, last f, law.eof_lem b.file (sym (eof_empty b f) ∙ e), at)
  ]

  abbrev pub stops : FileBuffer S → Bool
  stops b = eof io b || (size_to_read t (length b.buffer) == 0)

  pub round_nothing :
      (fuel : ℕ) (ret : List ℕ) (b b' : FileBuffer S)
      → stops b ≡ false
      → read_span io (size_to_read t (length b.buffer)) b ≡ some ([], b')
      → get_line_rounds t io (suc fuel) ret b ≡ some (what_is_left ret, b')
  unfolding get_line_rounds
  round_nothing fuel ret b b' go e = rw (get_line_rounds, go, e) refl

  pub round_stop :
      (fuel : ℕ) (ret : List ℕ) (b : FileBuffer S)
      → stops b ≡ true
      → get_line_rounds t io (suc fuel) ret b ≡ some (what_is_left ret, b)
  unfolding get_line_rounds
  round_stop fuel ret b e = rw (e, get_line_rounds) refl

  module _ (fuel : ℕ) (ret : List ℕ) (b b' : FileBuffer S) (c : ℕ) (bytes : List ℕ)
      (go : stops b ≡ false)
      (read : read_span io (size_to_read t (length b.buffer)) b ≡ some (c ∷ bytes, b')) where
    round_found :
        (l : List ℕ) (i : ℕ) (b'' : FileBuffer S)
        → scan t ret (c ∷ bytes) 0 ≡ newline_at l i
        → seek io (tellg io b + i + 1) b' ≡ some (true, b'')
        → get_line_rounds t io (suc fuel) ret b ≡ some (some l, b'')
    unfolding get_line_rounds
    round_found l i b'' e f = rw (get_line_rounds, go, read, e, ◌>>◌, ◌>>=◌, f) refl

    round_more :
        (ret' : List ℕ)
        → scan t ret (c ∷ bytes) 0 ≡ unfinished ret'
        → get_line_rounds t io (suc fuel) ret b ≡ get_line_rounds t io fuel ret' b'
    unfolding get_line_rounds
    round_more ret' e = rw (get_line_rounds, go, read, e) refl

  abbrev pub span : FileBuffer S → ℕ
  span b = size_to_read t (length b.buffer)

  module _ (ret : List ℕ) (b : FileBuffer S) (clean : IsClean io law b) (c : ℕ) (bytes : List ℕ)
      (some_bytes : rest_of (law.content b.file) (tellg io b) (span b) ≡ c ∷ bytes)
      (go : stops b ≡ false) (r : Reads io law b (span b) (read_span io (span b) b)) where
    rest_behind : rest_at r.after ≡ drop (span b) (rest_at b)
    rest_behind =
        rw (r.same_content, r.moved)
          (sym (
              drop-drop (length (rest_of (law.content b.file) (tellg io b) (span b))) (tellg io b)
                (law.content b.file))
            ∙ drop-length-take (span b) (rest_at b))

    -- The rest of the file behind the span.
    behind : rest_at b ≡ (c ∷ bytes) ++ rest_at r.after
    behind = sym (take-append-drop (span b) (rest_at b)) ∙ rw (some_bytes, rest_behind) refl

    pub span_moved : tellg io r.after ≡ tellg io b + length (c ∷ bytes)
    span_moved = r.moved ∙ ap (λ xs. tellg io b + length xs) some_bytes

    line_of_rest : line_from ret (rest_at b) ≡ some (ret ++ line (rest_at b))
    line_of_rest = line_from-some ret (rest_at b) (span b) (omega (arith, ap length some_bytes))

    pub found_Gets :
        (fuel : ℕ)
        → has_newline (c ∷ bytes) ≡ true
        → length ret + length (line (rest_at b)) ≤ t.capacity
        → filled r.after ≡ true
        → Gets ret b (get_line_rounds t io (suc fuel) ret b)
    found_Gets fuel h room f =
        let lem = line-append_found (c ∷ bytes) (rest_at r.after) h in
        let same_line : line (rest_at b) ≡ line (c ∷ bytes) = ap line behind ∙ lem.0 in
        let same_used : used (rest_at b) ≡ used (c ∷ bytes) = ap used behind ∙ lem.1 in
        let bounds = used_bounds (c ∷ bytes) h in
        let i = 0 + used (c ∷ bytes) - 1 in
        let sought =
          seek_back io law r.after (tellg io b + i + 1) r.clean (omega (arith, r.started))
            (omega (arith, span_moved, bounds)) f in
        let scanned = scan_found t s ret (c ∷ bytes) 0 h (rw same_line at room) in
        record {
          after = sought.after;
          result =
              round_found fuel ret b r.after c bytes go (r.result ∙ rw some_bytes refl)
                (ret ++ line (c ∷ bytes)) i sought.after scanned sought.result
              ∙ rw (line_of_rest, same_line) refl;
          clean = sought.clean;
          same_content = sought.same_content ∙ r.same_content;
          moved = omega (arith, sought.there, same_used, bounds);
          same_size = sought.same_size ∙ r.same_size;
        }

    pub more_Gets :
        (fuel : ℕ)
        → has_newline (c ∷ bytes) ≡ false
        → length ret + length (line (rest_at b)) ≤ t.capacity
        → (length (ret ++ c ∷ bytes) + length (line (rest_at r.after)) ≤ t.capacity
            → Gets
                (ret ++ c ∷ bytes)
                r.after
                (get_line_rounds t io fuel (ret ++ c ∷ bytes) r.after))
        → Gets ret b (get_line_rounds t io (suc fuel) ret b)
    more_Gets fuel h room ih =
        let lem = line-append_none (c ∷ bytes) (rest_at r.after) h in
        let same_line : line (rest_at b) ≡ (c ∷ bytes) ++ line (rest_at r.after) =
          ap line behind ∙ lem.0 in
        let same_used : used (rest_at b) ≡ length (c ∷ bytes) + used (rest_at r.after) =
          ap used behind ∙ lem.1 in
        let long = length-append (c ∷ bytes) (line (rest_at r.after)) in
        let room' : length ret + length ((c ∷ bytes) ++ line (rest_at r.after)) ≤ t.capacity =
          rw same_line at room in
        let scanned = scan_none t s ret (c ∷ bytes) 0 h (omega (arith, room', long)) in
        let g = ih (omega (arith, room', long, length-append ret (c ∷ bytes))) in
        record {
          after = g.after;
          result =
              round_more fuel ret b r.after c bytes go (r.result ∙ rw some_bytes refl)
                (ret ++ c ∷ bytes) scanned
              ∙ g.result
              ∙ ap (λ l. some (l, g.after))
                  (line_from-append ret (c ∷ bytes) (rest_at r.after) (omega arith) h
                    ∙ ap (λ l. some (ret ++ line l)) (sym behind)
                    ∙ sym line_of_rest);
          clean = g.clean;
          same_content = g.same_content ∙ r.same_content;
          moved = omega (arith, g.moved, same_used, span_moved);
          same_size = g.same_size ∙ r.same_size;
        }
