-- ===== src/FileBuffer/Text.antt =====
-- The lines of a text, and what the loop of get_line in src_2face/SimpleFlashFsFileBuffer.h does with
-- a part of one.
use simpleflashfs.Prelude.{
  ℕ, suc, ◌+◌, ◌-◌, ◌≤◌, ◌<◌, ◌≡◌, refl, ap, ◌∙◌, arith, inl, inr, Bool, true, false, Option, none,
  some, List, [], ◌∷◌, ◌++◌, length, ◌==◌, if◌then◌else◌, append_assoc, append-nil, length-append,
  Bool-cases,
}
use simpleflashfs.FileBuffer.Lines.{LineString, newline_at, unfinished, scan}

-- The first line, the number of bytes it takes with its newline, and whether it has one.
abbrev pub line : List ℕ → List ℕ
line [] = []
line (c ∷ rest) = if c == 10 then [] else c ∷ line rest

abbrev pub used : List ℕ → ℕ
used [] = 0
used (c ∷ rest) = if c == 10 then 1 else suc (used rest)

abbrev pub has_newline : List ℕ → Bool
has_newline [] = false
has_newline (c ∷ rest) = if c == 10 then true else has_newline rest

-- The first line of a text, if there is one.
abbrev pub first_line : List ℕ → Option (List ℕ)
first_line [] = none
first_line (c ∷ rest) = some (line (c ∷ rest))

-- `push_back` appends where there is room.
pub record IsLineString (t : LineString) : Type 0 where
  pub push_back_lem :
      (s : List ℕ) (c : ℕ) → length s < t.capacity → t.push_back s c ≡ some (s ++ c ∷ [])

pub line-append_found :
    (xs ys : List ℕ)
    → has_newline xs ≡ true
    → (line (xs ++ ys) ≡ line xs) × (used (xs ++ ys) ≡ used xs)
line-append_found [] ys h = absurd (ground (arith, h))
line-append_found (x ∷ xs) ys h = elim (Bool-cases (x == 10)) [
  | inl e ↦ rw e (refl, refl)
  | inr e ↦
      let rest = line-append_found xs ys (ground (arith, h, e)) in
      rw e (ap (◌∷◌ x) rest.0, ap suc rest.1)
]

pub line-append_none :
    (xs ys : List ℕ)
    → has_newline xs ≡ false
    → (line (xs ++ ys) ≡ xs ++ line ys) × (used (xs ++ ys) ≡ length xs + used ys)
line-append_none [] ys h = (refl, omega arith)
line-append_none (x ∷ xs) ys h = elim (Bool-cases (x == 10)) [
  | inl e ↦ absurd (ground (arith, h, e))
  | inr e ↦
      let rest = line-append_none xs ys (ground (arith, h, e)) in
      rw e (ap (◌∷◌ x) rest.0, omega (arith, rest.1))
]

pub used_bounds : (xs : List ℕ) → has_newline xs ≡ true → (1 ≤ used xs) × (used xs ≤ length xs)
used_bounds [] h = absurd (ground (arith, h))
used_bounds (x ∷ xs) h = elim (Bool-cases (x == 10)) [
  | inl e ↦ rw e (omega arith)
  | inr e ↦ let rest = used_bounds xs (ground (arith, h, e)) in rw e (omega (arith, rest.1))
]

module _ (t : LineString) (s : IsLineString t) where
  scan_newline :
      (ret xs : List ℕ) (x i : ℕ) → (x == 10) ≡ true → scan t ret (x ∷ xs) i ≡ newline_at ret i
  unfolding scan
  scan_newline ret xs x i e = rw (e, scan) refl

  scan_char :
      (ret xs : List ℕ) (x i : ℕ)
      → (x == 10) ≡ false
      → length ret < t.capacity
      → scan t ret (x ∷ xs) i ≡ scan t (ret ++ x ∷ []) xs (i + 1)
  unfolding scan
  scan_char ret xs x i e h = rw (e, scan, s.push_back_lem ret x h) refl

  pub scan_found :
      (ret xs : List ℕ) (i : ℕ)
      → has_newline xs ≡ true
      → length ret + length (line xs) ≤ t.capacity
      → scan t ret xs i ≡ newline_at (ret ++ line xs) (i + used xs - 1)
  scan_found ret [] i h k = absurd (ground (arith, h))
  scan_found ret (x ∷ xs) i h k = elim (Bool-cases (x == 10)) [
    | inl e ↦ scan_newline ret xs x i e ∙ rw (e, append-nil ret) (ap (newline_at ret) (omega arith))
    | inr e ↦
        let room : length ret + suc (length (line xs)) ≤ t.capacity = rw e at k in
        let ih =
          scan_found (ret ++ x ∷ []) xs (i + 1) (ground (arith, h, e))
            (omega (arith, room, length-append ret (x ∷ []))) in
        let some_used = used_bounds xs (ground (arith, h, e)) in
        let index : i + 1 + used xs - 1 ≡ i + suc (used xs) - 1 = omega (arith, some_used) in
        scan_char ret xs x i e (omega (arith, room))
        ∙ ih
        ∙ rw (e, append_assoc) (ap (newline_at (ret ++ x ∷ line xs)) index)
  ]

  pub scan_none :
      (ret xs : List ℕ) (i : ℕ)
      → has_newline xs ≡ false
      → length ret + length xs ≤ t.capacity
      → scan t ret xs i ≡ unfinished (ret ++ xs)
  unfolding scan
  scan_none ret [] i h k = rw (append-nil ret) refl
  scan_none ret (x ∷ xs) i h k = elim (Bool-cases (x == 10)) [
    | inl e ↦ absurd (ground (arith, h, e))
    | inr e ↦
        let ih =
          scan_none (ret ++ x ∷ []) xs (i + 1) (ground (arith, h, e))
            (omega (arith, k, length-append ret (x ∷ []))) in
        scan_char ret xs x i e (omega (arith, k)) ∙ ih ∙ rw append_assoc refl
  ]
