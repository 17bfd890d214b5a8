-- ===== src/Ini/Lookup.antt =====
-- An ini file as the list of its settings, and the pass of src_2face/SimpleIni.cc over its lines.
use simpleflashfs.Prelude.{
  ℕ, ◌≡◌, refl, ap, ◌∙◌, inl, inr, Bool, true, false, ◌&&◌, Option, none, some, List, [], ◌∷◌, ◌++◌,
  drop, ◌==◌, if◌then◌else◌, Bool-cases, Option-cases,
}
use simpleflashfs.Fs.Header.{same_bytes}
use simpleflashfs.FileBuffer.Text.{line, used}
use simpleflashfs.Ini.{
  Ini, Step, go_on, stop, visible, is_section, has_key, get_section_name, get_key_value, read_line,
  read_visible,
}

-- The lines of a text, with or without a newline behind the last one.
abbrev longer : ℕ → List (List ℕ) → List (List ℕ)
longer c [] = (c ∷ []) ∷ []
longer c (l ∷ ls) = (c ∷ l) ∷ ls

abbrev pub lines : List ℕ → List (List ℕ)
lines [] = []
lines (c ∷ rest) = if c == 10 then [] ∷ lines rest else longer c (lines rest)

pub lines-cons :
    (c : ℕ) (rest : List ℕ)
    → lines (c ∷ rest) ≡ line (c ∷ rest) ∷ lines (drop (used (c ∷ rest)) (c ∷ rest))
lines-cons c [] = elim (Bool-cases (c == 10)) [ inl e ↦ rw e refl | inr e ↦ rw e refl ]
lines-cons c (d ∷ rest) = elim (Bool-cases (c == 10)) [
  | inl e ↦ rw e refl
  | inr e ↦ rw e (ap (longer c) (lines-cons d rest))
]

-- A key and its value in a section; there is none before the first section.
pub record Setting : Type 0 where
  pub section : Option (List ℕ)
  pub key : List ℕ
  pub value : List ℕ

abbrev pub is_in : Option (List ℕ) → List ℕ → Bool
is_in none section = false
is_in (some name) section = same_bytes name section

-- The first setting of the key in the section.
abbrev pub lookup : List ℕ → List ℕ → List Setting → Option (List ℕ)
lookup section key [] = none
lookup section key (s ∷ rest) =
    if is_in s.section section && same_bytes s.key key
    then some s.value
    else lookup section key rest

module _ {S : Type 0} (ini : Ini S) where
  -- The section behind a line, and what the line sets.
  abbrev pub section_after : Option (List ℕ) → Option (List ℕ) → Option (List ℕ)
  section_after current none = current
  section_after current (some sv_line) =
      if is_section ini sv_line then some (get_section_name ini sv_line) else current

  abbrev pub setting_of : Option (List ℕ) → Option (List ℕ) → List Setting
  setting_of current none = []
  setting_of current (some sv_line) =
      if is_section ini sv_line
      then []
      else (if has_key ini sv_line
          then record {
            section = current;
            key = (get_key_value ini sv_line).0;
            value = (get_key_value ini sv_line).1;
          }
            ∷ []
          else [])

  abbrev pub settings : Option (List ℕ) → List (List ℕ) → List Setting
  settings current [] = []
  settings current (l ∷ ls) =
      setting_of current (visible ini l) ++ settings (section_after current (visible ini l)) ls

  -- The pass of `read` over the lines.
  abbrev pub read_lines : List ℕ → List ℕ → Bool → List (List ℕ) → Option (List ℕ)
  read_lines section key found [] = none
  read_lines section key found (l ∷ ls) = elim (read_line ini section key found l) [
    | go_on found' ↦ read_lines section key found' ls
    | stop value ↦ some value
  ]

  abbrev after_step : Step → List ℕ → List ℕ → List (List ℕ) → Option (List ℕ)
  after_step (go_on found) section key ls = read_lines section key found ls
  after_step (stop value) section key ls = some value

  module _ (section key sv_line : List ℕ) where
    visible_section :
        (found : Bool)
        → is_section ini sv_line ≡ true
        → read_visible ini section key found sv_line
          ≡ go_on (same_bytes (get_section_name ini sv_line) section)
    unfolding read_visible
    visible_section found e = rw (e, read_visible) refl

    visible_other :
        (found : Bool)
        → is_section ini sv_line ≡ false
        → has_key ini sv_line ≡ false
        → read_visible ini section key found sv_line ≡ go_on found
    unfolding read_visible
    visible_other true e k = rw (e, k, read_visible) refl
    visible_other false e k = rw (e, read_visible) refl

    visible_key :
        (found : Bool)
        → is_section ini sv_line ≡ false
        → has_key ini sv_line ≡ true
        → read_visible ini section key found sv_line ≡ (
            if found && same_bytes (get_key_value ini sv_line).0 key
            then stop (get_key_value ini sv_line).1
            else go_on found)
    unfolding read_visible
    visible_key true e k = rw (e, k, read_visible) refl
    visible_key false e k = rw (e, read_visible) refl

    visible_step :
        (current : Option (List ℕ)) (ls : List (List ℕ))
        → ((next : Option (List ℕ))
            → read_lines section key (is_in next section) ls
              ≡ lookup section key (settings next ls))
        → after_step (read_visible ini section key (is_in current section) sv_line) section key ls
          ≡ lookup section key (
              setting_of current (some sv_line)
              ++ settings (section_after current (some sv_line)) ls)
    visible_step current ls ih = elim (Bool-cases (is_section ini sv_line)) [
      | inl e ↦
          rw (visible_section (is_in current section) e, e)
            (ih (some (get_section_name ini sv_line)))
      | inr e ↦ elim (Bool-cases (has_key ini sv_line)) [
        | inr k ↦ rw (visible_other (is_in current section) e k, e, k) (ih current)
        | inl k ↦
            elim (Bool-cases
              (is_in current section && same_bytes (get_key_value ini sv_line).0 key)) [
                | inl m ↦ rw (visible_key (is_in current section) e k, e, k, m) refl
                | inr m ↦ rw (visible_key (is_in current section) e k, e, k, m) (ih current)
              ]
      ]
    ]

  read_lines-cons :
      (section key : List ℕ) (found : Bool) (l : List ℕ) (ls : List (List ℕ))
      → read_lines section key found (l ∷ ls)
        ≡ after_step (read_line ini section key found l) section key ls
  read_lines-cons section key found l ls = cases (read_line ini section key found l)
    where
      cases :
          (step : Step)
          → (elim step [
            | go_on found' ↦ read_lines section key found' ls
            | stop value ↦ some value
          ])
            ≡ after_step step section key ls
      cases (go_on found') = refl
      cases (stop value) = refl

  pub read_lines-go_on :
      (section key : List ℕ) (found found' : Bool) (l : List ℕ) (ls : List (List ℕ))
      → read_line ini section key found l ≡ go_on found'
      → read_lines section key found (l ∷ ls) ≡ read_lines section key found' ls
  read_lines-go_on section key found found' l ls e =
      read_lines-cons section key found l ls ∙ rw e refl

  pub read_lines-stop :
      (section key : List ℕ) (found : Bool) (value l : List ℕ) (ls : List (List ℕ))
      → read_line ini section key found l ≡ stop value
      → read_lines section key found (l ∷ ls) ≡ some value
  read_lines-stop section key found value l ls e =
      read_lines-cons section key found l ls ∙ rw e refl

  read_line-none :
      (section key : List ℕ) (found : Bool) (l : List ℕ)
      → visible ini l ≡ none
      → read_line ini section key found l ≡ go_on found
  unfolding read_line
  read_line-none section key found l e = rw (e, read_line) refl

  read_line-some :
      (section key : List ℕ) (found : Bool) (l sv_line : List ℕ)
      → visible ini l ≡ some sv_line
      → read_line ini section key found l ≡ read_visible ini section key found sv_line
  unfolding read_line
  read_line-some section key found l sv_line e = rw (e, read_line) refl

  -- The pass stops at the first setting of the key in the section.
  pub read_lines-eq-lookup :
      (section key : List ℕ) (current : Option (List ℕ)) (ls : List (List ℕ))
      → read_lines section key (is_in current section) ls ≡ lookup section key (settings current ls)
  read_lines-eq-lookup section key current [] = refl
  read_lines-eq-lookup section key current (l ∷ ls) =
      let ih = λ (next : Option (List ℕ)). read_lines-eq-lookup section key next ls in
      read_lines-cons section key (is_in current section) l ls
      ∙ elim (Option-cases (visible ini l)) [
        | inl e ↦ rw (read_line-none section key (is_in current section) l e, e) (ih current)
        | inr (sv_line, e) ↦
            rw (read_line-some section key (is_in current section) l sv_line e, e)
              (visible_step section key sv_line current ls ih)
      ]
