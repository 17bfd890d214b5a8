-- ===== src/FileBuffer/Copies.antt =====
-- memcpy into the buffer of src_2face/SimpleFlashFsFileBuffer.cc, and of the buffer into the file.
use simpleflashfs.Prelude.{
  ℕ, zero, suc, ◌+◌, ◌-◌, ◌≤◌, ◌≡◌, refl, sym, ap, ap₂, ◌∙◌, arith, List, [], ◌∷◌, ◌++◌, length,
  take, drop, append-nil, ◌⊎◌, inl, inr, take-append-drop, append_assoc, length-append, length-take,
  length-drop, take-append_self, drop_all,
}
use simpleflashfs.Prelude.Parts.{drop-length-take}
use simpleflashfs.FileBuffer.{copied}

drop_shift : (s k c : ℕ) (xs : List ℕ) → drop (suc s + k) (c ∷ xs) ≡ drop (s + k) xs
drop_shift s k c xs = let e : suc s + k ≡ suc (s + k) = omega arith in rw e refl

copied-cons :
    (c : ℕ) (xs : List ℕ) (at : ℕ) (bytes : List ℕ)
    → copied (c ∷ xs) (suc at) bytes ≡ c ∷ copied xs at bytes
copied-cons c xs at bytes =
    ap (λ rest. c ∷ (take at xs ++ (bytes ++ rest))) (drop_shift at (length bytes) c xs)

pub length-copied :
    (xs : List ℕ) (at : ℕ) (bytes : List ℕ)
    → at + length bytes ≤ length xs
    → length (copied xs at bytes) ≡ length xs
length-copied xs at bytes h = omega (
  arith,
  length-append (take at xs) (bytes ++ drop (at + length bytes) xs),
  length-append bytes (drop (at + length bytes) xs),
  length-take at xs,
  length-drop (at + length bytes) xs,
)

length-copied_any :
    (xs : List ℕ) (at : ℕ) (bytes : List ℕ)
    → at ≤ length xs
    → length (copied xs at bytes) ≡ at + length bytes + (length xs - (at + length bytes))
length-copied_any xs at bytes h = omega (
  arith,
  length-append (take at xs) (bytes ++ drop (at + length bytes) xs),
  length-append bytes (drop (at + length bytes) xs),
  length-take at xs,
  length-drop (at + length bytes) xs,
)

pub copied-reach :
    (xs : List ℕ) (at : ℕ) (bytes : List ℕ)
    → at ≤ length xs
    → at + length bytes ≤ length (copied xs at bytes)
copied-reach xs at bytes h = omega (
  arith,
  length-append (take at xs) (bytes ++ drop (at + length bytes) xs),
  length-append bytes (drop (at + length bytes) xs),
  length-take at xs,
)

drop_over :
    (k : ℕ) (xs content : List ℕ)
    → drop k (xs ++ drop (length xs) content) ≡ drop k xs ++ drop (k + length (drop k xs)) content
drop_over zero xs content = let e : 0 + length xs ≡ length xs = omega arith in rw e refl
drop_over (suc k) [] content = let e : suc k + 0 ≡ suc k = omega arith in rw e refl
drop_over (suc k) (x ∷ xs) [] =
    rw (drop_all {A = ℕ} [] (suc k + length (drop k xs)) (omega arith))
      (rw (append-nil xs, append-nil (drop k xs)) refl)
drop_over (suc k) (x ∷ xs) (c ∷ content) =
    drop_over k xs content
    ∙ ap (λ rest. drop k xs ++ rest) (sym (drop_shift k (length (drop k xs)) c content))

over_front :
    (p : ℕ) (content xs bytes : List ℕ)
    → p ≤ length xs
    → copied (xs ++ drop (length xs) content) p bytes
      ≡ copied xs p bytes ++ drop (length (copied xs p bytes)) content
over_front zero content xs bytes h =
    let e : 0 + length bytes ≡ length bytes = omega arith in
    rw (e, drop_over (length bytes) xs content, length-append, append_assoc) refl
over_front (suc p) content [] bytes h = absurd (omega arith)
over_front (suc p) [] (x ∷ xs) bytes h =
    copied-cons x (xs ++ []) p bytes
    ∙ rw (append-nil xs, append-nil (copied (x ∷ xs) (suc p) bytes))
        (sym (copied-cons x xs p bytes))
over_front (suc p) (c ∷ content) (x ∷ xs) bytes h =
    copied-cons x (xs ++ drop (length xs) content) p bytes
    ∙ ap (◌∷◌ x) (over_front p content xs bytes (omega arith))
    ∙ ap (λ v. v ++ drop (length v) (c ∷ content)) (sym (copied-cons x xs p bytes))

-- Bytes that are copied into bytes that are copied into a text.
pub copied-copied :
    (s p : ℕ) (content xs bytes : List ℕ)
    → s ≤ length content
    → p ≤ length xs
    → copied (copied content s xs) (s + p) bytes ≡ copied content s (copied xs p bytes)
copied-copied zero p content xs bytes h k =
    let e : 0 + p ≡ p = omega arith in
    let e' : 0 + length xs ≡ length xs = omega arith in
    let e'' : 0 + length (copied xs p bytes) ≡ length (copied xs p bytes) = omega arith in
    rw (e, e', e'') (over_front p content xs bytes k)
copied-copied (suc s) p [] xs bytes h k = absurd (omega arith)
copied-copied (suc s) p (c ∷ content) xs bytes h k =
    let e : suc s + p ≡ suc (s + p) = omega arith in
    ap₂ (λ v at. copied v at bytes) (copied-cons c content s xs) e
    ∙ copied-cons c (copied content s xs) (s + p) bytes
    ∙ ap (◌∷◌ c) (copied-copied s p content xs bytes (omega arith) k)
    ∙ sym (copied-cons c content s (copied xs p bytes))

-- What is copied into a buffer, as copied into its first bytes.
pub take-copied :
    (buffer : List ℕ) (current pos e : ℕ) (bytes : List ℕ)
    → pos ≤ current
    → current ≤ length buffer
    → (e ≡ current) × (pos + length bytes ≤ current)
      ⊎ ((current ≤ pos + length bytes) × (e ≡ pos + length bytes))
    → take e (copied buffer pos bytes) ≡ copied (take current buffer) pos bytes
take-copied buffer current pos e bytes h k c =
    let first = take current buffer in
    let short : length first ≡ current = omega (arith, length-take current buffer) in
    let whole : first ++ drop (length first) buffer ≡ buffer =
      ap (λ n. first ++ drop n buffer) short ∙ take-append-drop current buffer in
    ap (λ v. take e (copied v pos bytes)) (sym whole)
    ∙ ap (take e) (over_front pos buffer first bytes (omega (arith, short)))
    ∙ take-append_self (copied first pos bytes) (drop (length (copied first pos bytes)) buffer) e
        (reach (length-copied_any first pos bytes (omega (arith, short))) short c)
  where
    reach :
        {n f : ℕ}
        → n ≡ pos + length bytes + (f - (pos + length bytes))
        → f ≡ current
        → (e ≡ current) × (pos + length bytes ≤ current)
          ⊎ ((current ≤ pos + length bytes) × (e ≡ pos + length bytes))
        → n ≡ e
    reach p q (inl a) = omega (arith, p, q, a)
    reach p q (inr a) = omega (arith, p, q, a)

-- Where the bytes are in the text already, so are the first of them.
pub copied-take :
    (s p : ℕ) (content xs : List ℕ)
    → s ≤ length content
    → copied content s xs ≡ content
    → copied content s (take p xs) ≡ content
copied-take s p content xs h e =
    let here : s + 0 ≡ s = omega arith in
    let none_new : copied xs 0 (take p xs) ≡ xs =
      ap (λ n. take p xs ++ drop n xs) (omega arith)
      ∙ ap (λ v. take p xs ++ v) (drop-length-take p xs)
      ∙ take-append-drop p xs in
    ap (λ v. copied v s (take p xs)) (sym e)
    ∙ ap (λ at. copied (copied content s xs) at (take p xs)) (sym here)
    ∙ copied-copied s 0 content xs (take p xs) h (omega arith)
    ∙ ap (copied content s) none_new
    ∙ e
