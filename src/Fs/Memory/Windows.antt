-- ===== src/Fs/Memory/Windows.antt =====
-- Windows of a list of which some bytes were replaced: those apart from them, and their own.
use simpleflashfs.Prelude.Parts.{take-take_le, drop-drop}
use simpleflashfs.Prelude.{
  ℕ, zero, suc, ◌+◌, ◌-◌, ◌≤◌, ◌≡◌, ap, ◌∙◌, arith, List, [], ◌∷◌, ◌++◌, length, take, drop,
  length-append, length-take, length-drop, take-append_le, take-append_self,
}
use simpleflashfs.Fs.Page.Copies.{drop-append_add}
use simpleflashfs.Fs.Memory.{window, overlay}

pub length-overlay :
    (b : ℕ) (d c : List ℕ) → b + length d ≤ length c → length (overlay b d c) ≡ length c
length-overlay b d c h = omega (
  arith,
  length-append (take b c) (d ++ drop (b + length d) c),
  length-append d (drop (b + length d) c),
  length-take b c,
  length-drop (b + length d) c,
)

pub window-overlay_before :
    (a n b : ℕ) (d c : List ℕ)
    → a + n ≤ b
    → b ≤ length c
    → window a n (overlay b d c) ≡ window a n c
window-overlay_before zero n b d c h fits =
    take-append_le (take b c) (d ++ drop (b + length d) c) n (omega (arith, length-take b c))
    ∙ take-take_le n b c (omega arith)
window-overlay_before (suc a) n zero d c h fits = absurd (omega arith)
window-overlay_before (suc a) n (suc b) d [] h fits = absurd (omega arith)
window-overlay_before (suc a) n (suc b) d (x ∷ c) h fits =
    let e : suc b + length d ≡ suc (b + length d) = omega arith in
    rw e (window-overlay_before a n b d c (omega arith) (omega arith))

pub window-overlay_behind :
    (a n b : ℕ) (d c : List ℕ)
    → b + length d ≤ a
    → b ≤ length c
    → window a n (overlay b d c) ≡ window a n c
window-overlay_behind a n b d c h fits =
    let k = a - b - length d in
    let e : a ≡ length (take b c) + (length d + k) = omega (arith, length-take b c) in
    let e2 : b + length d + k ≡ a = omega arith in
    ap (take n) (
      ap (λ (i : ℕ). drop i (overlay b d c)) e
      ∙ drop-append_add (take b c) (d ++ drop (b + length d) c) (length d + k)
      ∙ drop-append_add d (drop (b + length d) c) k
      ∙ drop-drop k (b + length d) c
      ∙ ap (λ (i : ℕ). drop i c) e2)

pub window-overlay_self :
    (n b : ℕ) (d c : List ℕ) → length d ≡ n → b ≤ length c → window b n (overlay b d c) ≡ d
window-overlay_self n b d c size fits =
    let e : b ≡ length (take b c) + 0 = omega (arith, length-take b c) in
    ap (take n) (
      ap (λ (i : ℕ). drop i (overlay b d c)) e
      ∙ drop-append_add (take b c) (d ++ drop (b + length d) c) 0)
    ∙ take-append_self d (drop (b + length d) c) n size
