-- ===== src/Fs/Handle/Shrink.antt =====
-- The branch of `FileHandle::truncate` of src/base/SimpleFlashFsBase.h that shrinks a file.
use native.Mathlib.Nat.{mod-lt, div-add-mod', suc-mul, zero-mul}
use simpleflashfs.Prelude.{
  ℕ, zero, suc, ◌+◌, ◌-◌, ◌*◌, ◌/◌, ◌%◌, ◌^◌, ◌≤◌, ◌<◌, ◌≡◌, refl, ap, sym, ◌∙◌, inl, inr, arith,
  min, true, false, List, [], ◌∷◌, ◌++◌, ◌==◌, ltb, ltb→lt, length, take, if◌then◌else◌, Bool-cases,
  length-take, take-append_le, take-append_ge,
}
use simpleflashfs.Fs.Types.{Config, Fs, File, DataPage}
use simpleflashfs.Fs.Memory.{IsMemory}
use simpleflashfs.Fs.Read.Pages.{pages_bytes, page_bytes, AllReadable, loads}
use simpleflashfs.Fs.Handle.{shrink, shrunk_data}

take-take_ge : (n k : ℕ) (xs : List ℕ) → n ≤ k → take n (take k xs) ≡ take n xs
take-take_ge zero k xs h = refl
take-take_ge (suc n) zero xs h = absurd (omega arith)
take-take_ge (suc n) (suc k) [] h = refl
take-take_ge (suc n) (suc k) (x ∷ xs) h = ap (◌∷◌ x) (take-take_ge n k xs (omega arith))

ceiling : (n d : ℕ) → 0 < d → n ≤ (n + d - 1) / d * d
ceiling n d h = omega (arith, div-add-mod' (n + d - 1) d, mod-lt (n + d - 1) h)

positive : (k n d : ℕ) → 0 < n → n ≤ k * d → 0 < k
positive zero n d h e = absurd (omega (arith, zero-mul d, e))
positive (suc k) n d h e = omega arith

take-shrunk : (n : ℕ) (xs : List ℕ) → take n (shrunk_data n xs) ≡ take n xs
take-shrunk n xs = elim (Bool-cases (ltb n (length xs))) [
  | inl e ↦ rw e (take-take_ge n n xs (omega arith))
  | inr e ↦ rw e refl
]

module _ {S : Type 0} (config : Config S) (fs : Fs S) (m : IsMemory config.memory) where
  take-pages :
      (k n : ℕ) (ps : List DataPage)
      → AllReadable config fs m ps
      → n ≤ k * fs.header.page_size
      → take n (pages_bytes config fs m (take k ps)) ≡ take n (pages_bytes config fs m ps)
  take-pages k zero ps r h = refl
  take-pages zero (suc n) ps r h = absurd (omega arith)
  take-pages (suc k) (suc n) [] r h = refl
  take-pages (suc k) (suc n) (p ∷ ps) (r, rs) h =
      let (_, _, size) = loads config fs m p r in
      let first = page_bytes config fs m p in
      elim (Bool-cases (ltb (length first) (suc n))) [
        | inr e ↦
            let le : suc n ≤ length first = ground arith in
            take-append_le first (pages_bytes config fs m (take k ps)) (suc n) le
            ∙ sym (take-append_le first (pages_bytes config fs m ps) (suc n) le)
        | inl e ↦
            let le : length first ≤ suc n = ground arith in
            let rest =
              take-pages k (suc n - length first) ps rs
                (omega (arith, size, suc-mul k fs.header.page_size, h)) in
            take-append_ge first (pages_bytes config fs m (take k ps)) (suc n) le
            ∙ ap (λ (l : List ℕ). first ++ l) rest
            ∙ sym (take-append_ge first (pages_bytes config fs m ps) (suc n) le)
      ]

  AllReadable-take :
      (k : ℕ) (ps : List DataPage)
      → AllReadable config fs m ps
      → AllReadable config fs m (take k ps)
  AllReadable-take zero ps r = tt
  AllReadable-take (suc k) [] r = tt
  AllReadable-take (suc k) (p ∷ ps) (r, rs) = (r, AllReadable-take k ps rs)

  -- The bytes that a file has, in its pages or in its inode.
  abbrev pub content : File → List ℕ
  content file =
      if length file.inode.data_pages == 0
      then file.inode.inode_data
      else pages_bytes config fs m file.inode.data_pages

  -- A file whose pages can be read, cut to 1 to 2^64 - 2^32 bytes with a page size below 2^32: its
  -- length is n, its position is not behind that, it counts as modified, its pages can be read, and
  -- its first n bytes are those from before.
  pub shrink_lem :
      (n : ℕ) (file : File)
      → 0 < n
      → n ≤ 2 ^ 64 - 2 ^ 32
      → 0 < fs.header.page_size
      → fs.header.page_size < 2 ^ 32
      → AllReadable config fs m file.inode.data_pages
      → let file' = shrink fs.header n file in
        (take n (content file') ≡ take n (content file))
        × (file'.inode.file_len ≡ n)
        × (file'.pos ≡ min file.pos n)
        × (file'.modified ≡ true)
        × AllReadable config fs m file'.inode.data_pages
  unfolding shrink
  shrink_lem n file some_left small wide word r =
      let at : (if ltb n file.pos then n else file.pos) ≡ min file.pos n = ground arith in
      let ps = fs.header.page_size in
      let needed = (n + ps + 2 ^ 64 - 1) % 2 ^ 64 / ps in
      let up : (n + ps + 2 ^ 64 - 1) % 2 ^ 64 ≡ n + ps - 1 = omega arith in
      let enough : n ≤ needed * ps = rw up (ceiling n ps wide) in
      let pages = file.inode.data_pages in
      elim (Bool-cases (length pages == 0)) [
        | inl e ↦ rw e (rw e (take-shrunk n file.inode.inode_data), refl, at, refl, r)
        | inr e ↦ elim (Bool-cases (ltb needed (length pages))) [
          | inl e2 ↦
              let fits : length (take needed pages) ≡ needed =
                omega (arith, length-take needed pages, ltb→lt needed (length pages) e2) in
              let some_pages : (length (take needed pages) == 0) ≡ false =
                ground (arith, fits, positive needed n ps some_left enough) in
              rw (e, e2)
                (
                  rw some_pages (take-pages needed n pages r enough),
                  refl,
                  at,
                  refl,
                  AllReadable-take needed pages r,
                )
          | inr e2 ↦ rw (e, e2) (rw e refl, refl, at, refl, r)
        ]
      ]
