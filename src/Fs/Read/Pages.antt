-- ===== src/Fs/Read/Pages.antt =====
-- The pages of a file of src/base/SimpleFlashFsBase.h and the bytes that they hold.
use simpleflashfs.Prelude.{
  ℕ, zero, suc, ◌+◌, ◌*◌, ◌≤◌, ◌<◌, ◌≡◌, ◌⊎◌, inl, inr, refl, sym, ap, ◌∙◌, arith, some, List, [],
  ◌∷◌, ◌++◌, ==_iff, if◌then◌else◌, length, drop, length-append, length-take, length-drop,
  length-replicate,
}
use simpleflashfs.Fs.Types.{Config, Fs, DataPage, new, stored}
use simpleflashfs.Fs.Memory.{IsMemory, window}
use simpleflashfs.Fs.Page.{zero_page}
use simpleflashfs.Fs.Page.Copies.{drop-append_add}
use simpleflashfs.Fs.Read.{page_at, is_new, load, load_unless_new, load_if_stored}

drop-page :
    (xs ys : List ℕ) (i k n : ℕ)
    → i ≡ k + 1
    → length xs ≡ n
    → drop (i * n) (xs ++ ys) ≡ drop (k * n) ys
drop-page xs ys i k n s e =
    ap (λ (j : ℕ). drop j (xs ++ ys)) (shift s e) ∙ drop-append_add xs ys (k * n)
  where
    shift : i ≡ k + 1 → length xs ≡ n → i * n ≡ length xs + k * n
    shift s e = rw s (omega arith)

module _ {S : Type 0} (config : Config S) (fs : Fs S) (m : IsMemory config.memory) where
  -- A page that is not yet written reads as zeros.
  abbrev pub page_bytes : DataPage → List ℕ
  page_bytes p =
      if is_new p.state
      then zero_page fs.header.page_size
      else window (fs.header.page_size + p.page_id * fs.header.page_size) fs.header.page_size
          (m.contents fs.mem)

  abbrev pub pages_bytes : List DataPage → List ℕ
  pages_bytes [] = []
  pages_bytes (p ∷ ps) = page_bytes p ++ pages_bytes ps

  -- The page is yet to be written, or stands in the memory.
  abbrev pub IsReadable : DataPage → Type 0
  IsReadable p =
      (p.state ≡ new)
      ⊎ ((p.state ≡ stored)
          × (fs.header.page_size + p.page_id * fs.header.page_size + fs.header.page_size
              ≤ length (m.contents fs.mem)))

  abbrev pub AllReadable : List DataPage → Type 0
  AllReadable [] = Unit {0}
  AllReadable (p ∷ ps) = IsReadable p × AllReadable ps

  pub load_lem :
      (p : DataPage)
      → fs.header.page_size + p.page_id * fs.header.page_size + fs.header.page_size
        ≤ length (m.contents fs.mem)
      → load config fs p
        ≡ some (
            window
              (fs.header.page_size + p.page_id * fs.header.page_size)
              fs.header.page_size
              (m.contents fs.mem))
  unfolding load
  load_lem p inside =
      rw
        (
          m.read_law fs.mem (fs.header.page_size + p.page_id * fs.header.page_size)
              fs.header.page_size inside,
          (==_iff fs.header.page_size fs.header.page_size).1 refl,
        )
        refl

  pub loads :
      (p : DataPage)
      → IsReadable p
      → (load_unless_new config fs p ≡ some (page_bytes p))
        × (load_if_stored config fs p ≡ some (page_bytes p))
        × (length (page_bytes p) ≡ fs.header.page_size)
  unfolding load_unless_new load_if_stored
  loads p (inl e) = rw (e) (refl, refl, length-replicate {A = ℕ} fs.header.page_size 0)
  loads p (inr (e, inside)) = rw (e) (
    load_lem p inside,
    load_lem p inside,
    omega (
      arith,
      length-take fs.header.page_size
          (drop (fs.header.page_size + p.page_id * fs.header.page_size) (m.contents fs.mem)),
      length-drop (fs.header.page_size + p.page_id * fs.header.page_size) (m.contents fs.mem),
    ),
  )

  pub length-pages_bytes :
      (ps : List DataPage)
      → AllReadable ps
      → length (pages_bytes ps) ≡ length ps * fs.header.page_size
  length-pages_bytes [] r = omega arith
  length-pages_bytes (p ∷ ps) (r, rs) =
      let (_, _, size) = loads p r in
      omega (arith, length-append (page_bytes p) (pages_bytes ps), size, length-pages_bytes ps rs)

  -- The page with index k, where the bytes from k pages on begin.
  pub page_at_lem :
      (ps : List DataPage) (k : ℕ)
      → AllReadable ps
      → k < length ps
      → (p : DataPage) × (page_at ps k ≡ some p)
        × IsReadable p
        × (drop (k * fs.header.page_size) (pages_bytes ps)
            ≡ page_bytes p ++ drop ((k + 1) * fs.header.page_size) (pages_bytes ps))
  unfolding page_at
  page_at_lem [] k rs h = absurd (omega arith)
  page_at_lem (p ∷ ps) zero (r, rs) h = (p, refl, r, first (page_bytes p) (pages_bytes ps) size)
    where
      size : length (page_bytes p) ≡ fs.header.page_size
      size = (loads p r).2

      first :
          (xs ys : List ℕ)
          → length xs ≡ fs.header.page_size
          → drop (0 * fs.header.page_size) (xs ++ ys)
            ≡ xs ++ drop ((0 + 1) * fs.header.page_size) (xs ++ ys)
      first xs ys e =
          let z : 0 * fs.header.page_size ≡ 0 = omega arith in
          rw (z, drop-page xs ys 1 0 fs.header.page_size refl e, z) refl
  page_at_lem (p ∷ ps) (suc k) (r, rs) h =
      let (q, at, rq, e) = page_at_lem ps k rs (omega arith) in
      (
        q,
        at,
        rq,
        drop-page (page_bytes p) (pages_bytes ps) (suc k) k fs.header.page_size (omega arith)
              (loads p r).2
            ∙ e
            ∙ ap (λ (l : List ℕ). page_bytes q ++ l)
                (sym (
                  drop-page (page_bytes p) (pages_bytes ps) (suc k + 1) (k + 1) fs.header.page_size
                    (omega arith) (loads p r).2)),
      )
