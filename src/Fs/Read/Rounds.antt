-- ===== src/Fs/Read/Rounds.antt =====
-- The loop of `read` of src/base/SimpleFlashFsBase.h over the pages of a file.
use native.Mathlib.Nat.{mul-div_cancel, lt_of_mul-lt-mul_right}
use simpleflashfs.Prelude.{
  ℕ, zero, suc, ◌+◌, ◌-◌, ◌*◌, ◌/◌, ◌%◌, ◌^◌, min, ◌≤◌, ◌<◌, ◌≡◌, inl, inr, refl, sym, ap, ◌∙◌,
  arith, some, List, ◌++◌, ltb, leb, length, take, drop, length-append, length-take, take-append_le,
  take-append_ge, append_assoc, append-nil, take_all, ltb_of_le, Bool-cases,
}
use simpleflashfs.Fs.Types.{Config, Fs, DataPage}
use simpleflashfs.Fs.Memory.{IsMemory}
use simpleflashfs.Fs.Read.{page_at, Got, advance, round, read_rounds}
use simpleflashfs.Fs.Read.Pages.{
  page_bytes, pages_bytes, IsReadable, AllReadable, loads, page_at_lem,
}

-- The result of reading `n` bytes more, which are in front of `rest`.
abbrev pub further : Got → ℕ → List ℕ → Got
further g n rest = record {
  bytes = g.bytes ++ take n rest;
  file = record g.file { pos = g.file.pos + n };
}

pub nothing_more : (g : Got) (n : ℕ) (rest : List ℕ) → n ≡ 0 → further g n rest ≡ g
nothing_more g n rest e =
    let z : g.file.pos + 0 ≡ g.file.pos = omega arith in simp (e, append-nil, z)

pub further-advance :
    (g : Got) (page tail : List ℕ) (d d' : ℕ)
    → d' + length page ≡ d
    → further (advance g page) d' tail ≡ further g d (page ++ tail)
further-advance g page tail d d' e =
    let pos : g.file.pos + length page + d' ≡ g.file.pos + d = omega arith in
    let rest : d - length page ≡ d' = omega arith in
    rw
      (
        pos,
        append_assoc g.bytes page (take d' tail),
        take-append_ge page tail d (omega arith),
        rest,
      )
      refl

module _ {S : Type 0} (config : Config S) (fs : Fs S) (m : IsMemory config.memory) where
  pub rounds_done :
      (left size : ℕ) (g : Got) → size ≤ length g.bytes → read_rounds config fs left size g ≡ g
  unfolding read_rounds
  rounds_done zero size g h = refl
  rounds_done (suc left) size g h = rw (ltb_of_le (length g.bytes) size h) refl

  round_lem :
      (size k : ℕ) (g : Got) (p : DataPage)
      → 0 < fs.header.page_size
      → fs.header.page_size < 2 ^ 32
      → g.file.pos ≡ k * fs.header.page_size
      → page_at g.file.inode.data_pages k ≡ some p
      → IsReadable config fs m p
      → round config fs size g ≡ some (take (size - length g.bytes) (page_bytes config fs m p))
  unfolding round
  round_lem size k g p some_size word at found readable =
      let (unless_new, if_stored, whole) = loads config fs m p readable in
      let index : g.file.pos / fs.header.page_size ≡ k =
        ap (λ (n : ℕ). n / fs.header.page_size) at ∙ mul-div_cancel k some_size in
      let n = fs.header.page_size in
      let d = size - length g.bytes in
      elim (Bool-cases (ltb size (length g.bytes + n))) [
        | inl e ↦
            let short : min (d % 2 ^ 32) n ≡ d = ground arith in
            rw (index, found, e, if_stored, short) refl
        | inr e ↦
            let all : take d (page_bytes config fs m p) ≡ page_bytes config fs m p =
              take_all (page_bytes config fs m p) d (ground (arith, whole)) in
            rw (index, found, e, unless_new, all) refl
      ]

  last_round :
      (left size : ℕ) (g : Got) (p : DataPage) (tail : List ℕ)
      → length g.bytes ≤ size
      → size - length g.bytes ≤ length (page_bytes config fs m p)
      → read_rounds config fs left size
          (advance g (take (size - length g.bytes) (page_bytes config fs m p)))
        ≡ further g (size - length g.bytes) (page_bytes config fs m p ++ tail)
  last_round left size g p tail more fits =
      let d = size - length g.bytes in
      let page = page_bytes config fs m p in
      let taken : length (take d page) ≡ d = omega (arith, length-take d page) in
      rounds_done left size (advance g (take d page))
        (omega (arith, length-append g.bytes (take d page), taken))
      ∙ rw (taken, take-append_le page tail d fits) refl

  pub read_rounds_lem :
      (left size k : ℕ) (g : Got)
      → AllReadable config fs m g.file.inode.data_pages
      → 0 < fs.header.page_size
      → fs.header.page_size < 2 ^ 32
      → g.file.pos ≡ k * fs.header.page_size
      → size + k * fs.header.page_size
        ≤ length g.bytes + length g.file.inode.data_pages * fs.header.page_size
      → length g.bytes ≤ size
      → size ≤ length g.bytes + left
      → read_rounds config fs left size g
        ≡ further g
            (size - length g.bytes)
            (drop (k * fs.header.page_size) (pages_bytes config fs m g.file.inode.data_pages))
  unfolding read_rounds
  read_rounds_lem zero size k g readable some_size word at inside more enough =
      sym (nothing_more g _ _ (omega arith))
  read_rounds_lem (suc left) size k g readable some_size word at inside more enough =
      elim (Bool-cases (ltb (length g.bytes) size)) [
        | inr e ↦ rw (e) (sym (nothing_more g _ _ (ground arith)))
        | inl e ↦
            let here : k < length g.file.inode.data_pages =
              lt_of_mul-lt-mul_right fs.header.page_size (ground arith) in
            let (p, found, ok_p, cut) =
              page_at_lem config fs m g.file.inode.data_pages k readable here in
            rw (e, round_lem size k g p some_size word at found ok_p, cut)
              (elim (Bool-cases (leb (size - length g.bytes) (length (page_bytes config fs m p)))) [
                | inl fits ↦ last_round left size g p _ (ground arith) (ground arith)
                | inr more_pages ↦
                    let (_, _, whole) = loads config fs m p ok_p in
                    let big : length (page_bytes config fs m p) ≤ size - length g.bytes =
                      ground arith in
                    let grown = length-append g.bytes (page_bytes config fs m p) in
                    ap (λ (b : List ℕ). read_rounds config fs left size (advance g b))
                      (take_all (page_bytes config fs m p) (size - length g.bytes) big)
                    ∙ read_rounds_lem left size (k + 1) (advance g (page_bytes config fs m p))
                        readable some_size word (omega (arith, at, whole))
                        (omega (arith, inside, grown, whole)) (omega (arith, grown, big, more))
                        (omega (arith, grown, whole, enough, some_size))
                    ∙ further-advance g (page_bytes config fs m p) _ (size - length g.bytes) _
                        (omega (arith, grown, big, more))
              ])
      ]
