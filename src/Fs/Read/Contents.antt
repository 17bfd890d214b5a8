-- ===== src/Fs/Read/Contents.antt =====
-- What `read` of src/base/SimpleFlashFsBase.h returns: the bytes of the file from its position on.
use native.Mathlib.Nat.{lt_of_mul-lt-mul_right, div-add-mod', mod-lt}
use simpleflashfs.Prelude.{
  ℕ, zero, suc, ◌+◌, ◌-◌, ◌*◌, ◌/◌, ◌%◌, ◌^◌, min, ◌≤◌, ◌<◌, ◌≡◌, ◌≢◌, inl, inr, refl, sym, ap, ◌∙◌,
  arith, Bool, true, false, not, ◌&&◌, some, List, [], ◌∷◌, ◌++◌, ltb, leb, ◌==◌, if◌then◌else◌,
  length, take, drop, length-take, length-drop, take-append_le, take_all, drop_all, Bool-cases,
}
use simpleflashfs.Prelude.Parts.{drop-drop}
use simpleflashfs.Fs.Types.{Config, Fs, File, DataPage}
use simpleflashfs.Fs.Memory.{IsMemory}
use simpleflashfs.Fs.Read.{
  page_at, Got, advance, read_rounds, read_unaligned, read_behind, read_pages, read_inline,
  read_clamped, read,
}
use simpleflashfs.Fs.Inode.{get_inode_data_space_size}
use simpleflashfs.Fs.Read.Pages.{
  page_bytes, pages_bytes, IsReadable, AllReadable, loads, page_at_lem,
}
use simpleflashfs.Fs.Read.Rounds.{
  further, rounds_done, read_rounds_lem, nothing_more, further-advance,
}

drop_nil : (n : ℕ) → drop {A = ℕ} n [] ≡ []
drop_nil n = drop_all {A = ℕ} [] n (omega arith)

drop_add : (a b : ℕ) (xs : List ℕ) → drop (a + b) xs ≡ drop b (drop a xs)
drop_add a b xs = sym (drop-drop b a xs)

drop-append_le : (n : ℕ) (xs ys : List ℕ) → n ≤ length xs → drop n (xs ++ ys) ≡ drop n xs ++ ys
drop-append_le zero xs ys h = refl
drop-append_le (suc n) [] ys h = absurd (omega arith)
drop-append_le (suc n) (x ∷ xs) ys h = drop-append_le n xs ys (omega arith)

-- The number of bytes that `read` takes, for a position that is not behind the end.
clamp :
    (size len pos : ℕ)
    → len < 2 ^ 64
    → pos ≤ len
    → (if ltb ((len + 2 ^ 64 - pos % 2 ^ 64) % 2 ^ 64) size
        then (len + 2 ^ 64 - pos % 2 ^ 64) % 2 ^ 64
        else size)
      ≡ min size (len - pos)
clamp size len pos word inside = ground arith

neither : (a b : Bool) → (a && b && false) ≡ false
neither true true = refl
neither true false = refl
neither false b = refl

module _ {S : Type 0} (config : Config S) (fs : Fs S) (m : IsMemory config.memory) where
  abbrev none_yet : File → Got
  none_yet file = record { bytes = []; file = file }

  read_unaligned_lem :
      (size : ℕ) (file : File) (p : DataPage)
      → IsReadable config fs m p
      → page_at file.inode.data_pages (file.pos / fs.header.page_size) ≡ some p
      → (file.pos % fs.header.page_size) ≢ 0
      → read_unaligned config fs size file
        ≡ some (
            take
              (min size (fs.header.page_size - file.pos % fs.header.page_size))
              (drop (file.pos % fs.header.page_size) (page_bytes config fs m p)))
  unfolding read_unaligned
  read_unaligned_lem size file p readable found off =
      let (unless_new, _, _) = loads config fs m p readable in
      let e : (file.pos % fs.header.page_size == 0) ≡ false = ground arith in
      rw (e, found, unless_new) refl

  read_unaligned_none :
      (size : ℕ) (file : File)
      → (file.pos % fs.header.page_size == 0) ≡ true
      → read_unaligned config fs size file ≡ some []
  unfolding read_unaligned
  read_unaligned_none size file e = rw e refl

  aligned_lem :
      (size k : ℕ) (file : File)
      → AllReadable config fs m file.inode.data_pages
      → 0 < fs.header.page_size
      → fs.header.page_size < 2 ^ 32
      → file.pos + size ≤ length file.inode.data_pages * fs.header.page_size
      → file.pos ≡ k * fs.header.page_size
      → read_rounds config fs size size (advance (none_yet file) [])
        ≡ further
            (none_yet file)
            size
            (drop file.pos (pages_bytes config fs m file.inode.data_pages))
  aligned_lem size k file readable some_size word inside at =
      read_rounds_lem config fs m size size k (advance (none_yet file) []) readable some_size word
        (omega (arith, at)) (omega (arith, at)) (omega arith) (omega arith)
      ∙ further-advance (none_yet file) [] _ size (size - 0) (omega arith)
      ∙ ap
          (λ (i : ℕ).
            further (none_yet file) size (drop i (pages_bytes config fs m file.inode.data_pages)))
          (sym at)

  -- `start` bytes behind the beginning of page k, in which `size` bytes are wanted.
  unaligned_lem :
      (size k start : ℕ) (file : File) (page tail : List ℕ)
      → AllReadable config fs m file.inode.data_pages
      → fs.header.page_size < 2 ^ 32
      → file.pos + size ≤ length file.inode.data_pages * fs.header.page_size
      → file.pos ≡ k * fs.header.page_size + start
      → start < fs.header.page_size
      → length page ≡ fs.header.page_size
      → tail ≡ drop ((k + 1) * fs.header.page_size) (pages_bytes config fs m file.inode.data_pages)
      → read_rounds config fs size size (
          advance (none_yet file) (take (min size (fs.header.page_size - start)) (drop start page)))
        ≡ further (none_yet file) size (drop start page ++ tail)
  unaligned_lem size k start file page tail readable word inside at low whole ends =
      let n = fs.header.page_size in
      let rest_size : length (drop start page) ≡ n - start =
        length-drop start page ∙ ap (λ (i : ℕ). i - start) whole in
      elim (Bool-cases (leb size (n - start))) [
        | inl e ↦
            let few : min size (n - start) ≡ size = ground arith in
            let taken : length (take size (drop start page)) ≡ size =
              ground (arith, length-take size (drop start page), rest_size) in
            rw (few) (
              rounds_done config fs m size size
                (advance (none_yet file) (take size (drop start page))) (omega (arith, taken))
              ∙ rw (taken, take-append_le (drop start page) tail size (ground (arith, rest_size)))
                  refl)
        | inr e ↦
            let all : min size (n - start) ≡ n - start = ground arith in
            rw (all, take_all (drop start page) (n - start) (omega (arith, rest_size)))
              (read_rounds_lem config fs m size size (k + 1)
                  (advance (none_yet file) (drop start page)) readable (omega arith) word
                  (omega (arith, at, rest_size)) (omega (arith, at, rest_size, inside))
                  (ground (arith, rest_size)) (omega arith)
                ∙ rw (← ends) (
                    further-advance (none_yet file) (drop start page) tail size _
                      (ground (arith, rest_size))))
      ]

  -- What `read` makes of the pages, where they have the bytes.
  read_pages_lem :
      (size : ℕ) (file : File)
      → AllReadable config fs m file.inode.data_pages
      → 0 < fs.header.page_size
      → fs.header.page_size < 2 ^ 32
      → file.pos + size ≤ length file.inode.data_pages * fs.header.page_size
      → read_pages config fs size file
        ≡ further
            (none_yet file)
            size
            (drop file.pos (pages_bytes config fs m file.inode.data_pages))
  unfolding read_pages read_behind
  read_pages_lem size file readable some_size word inside =
      let k = file.pos / fs.header.page_size in
      let start = file.pos % fs.header.page_size in
      let content = pages_bytes config fs m file.inode.data_pages in
      let parts : k * fs.header.page_size + start ≡ file.pos =
        div-add-mod' file.pos fs.header.page_size in
      let low : start < fs.header.page_size = mod-lt file.pos some_size in
      elim (Bool-cases (file.pos % fs.header.page_size == 0)) [
        | inl e ↦
            ap (read_behind config fs size (none_yet file)) (read_unaligned_none size file e)
            ∙ aligned_lem size k file readable some_size word inside (ground (arith, parts))
        | inr e ↦
            let here : k < length file.inode.data_pages =
              lt_of_mul-lt-mul_right fs.header.page_size (ground (arith, parts)) in
            let (p, found, ok_p, cut) =
              page_at_lem config fs m file.inode.data_pages k readable here in
            let (_, _, whole) = loads config fs m p ok_p in
            ap (read_behind config fs size (none_yet file))
              (read_unaligned_lem size file p ok_p found (ground arith))
            ∙ (unaligned_lem size k start file (page_bytes config fs m p) _ readable word inside
                  (sym parts) low whole refl
                ∙ ap (further (none_yet file) size) (
                    sym (
                      ap (λ (i : ℕ). drop i content) (sym parts)
                      ∙ drop_add (k * fs.header.page_size) start content
                      ∙ ap (drop start) cut
                      ∙ drop-append_le start (page_bytes config fs m p) _ (omega (arith, whole)))))
      ]

  read_clamped-pages :
      (n : ℕ) (file : File)
      → length file.inode.inode_data ≡ 0
      → read_pages config fs n file
        ≡ further (none_yet file) n (drop file.pos (pages_bytes config fs m file.inode.data_pages))
      → read_clamped config fs n file
        ≡ some (
            further
              (none_yet file)
              n
              (drop file.pos (pages_bytes config fs m file.inode.data_pages)))
  unfolding read_clamped
  read_clamped-pages n file outside reads = elim (Bool-cases (n == 0)) [
    | inl e ↦ rw (e) (ap some (sym (nothing_more (none_yet file) n _ (ground arith))))
    | inr e ↦
        let space = get_inode_data_space_size fs.header file.inode in
        rw
          (
            e,
            outside,
            neither (ltb ((file.pos + n) % 2 ^ 64) space) (ltb file.inode.file_len space),
          )
          (ap some reads)
  ]

  read_clamped-inline :
      (n : ℕ) (file : File)
      → file.inode.file_len < 2 ^ 64
      → file.inode.file_len < get_inode_data_space_size fs.header file.inode
      → file.pos + n ≤ file.inode.file_len
      → file.inode.file_len ≤ length file.inode.inode_data
      → read_clamped config fs n file
        ≡ some (further (none_yet file) n (drop file.pos file.inode.inode_data))
  unfolding read_clamped read_inline
  read_clamped-inline n file word small inside there = elim (Bool-cases (n == 0)) [
    | inl e ↦ rw (e) (ap some (sym (nothing_more (none_yet file) n _ (ground arith))))
    | inr e ↦
        let space = get_inode_data_space_size fs.header file.inode in
        let inline : (ltb ((file.pos + n) % 2 ^ 64) space
              && ltb file.inode.file_len space
              && not (length file.inode.inode_data == 0))
            ≡ true =
          ground arith in
        let long : leb n (length (drop file.pos file.inode.inode_data)) ≡ true =
          ground (arith, length-drop file.pos file.inode.inode_data) in
        let taken : length (take n (drop file.pos file.inode.inode_data)) ≡ n =
          ground (arith, length-take n (drop file.pos file.inode.inode_data)) in
        rw (e, inline, long, taken) refl
  ]

  -- For a file whose data are in pages that can be read, enough of them for its length, and whose
  -- position is not behind its end, `read` returns the bytes from the position on, as many as are
  -- asked for and in the file, and moves the position behind them.
  pub read-pages :
      (size : ℕ) (file : File)
      → AllReadable config fs m file.inode.data_pages
      → 0 < fs.header.page_size
      → fs.header.page_size < 2 ^ 32
      → file.inode.file_len < 2 ^ 64
      → file.pos ≤ file.inode.file_len
      → file.inode.file_len ≤ length file.inode.data_pages * fs.header.page_size
      → length file.inode.inode_data ≡ 0
      → let n = min size (file.inode.file_len - file.pos) in
        read config fs size file
        ≡ some (record {
          bytes = take n (drop file.pos (pages_bytes config fs m file.inode.data_pages));
          file = record file { pos = file.pos + n };
        })
  unfolding read
  read-pages size file readable some_size word len_word inside enough outside =
      ap (λ (n : ℕ). read_clamped config fs n file)
        (clamp size file.inode.file_len file.pos len_word inside)
      ∙ read_clamped-pages (min size (file.inode.file_len - file.pos)) file outside (
          read_pages_lem (min size (file.inode.file_len - file.pos)) file readable some_size word
            (omega (arith, enough)))

  -- For a file whose data are in its inode, `read` returns those from the position on.
  pub read-inline :
      (size : ℕ) (file : File)
      → file.inode.file_len < 2 ^ 64
      → file.pos ≤ file.inode.file_len
      → file.inode.file_len < get_inode_data_space_size fs.header file.inode
      → file.inode.file_len ≤ length file.inode.inode_data
      → let n = min size (file.inode.file_len - file.pos) in
        read config fs size file
        ≡ some (record {
          bytes = take n (drop file.pos file.inode.inode_data);
          file = record file { pos = file.pos + n };
        })
  unfolding read
  read-inline size file len_word inside small there =
      ap (λ (n : ℕ). read_clamped config fs n file)
        (clamp size file.inode.file_len file.pos len_word inside)
      ∙ read_clamped-inline (min size (file.inode.file_len - file.pos)) file len_word small
          (omega arith) there
