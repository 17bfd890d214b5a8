-- ===== src/Fs/Store/Grown.antt =====
-- The page list that allocate_new_data_pages of src/base/SimpleFlashFsBase.h leaves.
use simpleflashfs.Prelude.{
  ℕ, zero, suc, ◌+◌, ◌≤◌, ◌<◌, ◌≡◌, refl, ap, sym, ◌∙◌, inl, inr, arith, Option, none, some, List,
  [], ◌∷◌, ◌++◌, take, drop, max, Bool-cases, length, ltb, length-append, length-take,
  take-append-drop, append_assoc,
}
use simpleflashfs.Fs.Types.{Fs, File, DataPage, new}
use simpleflashfs.Fs.Action.{Outcome, need}
use simpleflashfs.Fs.Action.Post.{Meets, meets, chain}
use simpleflashfs.Fs.Store.{
  count_valid_pages, insert_page, claim_data_page, allocate_rounds, allocate_new_data_pages,
  with_pages,
}
use simpleflashfs.Fs.Store.Length.{count_valid-insert, count_valid-length}

abbrev pub AllNew : List DataPage → Type 0
AllNew [] = Unit {0}
AllNew (p ∷ ps) = (p.state ≡ new) × AllNew ps

AllNew-append :
    (ps : List DataPage) (page_id : ℕ)
    → AllNew ps
    → AllNew (ps ++ record { page_id = page_id; state = new } ∷ [])
AllNew-append [] page_id h = (refl, tt)
AllNew-append (p ∷ ps) page_id h = (h.0, AllNew-append ps page_id h.1)

insert-append :
    (xs ys : List DataPage) (q : DataPage) → insert_page (xs ++ ys) (length xs) q ≡ xs ++ q ∷ ys
unfolding insert_page
insert-append [] ys q = refl
insert-append (x ∷ xs) ys q = ap (◌∷◌ x) (insert-append xs ys q)

-- The list ps with new pages behind as many of its pages as it has valid ones.
pub record Grown (ps : List DataPage) (file : File) : Type 0 where
  pub news : List DataPage
  pub all_new : AllNew news
  pub pages :
      file.inode.data_pages
      ≡ take (count_valid_pages ps) ps ++ (news ++ drop (count_valid_pages ps) ps)
  pub counted : count_valid_pages file.inode.data_pages ≡ count_valid_pages ps + length news

Grown-start : (file : File) → Grown file.inode.data_pages file
Grown-start file = record {
  news = [];
  all_new = tt;
  pages = sym (take-append-drop (count_valid_pages file.inode.data_pages) file.inode.data_pages);
  counted = omega arith;
}

Grown-insert :
    (ps : List DataPage) (file : File) (page_id : ℕ)
    → Grown ps file
    → Grown ps (
        with_pages file (
          insert_page file.inode.data_pages
            (count_valid_pages file.inode.data_pages)
            (record { page_id = page_id; state = new })))
Grown-insert ps file page_id g =
    let q : DataPage = record { page_id = page_id; state = new } in
    let k = count_valid_pages ps in
    let front = take k ps ++ g.news in
    let at : count_valid_pages file.inode.data_pages ≡ length front = omega (
      arith,
      g.counted,
      length-append (take k ps) g.news,
      length-take k ps,
      count_valid-length ps,
    ) in
    record {
      news = g.news ++ q ∷ [];
      all_new = AllNew-append g.news page_id g.all_new;
      pages =
          rw (at, g.pages, ← append_assoc (take k ps) g.news (drop k ps))
            (insert-append front (drop k ps) q
              ∙ rw
                  (
                    append_assoc (take k ps) g.news (q ∷ drop k ps),
                    append_assoc g.news (q ∷ []) (drop k ps),
                  )
                  refl);
      counted = omega (
        arith,
        count_valid-insert file.inode.data_pages (count_valid_pages file.inode.data_pages) page_id,
        g.counted,
        length-append g.news (q ∷ []),
      );
    }

-- The new pages make page_idx + 1 valid ones, if these are not there already, and no more.
pub record Enough (ps : List DataPage) (page_idx : ℕ) (file : File) : Type 0 where
  pub grown : Grown ps file
  pub enough : count_valid_pages ps + length grown.news ≡ max (count_valid_pages ps) (page_idx + 1)

module _ {S : Type 0} where
  -- A page is claimed, or the method ends; the handle stays.
  abbrev Claimed : List DataPage → File → Outcome S ℕ → Type 0
  Claimed ps file = Meets (λ page file' fs'. Grown ps file') (λ file' fs'. Grown ps file')

  need-Claimed :
      (ps : List DataPage) (page : Option ℕ) (file : File) (fs : Fs S)
      → Grown ps file
      → Claimed ps file (need page file fs)
  need-Claimed ps none file fs g = meets g
  need-Claimed ps (some p) file fs g = meets g

  claim_data_page-Claimed :
      (ps : List DataPage) (file : File) (fs : Fs S)
      → Grown ps file
      → Claimed ps file (claim_data_page file fs)
  unfolding claim_data_page
  claim_data_page-Claimed ps file fs g = need-Claimed ps _ file _ g

  allocate_rounds-Grown :
      (left page_idx : ℕ) (ps : List DataPage) (file : File) (fs : Fs S)
      → (g : Grown ps file)
      → count_valid_pages ps + length g.news ≤ max (count_valid_pages ps) (page_idx + 1)
      → 0 < left
      → page_idx + 1 < count_valid_pages file.inode.data_pages + left
      → Meets
          (λ a file' fs'. Enough ps page_idx file')
          (λ file' fs'. Grown ps file')
          (allocate_rounds left page_idx file fs)
  unfolding allocate_rounds
  allocate_rounds-Grown zero page_idx ps file fs g most some_left enough = absurd (omega arith)
  allocate_rounds-Grown (suc left) page_idx ps file fs g most some_left enough =
      elim (Bool-cases (ltb page_idx (count_valid_pages file.inode.data_pages))) [
        | inl e ↦
            rw (e, allocate_rounds)
              (meets (record { grown = g; enough = ground (arith, most, g.counted, e) }))
        | inr e ↦
            rw (e, allocate_rounds)
              (chain (claim_data_page-Claimed ps file fs g) (λ page file' fs' kept.
                let g' = Grown-insert ps file page g in
                let more =
                  count_valid-insert file.inode.data_pages (count_valid_pages file.inode.data_pages)
                    page in
                let long = length-append g.news (record { page_id = page; state = new } ∷ []) in
                allocate_rounds-Grown left page_idx ps
                  (with_pages file (
                    insert_page file.inode.data_pages (count_valid_pages file.inode.data_pages)
                      (record { page_id = page; state = new })))
                  fs' g' (ground (arith, long, g.counted, e)) (ground (arith, e, enough))
                  (omega (arith, more, enough))))
      ]

  -- `allocate_new_data_pages` runs to its end. The pages of the list stay, and new pages stand behind
  -- as many of them as it had valid ones: as many as make page_idx + 1 valid pages, none where these
  -- are there already. Where it quits, for want of a page, some of them may be missing.
  pub allocate_new_data_pages_lem :
      (page_idx : ℕ) (file : File) (fs : Fs S)
      → Meets
          (λ a file' fs'. Enough file.inode.data_pages page_idx file')
          (λ file' fs'. Grown file.inode.data_pages file')
          (allocate_new_data_pages page_idx file fs)
  unfolding allocate_new_data_pages Grown-start
  allocate_new_data_pages_lem page_idx file fs =
      allocate_rounds-Grown (page_idx + 2) page_idx file.inode.data_pages file fs (Grown-start file)
        (omega arith) (omega arith) (omega arith)
