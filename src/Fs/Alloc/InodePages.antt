-- ===== src/Fs/Alloc/InodePages.antt =====
-- What the allocator of inode pages of src/base/SimpleFlashFsBase.h promises.
use simpleflashfs.Prelude.{
  ℕ, zero, suc, ◌+◌, ◌≤◌, ◌<◌, ◌≡◌, ◌≢◌, inl, inr, refl, subst, ap, ap₂, ◌∙◌, sym, arith, Bool,
  true, false, not, ◌&&◌, ◌||◌, Option, none, some, ◌==◌, Bool-cases, leb, ltb,
}
use simpleflashfs.PageSet.{PageSet, no_data, count}
use simpleflashfs.PageSet.Members.{IsValid, has, has-insert, insert-IsValid}
use simpleflashfs.PageSet.Erase.{count-has, count-IsValid}
use simpleflashfs.Fs.Types.{Fs, Config}
use simpleflashfs.Fs.Alloc.{
  has_next, next, is_crc_error, read_inode_page, try_claim, claim_from,
  allocate_free_inode_page_number,
}

one_more :
    (i j : ℕ) (b free : Bool)
    → (i ≡ j → free ≡ false)
    → (leb (i + 1) j && b && free) ≡ false
    → (leb i j && b && free) ≡ false
one_more i j b true at rest = elim (Bool-cases b) [
  | inl e ↦ ground (arith, λ (h : i ≡ j). at h)
  | inr e ↦ ground arith
]
one_more i j b false at rest = ground arith

module _ {S : Type 0} (config : Config S) where
  -- Page i has no good inode, and no one has claimed it.
  abbrev pub is_free : Fs S → ℕ → Bool
  is_free fs i =
      is_crc_error (read_inode_page config fs i) && not (has fs.allocated_unwritten_pages i)

  try_claim_lem :
      (fs : Fs S) (i w : ℕ)
      → IsValid fs.allocated_unwritten_pages
      → i < no_data
      → w ≢ no_data
      → let (claimed, allocated) = try_claim config i fs in
        (claimed ≡ is_free fs i)
        × IsValid allocated
        × (has allocated w ≡ ((claimed && (i == w)) || has fs.allocated_unwritten_pages w))
  unfolding try_claim
  try_claim_lem fs i w v small h =
      let a = fs.allocated_unwritten_pages in
      let (found, same) = count-has a i w v (omega arith) h in
      let v' = count-IsValid a i v in
      let (_, same_i) = count-has a i i v (omega arith) (omega arith) in
      let v'' = insert-IsValid (count i a).0 i v' small in
      let member = has-insert (count i a).0 i w v' (omega arith) h in
      elim (Bool-cases (is_crc_error (read_inode_page config fs i))) [
        | inr e ↦ rw e (refl, v, refl)
        | inl e ↦ elim (Bool-cases (has a i)) [
          | inl there ↦ rw (e, found, there) (refl, v', same)
          | inr absent ↦
              rw (e, found, absent) (refl, v'', member ∙ ap (λ (b : Bool). (i == w) || b) same)
        ]
      ]

  -- What the loop that starts at page i leaves: j is any page that it visits, w any page.
  abbrev pub Claimed : Fs S → ℕ → ℕ → ℕ → Option ℕ → Fs S → Type 0
  Claimed fs i j w none fs' =
      ((leb i j && ltb (j + 1) fs.header_inode_range.max_page && is_free fs j) ≡ false)
      × (has fs'.allocated_unwritten_pages w ≡ has fs.allocated_unwritten_pages w)
  Claimed fs i j w (some p) fs' =
      (i ≤ p)
      × (p + 1 < fs.header_inode_range.max_page)
      × (is_free fs p ≡ true)
      × ((leb i j && ltb j p && is_free fs j) ≡ false)
      × (has fs'.allocated_unwritten_pages w ≡ ((p == w) || has fs.allocated_unwritten_pages w))

  abbrev later_fs : Fs S → PageSet → Fs S
  later_fs fs allocated = record fs {
    allocated_unwritten_pages = allocated;
    header_inode_range = (next fs.header_inode_range).0;
  }

  is_free-later :
      (fs : Fs S) (i x : ℕ)
      → IsValid fs.allocated_unwritten_pages
      → i < no_data
      → x ≢ no_data
      → (try_claim config i fs).0 ≡ false
      → is_free (later_fs fs (try_claim config i fs).1) x ≡ is_free fs x
  unfolding read_inode_page
  is_free-later fs i x v small hx e =
      let (_, _, member) = try_claim_lem fs i x v small hx in
      let same : has (try_claim config i fs).1 x ≡ has fs.allocated_unwritten_pages x =
        member ∙ ap (λ (b : Bool). (b && (i == x)) || has fs.allocated_unwritten_pages x) e in
      ap (λ (b : Bool). is_crc_error (read_inode_page config fs x) && not b) same

  -- What the rest of the loop leaves is what the loop leaves, where its first round claims nothing.
  widen :
      (fs later fs' : Fs S) (i j w : ℕ) (page : Option ℕ)
      → ((x : ℕ) → x ≢ no_data → is_free later x ≡ is_free fs x)
      → later.header_inode_range.max_page ≡ fs.header_inode_range.max_page
      → fs.header_inode_range.max_page ≤ no_data
      → has later.allocated_unwritten_pages w ≡ has fs.allocated_unwritten_pages w
      → is_free fs i ≡ false
      → j ≢ no_data
      → Claimed later (i + 1) j w page fs'
      → Claimed fs i j w page fs'
  widen fs later fs' i j w none frees range small member taken hj (none_left, same) = (
    one_more i j (ltb (j + 1) fs.header_inode_range.max_page) (is_free fs j)
        (λ e. ap (is_free fs) (sym e) ∙ taken)
        (ap₂ (λ (m : ℕ) (b : Bool). leb (i + 1) j && ltb (j + 1) m && b) (sym range)
            (sym (frees j hj))
          ∙ none_left),
    same ∙ member,
  )
  widen fs later fs' i j w (some p) frees range small member taken hj
        (low, high, free, least, same) =
      (
        omega arith,
        omega (arith, range),
        sym (frees p (omega (arith, range))) ∙ free,
        one_more i j (ltb j p) (is_free fs j) (λ e. ap (is_free fs) (sym e) ∙ taken)
            (ap (λ (b : Bool). leb (i + 1) j && ltb j p && b) (sym (frees j hj)) ∙ least),
        same ∙ ap (λ (b : Bool). (p == w) || b) member,
      )

  abbrev pub Result : Fs S → ℕ → ℕ → ℕ → Option ℕ × Fs S → Type 0
  Result fs i j w (page, fs') =
      IsValid fs'.allocated_unwritten_pages
      × Claimed fs i j w page fs'
      × (fs' ≡ record fs {
        allocated_unwritten_pages = fs'.allocated_unwritten_pages;
        header_inode_range = fs'.header_inode_range;
      })

  after_round :
      (fs : Fs S) (i j w left : ℕ)
      → IsValid fs.allocated_unwritten_pages
      → i < no_data
      → fs.header_inode_range.max_page ≤ no_data
      → fs.header_inode_range.current ≡ i + 1
      → j ≢ no_data
      → (try_claim config i fs).0 ≡ false
      → (try_claim config i fs).0 ≡ is_free fs i
      → has (try_claim config i fs).1 w ≡ has fs.allocated_unwritten_pages w
      → let later = later_fs fs (try_claim config i fs).1 in
        Result later fs.header_inode_range.current j w
          (claim_from config left fs.header_inode_range.current later)
        → Result fs i j w (claim_from config left fs.header_inode_range.current later)
  after_round fs i j w left v low small at hj c claims member (v2, claimed, rest) = (
    v2,
    widen fs (later_fs fs (try_claim config i fs).1) _ i j w _
        (λ x hx. is_free-later fs i x v low hx c) refl small member (sym claims ∙ c) hj
        (subst
          (λ (n : ℕ).
            Claimed (later_fs fs (try_claim config i fs).1) n j w
              (claim_from config left fs.header_inode_range.current
                (later_fs fs (try_claim config i fs).1)).0
              (claim_from config left fs.header_inode_range.current
                (later_fs fs (try_claim config i fs).1)).1)
          at claimed),
    rest,
  )

  claim_from_lem :
      (left i : ℕ) (fs : Fs S) (j w : ℕ)
      → IsValid fs.allocated_unwritten_pages
      → fs.header_inode_range.max_page ≤ no_data
      → fs.header_inode_range.current ≡ i + 1
      → fs.header_inode_range.max_page ≤ i + 1 + left
      → j ≢ no_data
      → w ≢ no_data
      → Result fs i j w (claim_from config left i fs)
  unfolding claim_from
  claim_from_lem zero i fs j w v small at enough hj hw = (v, (ground arith, refl), refl)
  claim_from_lem (suc left) i fs j w v small at enough hj hw =
      elim (Bool-cases (has_next fs.header_inode_range)) [
        | inr e ↦ rw e (v, (ground arith, refl), refl)
        | inl e ↦
            let in_range : i + 1 < fs.header_inode_range.max_page = ground arith in
            let (claims, v1, member) = try_claim_lem fs i w v (omega arith) hw in
            elim (Bool-cases (try_claim config i fs).0) [
              | inl c ↦
                  rw (e, c)
                    (
                      v1,
                      (
                        omega arith,
                        in_range,
                        sym claims ∙ c,
                        ground arith,
                        member
                            ∙ ap
                                (λ (b : Bool).
                                  (b && (i == w)) || has fs.allocated_unwritten_pages w)
                                c,
                      ),
                      refl,
                    )
              | inr c ↦
                  rw (e, c)
                    (after_round fs i j w left v (omega arith) small at hj c claims
                      (member
                        ∙ ap (λ (b : Bool). (b && (i == w)) || has fs.allocated_unwritten_pages w)
                            c)
                      (claim_from_lem left fs.header_inode_range.current
                        (later_fs fs (try_claim config i fs).1) j w v1 small refl (omega arith) hj
                        hw))
            ]
      ]

  rebase :
      (fs fs' : Fs S) (j w : ℕ) (page : Option ℕ)
      → Claimed
          (record fs {
            header_inode_range = (next (record fs.header_inode_range { current = 0 })).0;
          })
          0
          j
          w
          page
          fs'
      → Claimed fs 0 j w page fs'
  unfolding read_inode_page
  rebase fs fs' j w none c = c
  rebase fs fs' j w (some p) c = c

  -- For a valid set of claimed pages and a range of at most 2^32 - 1 pages,
  -- `allocate_free_inode_page_number` returns the least page p with p + 1 below the number of inode
  -- pages that has no good inode and is not claimed, and then claims it, alone; it returns nothing
  -- only when there is no such page, and then claims none. The set stays valid, and nothing else but
  -- the position of the range changes.
  pub allocate_free_inode_page_number_lem :
      (fs : Fs S) (j w : ℕ)
      → IsValid fs.allocated_unwritten_pages
      → fs.header_inode_range.max_page ≤ no_data
      → j ≢ no_data
      → w ≢ no_data
      → Result fs 0 j w (allocate_free_inode_page_number config fs)
  unfolding allocate_free_inode_page_number read_inode_page
  allocate_free_inode_page_number_lem fs j w v small hj hw =
      let start : Fs S = record fs {
        header_inode_range = (next (record fs.header_inode_range { current = 0 })).0;
      } in
      let (v', claimed, rest) =
        claim_from_lem fs.header_inode_range.max_page 0 start j w v small refl (omega arith) hj
          hw in
      (v', rebase fs _ j w _ claimed, rest)
