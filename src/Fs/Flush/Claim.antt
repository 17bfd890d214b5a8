-- ===== src/Fs/Flush/Claim.antt =====
-- The handles that `flush` of src/base/SimpleFlashFsBase.h is called for, and the inode page that it
-- claims.
use simpleflashfs.Prelude.{
  ℕ, ◌+◌, ◌%◌, ◌^◌, ◌≤◌, ◌<◌, ◌≡◌, refl, ap, sym, ◌∙◌, inl, inr, arith, true, false, Option, none,
  some, List, [], ◌∷◌, ◌==◌, Bool-cases, length,
}
use simpleflashfs.PageSet.{no_data}
use simpleflashfs.PageSet.Members.{IsValid}
use simpleflashfs.Fs.Types.{Config, Fs, File, Inode, DataPage}
use simpleflashfs.Fs.Memory.{IsMemory}
use simpleflashfs.Fs.Alloc.InodePages.{is_free, Claimed, allocate_free_inode_page_number_lem}
use simpleflashfs.Fs.Action.{need}
use simpleflashfs.Fs.Action.Post.{Meets, meets}
use simpleflashfs.Fs.Store.{is_deleted}
use simpleflashfs.Fs.Flush.{keep_undeleted, claim_inode_page}
use simpleflashfs.Fs.Flush.Unused.{uses, PagesDistinct}
use simpleflashfs.Fs.Flush.CleanUp.{Stands}

pub uses-keep : (ps : List DataPage) (w : ℕ) → uses (keep_undeleted ps) w ≡ true → uses ps w ≡ true
unfolding keep_undeleted
uses-keep [] w u = u
uses-keep (p ∷ ps) w u = ground (arith, uses-keep ps w, u)

pub keep-PagesDistinct : (ps : List DataPage) → PagesDistinct ps → PagesDistinct (keep_undeleted ps)
unfolding keep_undeleted
keep-PagesDistinct [] d = tt
keep-PagesDistinct (p ∷ ps) (small, once, d) = elim (Bool-cases (is_deleted p.state)) [
  | inl e ↦ rw e (keep-PagesDistinct ps d)
  | inr e ↦ rw e (small, ground (arith, uses-keep ps p.page_id, once), keep-PagesDistinct ps d)
]

-- The version of an inode that its next flush writes.
abbrev pub next_version : Inode → Inode
next_version i = record i {
  inode_version_number = (i.inode_version_number + 1) % 2 ^ 64;
  data_pages = keep_undeleted i.data_pages;
}

module _ {S : Type 0} (config : Config S) (m : IsMemory config.memory) where
  -- A handle between two calls: its inode page is not free, its data pages lie behind the inode pages,
  -- and all of these pages stand in the memory.
  pub record IsSafe (file : File) (fs : Fs S) : Type 0 where
    pub wide : 0 < fs.header.page_size
    pub word : length (m.contents fs.mem) ≤ 2 ^ 32
    pub valid : IsValid fs.allocated_unwritten_pages
    pub range : fs.header_inode_range.max_page ≤ no_data
    pub busy : is_free config fs file.page ≡ false
    pub own : file.page < no_data
    pub own_stands : Stands config m fs.header fs.mem file.page
    pub inodes_stand :
        (x : ℕ) → x < fs.header_inode_range.max_page → Stands config m fs.header fs.mem x
    pub distinct : PagesDistinct file.inode.data_pages
    pub behind : (x : ℕ) → uses file.inode.data_pages x ≡ true → fs.header_inode_range.max_page ≤ x
    pub stand : (x : ℕ) → uses file.inode.data_pages x ≡ true → Stands config m fs.header fs.mem x

  -- A page of its own for the next version.
  abbrev pub Apart : File → Fs S → ℕ → Type 0
  Apart file fs page =
      (page < no_data)
      × ((file.page == page) ≡ false)
      × (uses file.inode.data_pages page ≡ false)
      × Stands config m fs.header fs.mem page

  abbrev pub Untouched : Fs S → File → Fs S → Type 0
  Untouched fs file' fs' = fs'.mem ≡ fs.mem

  other :
      (file : File) (fs : Fs S) (page : ℕ)
      → IsSafe file fs
      → is_free config fs page ≡ true
      → (file.page == page) ≡ false
  other file fs page s free = elim (Bool-cases (file.page == page)) [
    | inr e ↦ e
    | inl e ↦
        let at : file.page ≡ page = ground (arith, e) in
        let clash : true ≡ false = sym free ∙ sym (ap (is_free config fs) at) ∙ s.busy in cc
  ]

  unused :
      (file : File) (fs : Fs S) (page : ℕ)
      → IsSafe file fs
      → page < fs.header_inode_range.max_page
      → uses file.inode.data_pages page ≡ false
  unused file fs page s small = elim (Bool-cases (uses file.inode.data_pages page)) [
    | inr e ↦ e
    | inl e ↦ absurd (omega (arith, s.behind page e, small))
  ]

  need-Apart :
      (file : File) (fs fs' : Fs S) (page : Option ℕ)
      → IsSafe file fs
      → Claimed config fs 0 0 0 page fs'
      → fs'.header ≡ fs.header
      → fs'.mem ≡ fs.mem
      → Meets
          (λ page file' fs'.
            (file' ≡ file) × (fs'.header ≡ fs.header) × (fs'.mem ≡ fs.mem) × Apart file fs page)
          (Untouched fs)
          (need page file fs')
  need-Apart file fs fs' none s c header mem = meets mem
  need-Apart file fs fs' (some p) s (_, small, free, _, _) header mem = meets (
    refl,
    header,
    mem,
    (
      omega (arith, s.range, small),
      other file fs p s free,
      unused file fs p s (omega arith),
      s.inodes_stand p (omega arith),
    ),
  )

  pub claim_inode_page-Apart :
      (file : File) (fs : Fs S)
      → IsSafe file fs
      → Meets
          (λ page file' fs'.
            (file' ≡ file) × (fs'.header ≡ fs.header) × (fs'.mem ≡ fs.mem) × Apart file fs page)
          (Untouched fs)
          (claim_inode_page config file fs)
  unfolding claim_inode_page
  claim_inode_page-Apart file fs s =
      let (_, claimed, rest) =
        allocate_free_inode_page_number_lem config fs 0 0 s.valid s.range (omega arith)
          (omega arith) in
      need-Apart file fs _ _ s claimed (ap (λ (fs : Fs S). fs.header) rest)
        (ap (λ (fs : Fs S). fs.mem) rest)
