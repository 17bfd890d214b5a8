-- ===== src/Fs/Flush/Stays.antt =====
-- The new inode page of a `flush` of src/base/SimpleFlashFsBase.h stays when the old version goes.
use simpleflashfs.Prelude.{
  ℕ, ◌+◌, ◌^◌, ◌≤◌, ◌<◌, ◌≡◌, refl, ap, subst, sym, ◌∙◌, inl, inr, arith, Bool, true, false, some,
  List, ◌==◌, ==_iff, Bool-cases, length, if◌then◌else◌,
}
use simpleflashfs.PageSet.{no_data}
use simpleflashfs.Fs.Types.{Header, Config, Fs, File, Inode, new_file}
use simpleflashfs.Fs.Page.{ok, read_page, check_page}
use simpleflashfs.Fs.Memory.{IsMemory, overlay}
use simpleflashfs.Fs.Inode.{get_inode}
use simpleflashfs.Fs.Inode.RoundTrip.{restored}
use simpleflashfs.Fs.Flush.{clean_up, erase_inode_and_unused_pages}
use simpleflashfs.Fs.Flush.Unused.{uses, PagesDistinct}
use simpleflashfs.Fs.Flush.CleanUp.{
  offset, bytes_of, bytes_of-overlay, Stands, goes, erased, erase_inode_and_unused_pages_lem,
}
use simpleflashfs.Fs.Flush.Zero.{Holds}
use simpleflashfs.Fs.Flush.Claim.{Apart}

module _ {S : Type 0} (config : Config S) (m : IsMemory config.memory) where
  -- What a page and the rest of the memory are after a cleanup that does not touch the page.
  abbrev Stays : Header → Fs S → ℕ → Fs S → Type 0
  Stays h fs page fs' =
      (bytes_of config m h fs'.mem page ≡ bytes_of config m h fs.mem page)
      × (fs'.header ≡ h)
      × (length (m.contents fs'.mem) ≡ length (m.contents fs.mem))

  erase-Stays :
      (old next : File) (fs : Fs S) (page : ℕ)
      → 0 < fs.header.page_size
      → length (m.contents fs.mem) ≤ 2 ^ 32
      → PagesDistinct old.inode.data_pages
      → PagesDistinct next.inode.data_pages
      → old.page < no_data
      → Stands config m fs.header fs.mem old.page
      → ((x : ℕ) → uses old.inode.data_pages x ≡ true → Stands config m fs.header fs.mem x)
      → Apart config m old fs page
      → Stays fs.header fs page (erase_inode_and_unused_pages config old next fs)
  erase-Stays old next fs page wide word d d' small own all (small', apart, free, stands) =
      let (bytes, header, lens) =
        erase_inode_and_unused_pages_lem config m old next fs page d d' small small' (wide, word)
          stands own all in
      let e : goes config m old next page ≡ false = ground (arith, apart, free) in
      (
        bytes
            ∙ ap
                (λ (b : Bool).
                  if b then erased config m fs.header else bytes_of config m fs.header fs.mem page)
                e,
        header,
        lens,
      )

  clean_up-Stays :
      (old next : File) (fs : Fs S) (page : ℕ)
      → 0 < fs.header.page_size
      → length (m.contents fs.mem) ≤ 2 ^ 32
      → PagesDistinct old.inode.data_pages
      → PagesDistinct next.inode.data_pages
      → old.page < no_data
      → Stands config m fs.header fs.mem old.page
      → ((x : ℕ) → uses old.inode.data_pages x ≡ true → Stands config m fs.header fs.mem x)
      → Apart config m old fs page
      → Stays fs.header fs page (clean_up config old next fs)
  unfolding clean_up
  clean_up-Stays old next fs page wide word d d' small own all apart =
      let pick : Bool → Fs S =
        λ b. if b then fs else erase_inode_and_unused_pages config old next fs in
      elim (Bool-cases config.no_del) [
        | inl e ↦ subst (λ (b : Bool). Stays fs.header fs page (pick b)) (sym e) (refl, refl, refl)
        | inr e ↦
            subst (λ (b : Bool). Stays fs.header fs page (pick b)) (sym e)
              (erase-Stays old next fs page wide word d d' small own all apart)
      ]

  -- The page of the handle reads back as the inode i.
  abbrev pub ReadsBack : Header → Bool → Inode → File → Fs S → Type 0
  ReadsBack h correct i file fs =
      (page : List ℕ) × (read_page config fs file.page h.page_size true ≡ ok page)
      × (get_inode config h correct page ≡ some (record new_file { inode = restored h i }))

  read_page-bytes :
      (fs : Fs S) (i : ℕ)
      → Stands config m fs.header fs.mem i
      → read_page config fs i fs.header.page_size true
        ≡ check_page config fs.header true (bytes_of config m fs.header fs.mem i)
  unfolding read_page
  read_page-bytes fs i stands =
      rw
        (
          m.read_law fs.mem (offset config m fs.header i) fs.header.page_size stands,
          (==_iff fs.header.page_size fs.header.page_size).1 refl,
        )
        refl

  reads-bytes :
      (h : Header) (fs : Fs S) (i : ℕ)
      → fs.header ≡ h
      → Stands config m h fs.mem i
      → read_page config fs i h.page_size true
        ≡ check_page config h true (bytes_of config m h fs.mem i)
  reads-bytes h fs i e =
      subst
        (λ (h : Header).
          Stands config m h fs.mem i
          → read_page config fs i h.page_size true
            ≡ check_page config h true (bytes_of config m h fs.mem i))
        e (read_page-bytes fs i)

  clean_up-at :
      (h : Header) (old next : File) (fs : Fs S) (page : ℕ)
      → fs.header ≡ h
      → 0 < h.page_size
      → length (m.contents fs.mem) ≤ 2 ^ 32
      → PagesDistinct old.inode.data_pages
      → PagesDistinct next.inode.data_pages
      → old.page < no_data
      → Stands config m h fs.mem old.page
      → ((x : ℕ) → uses old.inode.data_pages x ≡ true → Stands config m h fs.mem x)
      → page < no_data
      → (old.page == page) ≡ false
      → uses old.inode.data_pages page ≡ false
      → Stands config m h fs.mem page
      → Stays h fs page (clean_up config old next fs)
  clean_up-at h old next fs page e wide word d d' small own all a b c stands =
      let P : Header → Type 0 = λ h.
        0 < h.page_size
        → Stands config m h fs.mem old.page
        → ((x : ℕ) → uses old.inode.data_pages x ≡ true → Stands config m h fs.mem x)
        → Stands config m h fs.mem page
        → Stays h fs page (clean_up config old next fs) in
      subst P e
        (λ wide own all stands.
          clean_up-Stays old next fs page wide word d d' small own all (a, b, c, stands))
        wide own all stands

  -- The end of the flush: the inode page is written, and the old version goes.
  pub finish :
      (h : Header) (correct : Bool) (old file : File) (fs fs' : Fs S) (i : Inode) (page : List ℕ)
      (size : ℕ)
      → Holds config m h size fs
      → Holds config m h size fs'
      → m.contents fs'.mem ≡ overlay (offset config m h file.page) page (m.contents fs.mem)
      → 0 < h.page_size
      → PagesDistinct old.inode.data_pages
      → PagesDistinct file.inode.data_pages
      → old.page < no_data
      → offset config m h old.page + h.page_size ≤ size
      → ((x : ℕ) → uses old.inode.data_pages x ≡ true → offset config m h x + h.page_size ≤ size)
      → file.page < no_data
      → (old.page == file.page) ≡ false
      → uses old.inode.data_pages file.page ≡ false
      → offset config m h file.page + h.page_size ≤ size
      → length page ≡ h.page_size
      → check_page config h true page ≡ ok page
      → get_inode config h correct page ≡ some (record new_file { inode = restored h i })
      → let fs2 = clean_up config old (record file { modified = false }) fs' in
        (fs2.header ≡ h) × ReadsBack h correct i file fs2
  finish h correct old file fs fs' i page size (_, len, word) (header', len', _) e wide d d' small
        own all a b c stands whole passes gets =
      let next : File = record file { modified = false } in
      let here : Stands config m h fs'.mem file.page = omega (arith, stands, len') in
      let (same, header2, len2) =
        clean_up-at h old next fs' file.page header' wide (omega (arith, len', word)) d d' small
          (omega (arith, own, len')) (λ x u. let f = all x u in omega (arith, f, len')) a b c
          here in
      let there : Stands config m h (clean_up config old next fs').mem file.page =
        omega (arith, here, len2) in
      let written =
        bytes_of-overlay config m h fs.mem fs'.mem file.page file.page page whole e
          (omega (arith, stands, len)) (omega (arith, stands, len)) in
      let bytes =
        same
        ∙ written
        ∙ ap (λ (b : Bool). if b then page else bytes_of config m h fs.mem file.page)
            ((==_iff file.page file.page).1 refl) in
      (
        header2,
        (
          page,
          reads-bytes h (clean_up config old next fs') file.page header2 there
              ∙ ap (check_page config h true) bytes
              ∙ passes,
          gets,
        ),
      )
