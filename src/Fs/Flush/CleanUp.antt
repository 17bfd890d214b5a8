-- ===== src/Fs/Flush/CleanUp.antt =====
-- What `erase_inode_and_unused_pages` of src/base/SimpleFlashFsBase.h does to the memory.
use native.Mathlib.Nat.{mul-le-mul_right, add-mul}
use simpleflashfs.Prelude.{
  ℕ, ◌+◌, ◌*◌, ◌%◌, ◌^◌, ◌≤◌, ◌<◌, ◌≡◌, ◌≢◌, refl, ap, subst, ◌∙◌, inl, inr, arith, Bool, true,
  false, not, ◌&&◌, ◌||◌, List, [], ◌∷◌, ◌==◌, if◌then◌else◌, Bool-cases, length, replicate,
  length-replicate, ltb,
}
use simpleflashfs.Fs.Types.{Config, Fs, Header, File}
use simpleflashfs.Fs.Memory.{IsMemory, window, overlay}
use simpleflashfs.Fs.Memory.Windows.{
  length-overlay, window-overlay_before, window-overlay_behind, window-overlay_self,
}
use simpleflashfs.PageSet.{no_data, get_data}
use simpleflashfs.PageSet.Order.{contains, Packed-full}
use simpleflashfs.PageSet.Reads.{get_data_lem}
use simpleflashfs.Fs.Flush.{erase_page, erase_pages, pages_to_erase, erase_inode_and_unused_pages}
use simpleflashfs.Fs.Flush.Unused.{uses, PagesDistinct, pages_to_erase_lem}

apart : (a b n : ℕ) → a < b → n + a * n + n ≤ n + b * n
apart a b n h =
    let e : (a + 1) * n ≤ b * n = mul-le-mul_right n (omega arith) in
    omega (arith, e, add-mul a 1 n)

chosen :
    (p c : Bool) (x a b : List ℕ)
    → b ≡ (if p then x else a)
    → (if c then x else b) ≡ (if p || c then x else a)
chosen true true x a b e = refl
chosen true false x a b e = e
chosen false true x a b e = refl
chosen false false x a b e = e

module _ {S : Type 0} (config : Config S) (m : IsMemory config.memory) where
  abbrev pub offset : Header → ℕ → ℕ
  offset h page = h.page_size + page * h.page_size

  -- The bytes of a page in the memory.
  abbrev pub bytes_of : Header → S → ℕ → List ℕ
  bytes_of h mem page = window (offset h page) h.page_size (m.contents mem)

  -- The page stands in the memory.
  abbrev pub Stands : Header → S → ℕ → Type 0
  Stands h mem page = offset h page + h.page_size ≤ length (m.contents mem)

  -- The memory has at most 2^32 bytes, and pages are not empty.
  abbrev pub Addressable : Header → S → Type 0
  Addressable h mem = (0 < h.page_size) × (length (m.contents mem) ≤ 2 ^ 32)

  abbrev pub erased : Header → List ℕ
  erased h = replicate h.page_size 0xFF

  pub bytes_of-overlay :
      (h : Header) (mem mem' : S) (page w : ℕ) (bytes : List ℕ)
      → length bytes ≡ h.page_size
      → m.contents mem' ≡ overlay (offset h page) bytes (m.contents mem)
      → Stands h mem page
      → Stands h mem w
      → bytes_of h mem' w ≡ (if page == w then bytes else bytes_of h mem w)
  bytes_of-overlay h mem mem' page w bytes size e fits fits_w = elim (Bool-cases (page == w)) [
    | inl same ↦
        let at : w ≡ page = ground arith in
        rw (e, same, at)
          (window-overlay_self h.page_size (offset h page) bytes (m.contents mem) size
            (omega arith))
    | inr other ↦ elim (Bool-cases (ltb page w)) [
      | inl below ↦
          rw (e, other)
            (window-overlay_behind (offset h w) h.page_size (offset h page) bytes (m.contents mem)
              (let lt : page < w = ground arith in omega (arith, apart page w h.page_size lt, size))
              (omega arith))
      | inr above ↦
          rw (e, other)
            (window-overlay_before (offset h w) h.page_size (offset h page) bytes (m.contents mem)
              (let lt : w < page = ground arith in omega (arith, apart w page h.page_size lt))
              (omega arith))
    ]
  ]

  erase_page-header : (page : ℕ) (fs : Fs S) → (erase_page config page fs).header ≡ fs.header
  unfolding erase_page
  erase_page-header page fs = elim (Bool-cases (ltb fs.header.max_inodes page)) [
    | inl e ↦ rw e refl
    | inr e ↦ rw e refl
  ]

  erase_page-contents :
      (page : ℕ) (fs : Fs S)
      → Addressable fs.header fs.mem
      → Stands fs.header fs.mem page
      → m.contents (erase_page config page fs).mem
        ≡ overlay (offset fs.header page) (erased fs.header) (m.contents fs.mem)
  unfolding erase_page
  erase_page-contents page fs (wide, small) fits =
      let address = (fs.header.page_size + page * fs.header.page_size % 2 ^ 32) % 2 ^ 32 in
      let e : address ≡ offset fs.header page = omega arith in
      let law = m.erase_law fs.mem (offset fs.header page) fs.header.page_size fits in
      elim (Bool-cases (ltb fs.header.max_inodes page)) [
        | inl e2 ↦ rw (e2, e) law
        | inr e2 ↦ rw (e2, e) law
      ]

  erase_pages_lem :
      (xs : List ℕ) (h : Header) (fs : Fs S) (w : ℕ)
      → fs.header ≡ h
      → Addressable h fs.mem
      → Stands h fs.mem w
      → ((x : ℕ) → contains xs x ≡ true → Stands h fs.mem x)
      → (bytes_of h (erase_pages config xs fs).mem w
          ≡ (if contains xs w then erased h else bytes_of h fs.mem w))
        × ((erase_pages config xs fs).header ≡ h)
        × (length (m.contents (erase_pages config xs fs).mem) ≡ length (m.contents fs.mem))
  unfolding erase_pages
  erase_pages_lem [] h fs w same ok fits all = (refl, same, refl)
  erase_pages_lem (page ∷ xs) h fs w same (wide, small) fits all =
      let fs1 = erase_page config page fs in
      let here : Stands h fs.mem page = all page (ground arith) in
      let e : m.contents fs1.mem ≡ overlay (offset h page) (erased h) (m.contents fs.mem) =
        rw (← same) (erase_page-contents page fs (rw same (wide, small)) (rw same here)) in
      let size = length-replicate {A = ℕ} h.page_size 0xFF in
      let len : length (m.contents fs1.mem) ≡ length (m.contents fs.mem) =
        ap (λ (l : List ℕ). length l) e
        ∙ length-overlay (offset h page) (erased h) (m.contents fs.mem) (omega (arith, size)) in
      let first = bytes_of-overlay h fs.mem fs1.mem page w (erased h) size e here fits in
      let (rest, header, lens) =
        erase_pages_lem xs h fs1 w (erase_page-header page fs ∙ same) (wide, omega (arith, len))
          (omega (arith, len))
          (λ x c. let f = all x (ground (arith, c)) in omega (arith, len, f)) in
      (
        rest
            ∙ chosen (page == w) (contains xs w) (erased h) (bytes_of h fs.mem w)
                (bytes_of h fs1.mem w) first,
        header,
        lens ∙ len,
      )

  abbrev pub goes : File → File → ℕ → Bool
  goes old next w =
      (old.page == w) || (uses old.inode.data_pages w && not (uses next.inode.data_pages w))

  erased-Stands :
      (old next : File) (h : Header) (mem : S) (x : ℕ)
      → PagesDistinct old.inode.data_pages
      → PagesDistinct next.inode.data_pages
      → old.page < no_data
      → Stands h mem old.page
      → ((x : ℕ) → uses old.inode.data_pages x ≡ true → Stands h mem x)
      → contains (get_data (pages_to_erase old next)).1 x ≡ true
      → Stands h mem x
  erased-Stands old next h mem x d d' small page_fits all c = elim (Bool-cases (x == no_data)) [
    | inl e ↦
        let at : x ≡ no_data = ground arith in
        let (v, _) = pages_to_erase_lem old next 0 d d' small (omega arith) in
        let (packed, _, _, _, _) = get_data_lem (pages_to_erase old next) 0 v (omega arith) in
        let xs = (get_data (pages_to_erase old next)).1 in
        let c' : contains xs no_data ≡ true = subst (λ (x : ℕ). contains xs x ≡ true) at c in
        let none_there = Packed-full 0 xs packed in absurd (ground (arith, none_there, c'))
    | inr e ↦
        let real : x ≢ no_data = ground arith in
        let (v, member) = pages_to_erase_lem old next x d d' small real in
        let (_, _, _, same, _) = get_data_lem (pages_to_erase old next) x v real in
        elim (Bool-cases (old.page == x)) [
          | inl here ↦ let at : x ≡ old.page = ground arith in rw at page_fits
          | inr other ↦ all x (ground (arith, same, member, c, other))
        ]
  ]

  -- On a memory of at most 2^32 bytes in which the pages of the old version stand: the pages that
  -- `erase_inode_and_unused_pages` erases read as 0xFF afterwards, and every other page keeps its
  -- bytes. Erased are the inode page of the old version and those of its data pages that the next
  -- version does not use. The page numbers of each version are below NO_DATA, and none stands twice.
  pub erase_inode_and_unused_pages_lem :
      (old next : File) (fs : Fs S) (w : ℕ)
      → PagesDistinct old.inode.data_pages
      → PagesDistinct next.inode.data_pages
      → old.page < no_data
      → w < no_data
      → Addressable fs.header fs.mem
      → Stands fs.header fs.mem w
      → Stands fs.header fs.mem old.page
      → ((x : ℕ) → uses old.inode.data_pages x ≡ true → Stands fs.header fs.mem x)
      → (bytes_of fs.header (erase_inode_and_unused_pages config old next fs).mem w
          ≡ (if goes old next w then erased fs.header else bytes_of fs.header fs.mem w))
        × ((erase_inode_and_unused_pages config old next fs).header ≡ fs.header)
        × (length (m.contents (erase_inode_and_unused_pages config old next fs).mem)
            ≡ length (m.contents fs.mem))
  unfolding erase_inode_and_unused_pages
  erase_inode_and_unused_pages_lem old next fs w d d' small small_w ok fits page_fits all =
      let s = pages_to_erase old next in
      let (v, member) = pages_to_erase_lem old next w d d' small (omega arith) in
      let (_, _, _, same, _) = get_data_lem s w v (omega arith) in
      let (bytes, header, lens) =
        erase_pages_lem (get_data s).1 fs.header fs w refl ok fits
          (λ x c. erased-Stands old next fs.header fs.mem x d d' small page_fits all c) in
      (
        bytes
            ∙ ap (λ (b : Bool). if b then erased fs.header else bytes_of fs.header fs.mem w)
                (same ∙ member),
        header,
        lens,
      )
