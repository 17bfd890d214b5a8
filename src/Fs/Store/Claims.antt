-- ===== src/Fs/Store/Claims.antt =====
-- Pages that are claimed for a write in src/base/SimpleFlashFsBase.h, as seen by a page that is not.
use simpleflashfs.Prelude.{
  ℕ, zero, suc, ◌+◌, ◌≤◌, ◌≡◌, ◌≢◌, refl, ap, sym, subst, inl, inr, arith, Bool, true, false, not,
  ◌&&◌, ◌||◌, Option, none, some, List, [], ◌∷◌, ◌++◌, ◌==◌, Bool-cases, length, set, leb,
}
use simpleflashfs.PageSet.{PageSet, no_data}
use simpleflashfs.PageSet.Members.{IsValid, has}
use simpleflashfs.Fs.Types.{Header, Config, Fs, File, DataPage, new}
use simpleflashfs.Fs.Memory.{IsMemory}
use simpleflashfs.Fs.Read.{page_at, is_new}
use simpleflashfs.Fs.Inode.{get_max_inode_data_pages}
use simpleflashfs.Fs.Alloc.{allocate_free_data_page, allocate_file_data_page}
use simpleflashfs.Fs.Alloc.DataPages.{Taken, allocate_free_data_page_lem}
use simpleflashfs.Fs.Action.{need}
use simpleflashfs.Fs.Action.Keeps.{Keeps, keeps}
use simpleflashfs.Fs.Store.{insert_page, renumber, claim_data_page, claim_free_page}
use simpleflashfs.Fs.Flush.CleanUp.{offset, bytes_of}

-- The file has the page, not yet written.
abbrev pub awaits : List DataPage → ℕ → Bool
awaits [] w = false
awaits (p ∷ ps) w = (is_new p.state && (p.page_id == w)) || awaits ps w

module _ {S : Type 0} (config : Config S) (m : IsMemory config.memory) where
  -- The page w is neither free nor awaited, and has these bytes; every page that is free or awaited
  -- stands in the memory.
  pub record IsApart (h : Header) (size w : ℕ) (bytes : List ℕ) (ps : List DataPage) (fs : Fs S)
      : Type 0 where
    pub header : fs.header ≡ h
    pub len : length (m.contents fs.mem) ≡ size
    pub valid : IsValid fs.free_data_pages
    pub taken : has fs.free_data_pages w ≡ false
    pub written : awaits ps w ≡ false
    pub free_stand :
        (x : ℕ)
        → x ≢ no_data
        → has fs.free_data_pages x ≡ true
        → offset config m h x + h.page_size ≤ size
    pub new_stand : (x : ℕ) → awaits ps x ≡ true → offset config m h x + h.page_size ≤ size
    pub same : bytes_of config m h fs.mem w ≡ bytes

  abbrev pub Apart : Header → ℕ → ℕ → List ℕ → File → Fs S → Type 0
  Apart h size w bytes file fs = IsApart h size w bytes file.inode.data_pages fs

  -- A page that was claimed.
  abbrev pub Claimed : Header → ℕ → ℕ → List ℕ → File → ℕ → File → Fs S → Type 0
  Claimed h size w bytes file p file' fs =
      (file' ≡ file)
      × Apart h size w bytes file fs
      × ((p == w) ≡ false)
      × (offset config m h p + h.page_size ≤ size)

  need-Claimed :
      (h : Header) (size w : ℕ) (bytes : List ℕ) (file : File) (fs : Fs S) (after : PageSet)
      (page : Option ℕ)
      → Apart h size w bytes file fs
      → w ≢ no_data
      → IsValid after
      → ((x : ℕ) → x ≢ no_data → Taken fs.free_data_pages after x page)
      → Keeps
          (Claimed h size w bytes file)
          (Apart h size w bytes)
          (need page file (record fs { free_data_pages = after }))
  need-Claimed h size w bytes file fs after none s hw v t = keeps (record {
    header = s.header;
    len = s.len;
    valid = v;
    taken = (t w hw).1;
    written = s.written;
    free_stand = λ x hx u. absurd (ground (arith, (t x hx).1, u));
    new_stand = s.new_stand;
    same = s.same;
  })
  need-Claimed h size w bytes file fs after (some p) s hw v t =
      let (was, low, member, _) = t w hw in
      let clear : has after w ≡ false = ground (arith, member, s.taken) in
      keeps (
        refl,
        record {
          header = s.header;
          len = s.len;
          valid = v;
          taken = clear;
          written = s.written;
          free_stand =
              λ x hx u. let (_, _, e, _) = t x hx in s.free_stand x hx (ground (arith, e, u));
          new_stand = s.new_stand;
          same = s.same;
        },
        ground (arith, was, s.taken, λ (e : p ≡ w). ap (has fs.free_data_pages) e),
        s.free_stand p (omega arith) was,
      )

  pub claim_free_page-Claimed :
      (h : Header) (size w : ℕ) (bytes : List ℕ) (file : File) (fs : Fs S)
      → Apart h size w bytes file fs
      → w ≢ no_data
      → Keeps (Claimed h size w bytes file) (Apart h size w bytes) (claim_free_page file fs)
  unfolding claim_free_page
  claim_free_page-Claimed h size w bytes file fs s hw =
      let fs' = (allocate_free_data_page fs).1 in
      let (v, _, same) = allocate_free_data_page_lem fs w s.valid hw in
      subst
        (λ (fs' : Fs S).
          Keeps (Claimed h size w bytes file) (Apart h size w bytes)
            (need (allocate_free_data_page fs).0 file fs'))
        (sym same)
        (need-Claimed h size w bytes file fs fs'.free_data_pages (allocate_free_data_page fs).0 s hw
          v (λ x hx. (allocate_free_data_page_lem fs x s.valid hx).1))

  pub claim_data_page-Claimed :
      (h : Header) (size w : ℕ) (bytes : List ℕ) (file : File) (fs : Fs S)
      → Apart h size w bytes file fs
      → w ≢ no_data
      → Keeps (Claimed h size w bytes file) (Apart h size w bytes) (claim_data_page file fs)
  unfolding claim_data_page allocate_file_data_page
  claim_data_page-Claimed h size w bytes file fs s hw =
      elim (Bool-cases
        (leb (get_max_inode_data_pages fs.header file.inode) (length file.inode.data_pages + 1))) [
          | inl e ↦ rw e (keeps s)
          | inr e ↦
              rw e (unfold claim_free_page in claim_free_page-Claimed h size w bytes file fs s hw)
        ]

  -- The list may change where nothing else becomes awaited.
  relist :
      (h : Header) (size w : ℕ) (bytes : List ℕ) (ps qs : List DataPage) (fs : Fs S)
      → IsApart h size w bytes ps fs
      → awaits qs w ≡ false
      → ((x : ℕ) → awaits qs x ≡ true → offset config m h x + h.page_size ≤ size)
      → IsApart h size w bytes qs fs
  relist h size w bytes ps qs fs s clear stand = record {
    header = s.header;
    len = s.len;
    valid = s.valid;
    taken = s.taken;
    written = clear;
    free_stand = s.free_stand;
    new_stand = stand;
    same = s.same;
  }

module _ {S : Type 0} (config : Config S) (m : IsMemory config.memory) where
  stands_or :
      (h : Header) (size p x : ℕ) (a : Bool)
      → ((p == x) || a) ≡ true
      → offset config m h p + h.page_size ≤ size
      → (a ≡ true → offset config m h x + h.page_size ≤ size)
      → offset config m h x + h.page_size ≤ size
  stands_or h size p x a e stands rest = elim (Bool-cases (p == x)) [
    | inl same ↦ let at : x ≡ p = ground (arith, same) in rw at stands
    | inr other ↦ rest (ground (arith, e, other))
  ]

  -- A list that awaits less, or a claimed page more.
  pub relist_less :
      (h : Header) (size w : ℕ) (bytes : List ℕ) (ps qs : List DataPage) (fs : Fs S)
      → IsApart config m h size w bytes ps fs
      → ((x : ℕ) → (awaits qs x && not (awaits ps x)) ≡ false)
      → IsApart config m h size w bytes qs fs
  relist_less h size w bytes ps qs fs s less =
      relist config m h size w bytes ps qs fs s (ground (arith, less w, s.written))
        (λ x u. s.new_stand x (ground (arith, less x, u)))

  pub relist_more :
      (h : Header) (size w : ℕ) (bytes : List ℕ) (ps qs : List DataPage) (fs : Fs S) (p : ℕ)
      → IsApart config m h size w bytes ps fs
      → (p == w) ≡ false
      → offset config m h p + h.page_size ≤ size
      → ((x : ℕ) → (awaits qs x && not ((p == x) || awaits ps x)) ≡ false)
      → IsApart config m h size w bytes qs fs
  relist_more h size w bytes ps qs fs p s other stands less =
      relist config m h size w bytes ps qs fs s (ground (arith, less w, other, s.written)) (λ x u.
        stands_or h size p x (awaits ps x) (ground (arith, less x, u)) stands (s.new_stand x))

pub awaits-insert :
    (ps : List DataPage) (i p x : ℕ)
    → awaits (insert_page ps i (record { page_id = p; state = new })) x ≡ ((p == x) || awaits ps x)
unfolding insert_page
awaits-insert [] zero p x = refl
awaits-insert [] (suc i) p x = refl
awaits-insert (q ∷ ps) zero p x = refl
awaits-insert (q ∷ ps) (suc i) p x = ground (arith, awaits-insert ps i p x)

pub awaits-set :
    (ps : List DataPage) (i : ℕ) (q : DataPage) (x : ℕ)
    → (awaits (set ps i q) x && not ((is_new q.state && (q.page_id == x)) || awaits ps x)) ≡ false
awaits-set [] i q x = refl
awaits-set (p ∷ ps) zero q x = ground arith
awaits-set (p ∷ ps) (suc i) q x = ground (arith, awaits-set ps i q x)

pub awaits-append :
    (ps : List DataPage) (q : DataPage) (x : ℕ)
    → awaits (ps ++ q ∷ []) x ≡ (awaits ps x || (is_new q.state && (q.page_id == x)))
awaits-append [] q x = ground arith
awaits-append (p ∷ ps) q x = ground (arith, awaits-append ps q x)

pub awaits-renumber :
    (old p : ℕ) (ps : List DataPage) (x : ℕ)
    → (awaits (renumber old p ps) x && not (awaits ps x)) ≡ false
unfolding renumber
awaits-renumber old p [] x = refl
awaits-renumber old p (q ∷ ps) x = ground (arith, awaits-renumber old p ps x)

pub awaits-at :
    (ps : List DataPage) (i : ℕ) (p : DataPage)
    → page_at ps i ≡ some p
    → is_new p.state ≡ true
    → awaits ps p.page_id ≡ true
unfolding page_at
awaits-at [] i p e n = cc
awaits-at (q ∷ ps) zero p e n =
    let same : q ≡ p = cc in
    ground
      (arith, n, ap (λ (p : DataPage). p.page_id) same, ap (λ (p : DataPage). is_new p.state) same)
awaits-at (q ∷ ps) (suc i) p e n = ground (arith, awaits-at ps i p e n)
