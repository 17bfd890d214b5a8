-- ===== src/Fs/Store/Placed.antt =====
-- Where write_page of src/base/SimpleFlashFsBase.h puts the bytes of a page.
use native.Mathlib.Nat.{mul_comm}
use simpleflashfs.Prelude.{
  ℕ, ◌+◌, ◌*◌, ◌%◌, ◌^◌, ◌≤◌, ◌≡◌, ◌≢◌, refl, ap, ◌∙◌, inl, inr, arith, true, false, Option, some,
  List, ◌==◌, Bool-cases, ==_iff, subst, length, set, if◌then◌else◌,
}
use simpleflashfs.Fs.Types.{Config, Fs, File, DataPage, stored}
use mathlib.Core.Option.{some-injective}
use simpleflashfs.Fs.Memory.{IsMemory}
use simpleflashfs.Fs.Memory.Windows.{length-overlay}
use simpleflashfs.Fs.Read.{page_at, is_new, load}
use simpleflashfs.Fs.Read.Pages.{load_lem}
use simpleflashfs.Fs.Alloc.{allocate_free_data_page}
use simpleflashfs.Fs.Action.{Outcome, done}
use simpleflashfs.Fs.Store.{
  renumber, with_pages, claim_free_page, store_page, write_new, write_copy, write_page,
}
use simpleflashfs.Fs.Flush.CleanUp.{offset, bytes_of, bytes_of-overlay, Stands, Addressable}

module _ {S : Type 0} (config : Config S) (m : IsMemory config.memory) where
  -- The page with the number q has the bytes, and no other page of the memory is changed.
  pub record Holds (q : ℕ) (page : List ℕ) (fs after : Fs S) : Type 0 where
    pub header : after.header ≡ fs.header
    pub len : length (m.contents after.mem) ≡ length (m.contents fs.mem)
    pub there : bytes_of config m fs.header after.mem q ≡ page
    pub others :
        (w : ℕ)
        → w ≢ q
        → Stands config m fs.header fs.mem w
        → bytes_of config m fs.header after.mem w ≡ bytes_of config m fs.header fs.mem w

  pub record Stores (q : ℕ) (page : List ℕ) (file : File) (fs : Fs S) (o : Outcome S (Unit {0}))
      : Type 0 where
    pub mem : S
    pub result : o ≡ done tt file (record fs { mem = mem })
    pub holds : Holds q page fs (record fs { mem = mem })

  store_page_lem :
      (q : ℕ) (page : List ℕ) (file : File) (fs : Fs S)
      → Addressable config m fs.header fs.mem
      → Stands config m fs.header fs.mem q
      → length page ≡ fs.header.page_size
      → Stores q page file fs (store_page config q page file fs)
  unfolding store_page
  store_page_lem q page file fs (wide, word) stands whole =
      let ps = fs.header.page_size in
      let address = (ps + ps * q % 2 ^ 32) % 2 ^ 32 in
      let flip : ps * q ≡ q * ps = mul_comm ps q in
      let at : address ≡ offset config m fs.header q = rw flip (omega arith) in
      let room : offset config m fs.header q + length page ≤ length (m.contents fs.mem) =
        omega (arith, stands, whole) in
      let (n, e) = m.write_law fs.mem (offset config m fs.header q) page room in
      let mem' = (config.memory.write fs.mem (offset config m fs.header q) page).0 in
      let all : ((config.memory.write fs.mem (offset config m fs.header q) page).1 == length page)
          ≡ true =
        ground (arith, n) in
      let kept = λ (w : ℕ) (s : Stands config m fs.header fs.mem w).
        bytes_of-overlay config m fs.header fs.mem mem' q w page whole e stands s in
      record {
        mem = mem';
        result = rw (at, all) refl;
        holds = record {
          header = refl;
          len =
              ap (λ (l : List ℕ). length l) e
              ∙ length-overlay (offset config m fs.header q) page (m.contents fs.mem) room;
          there = kept q stands ∙ rw ((==_iff q q).1 refl) refl;
          others = λ w ne s.
              let apart : (q == w) ≡ false = ground (arith, ne) in kept w s ∙ rw apart refl;
        };
      }

  -- The page that the bytes go to, and the filesystem then: the page itself where it is new, and a
  -- free one otherwise. And the entries of the file behind it.
  abbrev pub place : DataPage → Fs S → Option ℕ × Fs S
  place p fs = if is_new p.state then (some p.page_id, fs) else allocate_free_data_page fs

  abbrev pub relisted : ℕ → DataPage → ℕ → File → File
  relisted idx p q file = with_pages file (
      if is_new p.state
      then set file.inode.data_pages idx (record p { state = stored })
      else renumber p.page_id q file.inode.data_pages)

  pub record Places (idx : ℕ) (p : DataPage) (q : ℕ) (page : List ℕ) (file : File) (fs : Fs S)
      (o : Outcome S (Unit {0})) : Type 0 where
    pub after : Fs S
    pub result : o ≡ done tt (relisted idx p q file) after
    pub holds : Holds q page fs after
    pub read_back : load config after (record { page_id = q; state = stored }) ≡ some page

  read_back_lem :
      (q : ℕ) (page : List ℕ) (fs after : Fs S)
      → Stands config m fs.header fs.mem q
      → Holds q page fs after
      → load config after (record { page_id = q; state = stored }) ≡ some page
  read_back_lem q page fs after stands holds =
      load_lem config after m (record { page_id = q; state = stored })
        (rw holds.header (omega (arith, stands, holds.len)))
      ∙ rw holds.header (ap some holds.there)

  module _ (idx : ℕ) (p : DataPage) (page : List ℕ) (file : File) (fs : Fs S)
      (e : page_at file.inode.data_pages idx ≡ some p)
      (room : Addressable config m fs.header fs.mem)
      (whole : length page ≡ fs.header.page_size) where
    new_Places :
        is_new p.state ≡ true
        → Stands config m fs.header fs.mem p.page_id
        → Places idx p p.page_id page file fs (write_page config idx page file fs)
    unfolding write_page
    new_Places fresh stands =
        let s = store_page_lem p.page_id page file fs room stands whole in
        record {
          after = record fs { mem = s.mem };
          result = rw (e, fresh, write_new, s.result) refl;
          holds = s.holds;
          read_back = read_back_lem p.page_id page fs (record fs { mem = s.mem }) stands s.holds;
        }

    copy_Places :
        (q : ℕ)
        → is_new p.state ≡ false
        → (allocate_free_data_page fs).0 ≡ some q
        → Stands config m fs.header fs.mem q
        → Places idx p q page file fs (write_page config idx page file fs)
    unfolding write_page allocate_free_data_page
    copy_Places q old to stands =
        let fs1 = (allocate_free_data_page fs).1 in
        let s = store_page_lem q page file fs1 room stands whole in
        let holds : Holds q page fs (record fs1 { mem = s.mem }) = record {
          header = refl;
          len = s.holds.len;
          there = s.holds.there;
          others = s.holds.others;
        } in
        record {
          after = record fs1 { mem = s.mem };
          result = rw (e, old, write_copy, claim_free_page, to, s.result) refl;
          holds = holds;
          read_back = read_back_lem q page fs (record fs1 { mem = s.mem }) stands holds;
        }

  -- `write_page` of a page of the file, on a memory of at most 2^32 bytes: a page that is new is
  -- written where it is, and any other goes to the free page that the allocator gives. If that place
  -- stands in the memory, the method ends, `read_page` gives the bytes from there, no other page of
  -- the memory is changed, and the file has the page there, as stored.
  pub write_page_lem :
      (idx q : ℕ) (p : DataPage) (page : List ℕ) (file : File) (fs : Fs S)
      → page_at file.inode.data_pages idx ≡ some p
      → (place p fs).0 ≡ some q
      → Addressable config m fs.header fs.mem
      → Stands config m fs.header fs.mem q
      → length page ≡ fs.header.page_size
      → Places idx p q page file fs (write_page config idx page file fs)
  write_page_lem idx q p page file fs e to room stands whole = elim (Bool-cases (is_new p.state)) [
    | inl fresh ↦
        let same : p.page_id ≡ q = some-injective _ _ (rw fresh at to) in
        subst (λ q. Places idx p q page file fs (write_page config idx page file fs)) same
          (new_Places idx p page file fs e room whole fresh (rw same stands))
    | inr old ↦ copy_Places idx p page file fs e room whole q old (rw old at to) stands
  ]
