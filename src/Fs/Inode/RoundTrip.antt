-- ===== src/Fs/Inode/RoundTrip.antt =====
-- `get_inode` of src/base/SimpleFlashFsBase.h reads back what `inode2page` stored.
use simpleflashfs.Prelude.{
  ℕ, suc, ◌+◌, ◌-◌, ◌*◌, ◌^◌, ◌≤◌, ◌<◌, ◌≡◌, ◌⊎◌, refl, ap, ◌∙◌, arith, Bool, true, false, not,
  Option, some, List, [], ◌∷◌, ◌++◌, map, if◌then◌else◌, ltb, leb, length, take, replicate,
  append_assoc, append-nil, leb_of_le, leb_of_lt, subst, inl, inr, Bool-cases, suc-ne-zero,
}
use simpleflashfs.Bytes.Order.{length-to_page, of_page-to_page}
use simpleflashfs.Fs.Types.{Header, Config, Inode, DataPage, File, stored, new_file}
use simpleflashfs.Fs.Page.{◌>>=◌}
use simpleflashfs.Fs.Page.Copies.{split-append, split-take}
use simpleflashfs.Fs.Inode.{
  read_int, read_page_ids, read_inode_data, read_data, get_inode, Reading, keep_page,
  get_inode_data_space_size,
}
use simpleflashfs.Fs.Inode.Layout.{Fits, is_inline, inline_data, field, page_ids, layout}

abbrev pub restore_page : DataPage → DataPage
restore_page p = record p { state = stored }

-- The page ids are 32-bit numbers of pages of the filesystem.
abbrev pub Inside : Header → List DataPage → Type 0
Inside h [] = Unit {0}
Inside h (p ∷ ps) = (p.page_id < 2 ^ 32) × (p.page_id < h.filesystem_size) × Inside h ps

same_branches : (b : Bool) (x : Option Reading) → (if b then x else x) ≡ x
same_branches true x = refl
same_branches false x = refl

module _ {S : Type 0} (config : Config S) (h : Header) where
  pub read_int-field :
      (width val : ℕ) (rest : List ℕ)
      → val < 256 ^ width
      → read_int config h width (field config h width val ++ rest) ≡ some (val, rest)
  unfolding read_int
  read_int-field width val rest fits =
      rw
        (
          split-append width (field config h width val) rest
              (length-to_page config.host h.endianness width val),
          of_page-to_page config.host h.endianness width val fits,
        )
        refl

  module _ (correct : Bool) where
    read_page_ids-stored :
        (ps : List DataPage) (r : Reading) (rest : List ℕ)
        → Inside h ps
        → length ps * h.page_size + r.len_read < r.file_len + h.page_size
        → read_page_ids config h correct (length ps) r (page_ids config h ps ++ rest)
          ≡ some (record r {
            data_pages = r.data_pages ++ map restore_page ps;
            len_read = r.len_read + length ps * h.page_size;
          })
    unfolding read_page_ids
    read_page_ids-stored [] r rest ok short =
        let e : r.len_read + 0 * h.page_size ≡ r.len_read = omega arith in simp (append-nil, e)
    read_page_ids-stored (p ∷ ps) r rest ok short =
        let more : length ps * h.page_size + (r.len_read + h.page_size) < r.file_len + h.page_size =
          omega arith in
        let sum : r.len_read + h.page_size + length ps * h.page_size
            ≡ r.len_read + suc (length ps) * h.page_size =
          omega arith in
        let go_on : Option Reading =
          read_page_ids config h correct (length ps) (keep_page h p.page_id r)
            (page_ids config h ps ++ rest) in
        rw
          (
            append_assoc (field config h 4 p.page_id) (page_ids config h ps) rest,
            read_int-field 4 p.page_id (page_ids config h ps ++ rest) ok.0,
            leb_of_lt h.filesystem_size p.page_id ok.1,
            leb_of_lt r.file_len r.len_read (omega arith),
          )
          (same_branches (not correct) go_on
            ∙ read_page_ids-stored ps (keep_page h p.page_id r) rest ok.2 more
            ∙ rw (sum, append_assoc r.data_pages (restore_page p ∷ []) (map restore_page ps)) refl)

-- What comes back: the pages count as stored, and behind the data in the inode stand zeros.
abbrev pub restored : Header → Inode → Inode
restored h i = record i {
  pages = length i.data_pages;
  data_pages = map restore_page i.data_pages;
  inode_data =
      if is_inline i
      then take i.file_len i.inode_data ++ replicate (get_inode_data_space_size h i - i.file_len) 0
      else [];
}

-- The numbers fit their types, the page ids are pages of the filesystem, no page lies wholly behind
-- the end of the file, and data in the inode is there up to the length of the file.
pub record IsStorable (h : Header) (i : Inode) : Type 0 where
  pub number : i.inode_number < 2 ^ 64
  pub version : i.inode_version_number < 2 ^ 64
  pub name_word : i.file_name_len < 2 ^ 16
  pub attribute_bits : i.attributes < 2 ^ 64
  pub len_word : i.file_len < 2 ^ 64
  pub page_count : length i.data_pages < 2 ^ 32
  pub page_size_word : h.page_size < 2 ^ 32
  pub inside : Inside h i.data_pages
  pub covered :
      length i.data_pages ≡ 0 ⊎ length i.data_pages * h.page_size < i.file_len + h.page_size
  pub inline_len : is_inline i ≡ true → i.file_len ≤ length i.inode_data

module _ {S : Type 0} (config : Config S) (h : Header) (correct : Bool) where
  -- The fields in front of the data.
  get_inode-read_data :
      (i : Inode) (rest : List ℕ)
      → Fits h i
      → IsStorable h i
      → get_inode config h correct (layout config h i ++ rest)
        ≡ read_data config h correct
            (record new_file {
              inode = record i { pages = length i.data_pages; data_pages = []; inode_data = [] };
            })
            (page_ids config h i.data_pages ++ (inline_data i ++ rest))
  unfolding get_inode
  get_inode-read_data i rest fits words =
      rw
        (
          append_assoc _ _ rest,
          read_int-field config h 8 i.inode_number _ words.number,
          append_assoc _ _ rest,
          read_int-field config h 8 i.inode_version_number _ words.version,
          append_assoc _ _ rest,
          read_int-field config h 2 i.file_name_len _ words.name_word,
          append_assoc _ _ rest,
          split-append i.file_name_len i.file_name _ fits.name_len,
          append_assoc _ _ rest,
          read_int-field config h 8 i.attributes _ words.attribute_bits,
          append_assoc _ _ rest,
          read_int-field config h 8 i.file_len _ words.len_word,
          append_assoc _ _ rest,
          read_int-field config h 4 (length i.data_pages) _ words.page_count,
          append_assoc _ _ rest,
        )
        refl

  abbrev blank : Inode → File
  blank i = record new_file {
    inode = record i { pages = length i.data_pages; data_pages = []; inode_data = [] };
  }

  same_space :
      (i : Inode) → get_inode_data_space_size h (blank i).inode ≡ get_inode_data_space_size h i
  unfolding get_inode_data_space_size
  same_space i = refl

  inline_room :
      (i : Inode)
      → Fits h i
      → is_inline i ≡ true
      → i.file_len ≤ length i.inode_data
      → i.file_len ≤ h.page_size - (42 + i.file_name_len)
  inline_room i fits e le =
      let room =
        subst
          (λ (b : Bool).
            42 + i.file_name_len + 4 * length i.data_pages + length (if b then i.inode_data else [])
            ≤ h.page_size)
          e fits.room in
      omega arith

  space_lem :
      (i : Inode)
      → Fits h i
      → h.page_size < 2 ^ 32
      → get_inode_data_space_size h i ≡ h.page_size - (42 + i.file_name_len)
  unfolding get_inode_data_space_size
  space_lem i fits word = let room = fits.room in ground arith

  read_inode_data-inline :
      (i : Inode) (rest : List ℕ)
      → Fits h i
      → IsStorable h i
      → is_inline i ≡ true
      → read_inode_data config h correct (blank i) (i.inode_data ++ rest)
        ≡ some (record new_file {
          inode = record i {
            pages = length i.data_pages;
            data_pages = [];
            inode_data =
                take i.file_len i.inode_data
                ++ replicate (get_inode_data_space_size h i - i.file_len) 0;
          };
        })
  unfolding read_inode_data
  read_inode_data-inline i rest fits words e =
      let (r, taken) = split-take i.file_len i.inode_data rest (words.inline_len e) in
      let small : leb i.file_len (get_inode_data_space_size h i) ≡ true =
        leb_of_le _ _ (
          rw (space_lem i fits words.page_size_word) (inline_room i fits e (words.inline_len e))) in
      rw (same_space i, small, taken) refl

  abbrev with_pages : Inode → List DataPage → Inode
  with_pages i ds = record i { data_pages = ds }

  read_data-blank :
      (i : Inode) (ds : List DataPage) (rest : List ℕ)
      → Fits h (with_pages i ds)
      → IsStorable h (with_pages i ds)
      → read_data config h correct
          (blank (with_pages i ds))
          (page_ids config h ds ++ (inline_data (with_pages i ds) ++ rest))
        ≡ some (record new_file { inode = restored h (with_pages i ds) })
  unfolding read_data
  read_data-blank i [] rest fits words = elim (Bool-cases (ltb 0 i.file_len)) [
    | inl e ↦ simp e (read_inode_data-inline (with_pages i []) rest fits words e)
    | inr e ↦ simp e
  ]
  read_data-blank i (p ∷ ps) rest fits words =
      let start : Reading = record {
        file_len = i.file_len;
        modified = false;
        data_pages = [];
        len_read = 0;
      } in
      simp (suc-ne-zero (length ps)) (
        ap finish (
          read_page_ids-stored config h correct (p ∷ ps) start rest words.inside
            (covers (length ps) words.covered)))
    where
      finish : Option Reading → Option File
      finish m = m >>= λ r. some (record new_file {
        inode = record i {
          pages = suc (length ps);
          file_len = r.file_len;
          data_pages = r.data_pages;
          inode_data = [];
        };
        modified = r.modified;
      })

      covers :
          (n : ℕ)
          → (suc n ≡ 0) ⊎ (suc n * h.page_size < i.file_len + h.page_size)
          → suc n * h.page_size + 0 < i.file_len + h.page_size
      covers n (inl e) = absurd (omega arith)
      covers n (inr c) = omega arith

  -- Reading the page of an inode that fits, whatever its checksum bytes, gives the inode back, with
  -- and without error corrections, and finds nothing to correct.
  pub get_inode-layout :
      (i : Inode) (rest : List ℕ)
      → Fits h i
      → IsStorable h i
      → get_inode config h correct (layout config h i ++ rest)
        ≡ some (record new_file { inode = restored h i })
  get_inode-layout i rest fits words =
      get_inode-read_data i rest fits words ∙ read_data-blank i i.data_pages rest fits words
