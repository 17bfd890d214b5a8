-- ===== src/Fs/Inode/Layout.antt =====
-- The page that `inode2page` of src/base/SimpleFlashFsBase.h makes, field by field.
use simpleflashfs.Prelude.{
  ℕ, suc, ◌+◌, ◌-◌, ◌*◌, ◌≤◌, ◌≡◌, refl, sym, ap, ◌∙◌, arith, Bool, ◌&&◌, some, List, [], ◌∷◌, ◌++◌,
  if◌then◌else◌, ltb, ◌==◌, length, length-append, length-replicate, append_assoc, append-nil,
  ltb_of_le, subst, inl, inr, Bool-cases,
}
use simpleflashfs.Bytes.{to_page}
use simpleflashfs.Bytes.Order.{length-to_page}
use simpleflashfs.Fs.Types.{Header, Config, Inode, DataPage}
use simpleflashfs.Fs.Page.{zero_page, split}
use simpleflashfs.Fs.Page.Copies.{put-zeros, split-append}
use simpleflashfs.Fs.Inode.{
  Writer, write_int, write_page_ids, write_name, write_inode_data, inode2page,
}

-- Whether the data is stored in the inode's page.
abbrev pub is_inline : Inode → Bool
is_inline i = length i.data_pages == 0 && ltb 0 i.file_len

abbrev pub inline_data : Inode → List ℕ
inline_data i = if is_inline i then i.inode_data else []

-- The name has the length that is stored with it, and all fields, the data in the inode and the
-- checksum of four bytes fit into the page.
pub record Fits (h : Header) (i : Inode) : Type 0 where
  pub name_len : length i.file_name ≡ i.file_name_len
  pub room : 42 + i.file_name_len + 4 * length i.data_pages + length (inline_data i) ≤ h.page_size

module _ {S : Type 0} (config : Config S) (h : Header) where
  abbrev pub field : ℕ → ℕ → List ℕ
  field width val = to_page config.host h.endianness width val

  abbrev pub page_ids : List DataPage → List ℕ
  page_ids [] = []
  page_ids (p ∷ ps) = field 4 p.page_id ++ page_ids ps

  -- The fields in the order of the Readme.
  abbrev pub layout : Inode → List ℕ
  layout i =
      field 8 i.inode_number
      ++ (field 8 i.inode_version_number
          ++ (field 2 i.file_name_len
              ++ (i.file_name
                  ++ (field 8 i.attributes
                      ++ (field 8 i.file_len
                          ++ (field 4 (length i.data_pages)
                              ++ (page_ids i.data_pages ++ inline_data i)))))))

  -- A writer that has filled `done`, with `room` zeros behind.
  abbrev at : List ℕ → ℕ → Writer
  at done room = record { page = done ++ zero_page room; pos = length done }

  write_int-at :
      (width val : ℕ) (done : List ℕ) (room : ℕ)
      → width ≤ 8
      → 8 ≤ room
      → write_int config h width val (at done room)
        ≡ some (at (done ++ field width val) (room - width))
  unfolding write_int
  write_int-at width val done room small big =
      rw
        (
          ltb_of_le (length (done ++ zero_page room)) (length done + 8)
              (omega (arith, length-append done (zero_page room), length-replicate {A = ℕ} room 0)),
          put-zeros done (field width val) room (length done) refl
              (omega (arith, length-to_page config.host h.endianness width val)),
          length-to_page config.host h.endianness width val,
          length-append done (field width val),
          length-to_page config.host h.endianness width val,
        )
        refl

  length-page_ids : (ps : List DataPage) → length (page_ids ps) ≡ 4 * length ps
  length-page_ids [] = refl
  length-page_ids (p ∷ ps) = omega (
    arith,
    length-append (field 4 p.page_id) (page_ids ps),
    length-to_page config.host h.endianness 4 p.page_id,
    length-page_ids ps,
  )

  write_page_ids-at :
      (ps : List DataPage) (done : List ℕ) (room : ℕ)
      → 4 * length ps + 4 ≤ room
      → write_page_ids config h ps (at done room)
        ≡ some (at (done ++ page_ids ps) (room - 4 * length ps))
  unfolding write_page_ids
  write_page_ids-at [] done room fits =
      let e : room - 4 * 0 ≡ room = omega arith in rw (append-nil done, e) refl
  write_page_ids-at (p ∷ ps) done room fits =
      let e : room - 4 - 4 * length ps ≡ room - 4 * suc (length ps) = omega arith in
      rw
        (
          write_int-at 4 p.page_id done room (omega arith) (omega arith),
          write_page_ids-at ps (done ++ field 4 p.page_id) (room - 4) (omega arith),
          append_assoc done (field 4 p.page_id) (page_ids ps),
          e,
        )
        refl

  write_name-at :
      (i : Inode) (done : List ℕ) (room : ℕ)
      → length i.file_name ≡ i.file_name_len
      → i.file_name_len ≤ room
      → write_name config h i (at done room)
        ≡ some (at (done ++ i.file_name) (room - i.file_name_len))
  unfolding write_name
  write_name-at i done room len fits =
      let whole : split i.file_name_len i.file_name ≡ some (i.file_name, []) =
        ap (split i.file_name_len) (sym (append-nil i.file_name))
        ∙ split-append i.file_name_len i.file_name [] len in
      rw
        (
          whole,
          put-zeros done i.file_name room (length done) refl (omega arith),
          len,
          length-append done i.file_name,
          len,
        )
        refl

  write_inode_data-at :
      (i : Inode) (done : List ℕ) (room : ℕ)
      → length (inline_data i) ≤ room
      → write_inode_data config h i (at done room)
        ≡ some ((done ++ inline_data i) ++ zero_page (room - length (inline_data i)))
  unfolding write_inode_data
  write_inode_data-at i done room fits = elim (Bool-cases (is_inline i)) [
    | inl e ↦ simp e (
        put-zeros done i.inode_data room (length done) refl
          (subst (λ (b : Bool). length (if b then i.inode_data else []) ≤ room) e fits))
    | inr e ↦ simp (e, append-nil) (ap (λ (n : ℕ). some (done ++ zero_page n)) (omega arith))
  ]

  pub length-layout :
      (i : Inode)
      → length i.file_name ≡ i.file_name_len
      → length (layout i) ≡ 38 + i.file_name_len + 4 * length i.data_pages + length (inline_data i)
  length-layout i len = simp (length-append, length-to_page, length-page_ids, len) (omega arith)

  -- The writes one after the other make the layout.
  pages-eq :
      (i : Inode)
      → length i.file_name ≡ i.file_name_len
      → ((((((((field 8 i.inode_number ++ field 8 i.inode_version_number)
                        ++ field 2 i.file_name_len)
                      ++ i.file_name)
                    ++ field 8 i.attributes)
                  ++ field 8 i.file_len)
                ++ field 4 (length i.data_pages))
              ++ page_ids i.data_pages)
            ++ inline_data i)
          ++ zero_page (
              h.page_size
              - 8
              - 8
              - 2
              - i.file_name_len
              - 8
              - 8
              - 4
              - 4 * length i.data_pages
              - length (inline_data i))
        ≡ layout i ++ zero_page (h.page_size - length (layout i))
  pages-eq i len =
      let e : h.page_size
            - 8
            - 8
            - 2
            - i.file_name_len
            - 8
            - 8
            - 4
            - 4 * length i.data_pages
            - length (inline_data i)
          ≡ h.page_size - length (layout i) =
        omega (arith, length-layout i len) in
      rw e (simp append_assoc)

  -- `inode2page` of an inode that fits in front of a checksum of four bytes makes a page: the inode
  -- number and the version in 8 bytes each, the length of the name in 2, the name, the attributes and
  -- the file length in 8 bytes each, the number of pages and each page number in 4 bytes each, what
  -- is stored in the inode where it has no pages, and zeros. Numbers have the header's byte order.
  pub inode2page-layout :
      (i : Inode)
      → Fits h i
      → inode2page config h i ≡ some (layout i ++ zero_page (h.page_size - length (layout i)))
  unfolding inode2page
  inode2page-layout i fits =
      let open_room = fits.room in
      let len = fits.name_len in
      let n : ℕ = h.page_size in
      rw
        (
          write_int-at 8 i.inode_number [] n (omega arith) (omega arith),
          write_int-at 8 i.inode_version_number _ (n - 8) (omega arith) (omega arith),
          write_int-at 2 i.file_name_len _ (n - 8 - 8) (omega arith) (omega arith),
          write_name-at i _ (n - 8 - 8 - 2) len (omega arith),
          write_int-at 8 i.attributes _ (n - 8 - 8 - 2 - i.file_name_len) (omega arith)
              (omega arith),
          write_int-at 8 i.file_len _ (n - 8 - 8 - 2 - i.file_name_len - 8) (omega arith)
              (omega arith),
          write_int-at 4 (length i.data_pages) _ (n - 8 - 8 - 2 - i.file_name_len - 8 - 8)
              (omega arith) (omega arith),
          write_page_ids-at i.data_pages _ (n - 8 - 8 - 2 - i.file_name_len - 8 - 8 - 4)
              (omega arith),
          write_inode_data-at i _
              (n - 8 - 8 - 2 - i.file_name_len - 8 - 8 - 4 - 4 * length i.data_pages) (omega arith),
        )
        (ap some (pages-eq i len))
