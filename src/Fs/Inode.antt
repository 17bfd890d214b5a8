-- ===== src/Fs/Inode.antt =====
-- `inode2page` and `get_inode` of src/base/SimpleFlashFsBase.h: an inode and the page that stores it.
-- `none` stands for the exception of `inode2page` and for a copy outside of a buffer.
pub mod Layout
pub mod RoundTrip
pub mod Sealed
pub mod Tests
use simpleflashfs.Prelude.{
  ℕ, zero, suc, ◌+◌, ◌-◌, ◌*◌, ◌/◌, ◌%◌, ◌^◌, Bool, true, false, not, ◌&&◌, Option, none, some,
  List, [], ◌∷◌, ◌++◌, if◌then◌else◌, ltb, leb, ◌==◌, length, take, replicate,
}
use simpleflashfs.Bytes.{to_page, of_page}
use simpleflashfs.Fs.Types.{
  Header, Config, Inode, DataPage, File, new, stored, deleted, empty_inode, new_file,
}
use simpleflashfs.Fs.Page.{◌>>=◌, zero_page, put, split, checksum_size}

-- The page that is written, and the position in it.
pub record Writer : Type 0 where
  pub page : List ℕ
  pub pos : ℕ

-- The arithmetic is that of a 64-bit size_t. The constants are the sizes of the number fields.
unfoldable pub get_inode_data_space_size : Header → Inode → ℕ
get_inode_data_space_size h i =
    (h.page_size
      + 2 ^ 64
      - (8 + 8 + 2 + i.file_name_len + 8 + 8 + 4 + checksum_size h.crc_checksum_type) % 2 ^ 64)
    % 2 ^ 64

unfoldable pub get_max_inode_data_pages : Header → Inode → ℕ
unfolding get_inode_data_space_size
get_max_inode_data_pages h i = get_inode_data_space_size h i / 4

module _ {S : Type 0} (config : Config S) (h : Header) where
  -- The lambda `write`; its test takes the size of a size_t, whatever is written.
  unfoldable pub write_int : ℕ → ℕ → Writer → Option Writer
  write_int width val w = if ltb (length w.page) (w.pos + 8) then none else (do
    page ← put w.pos (to_page config.host h.endianness width val) w.page
    some (record { page = page; pos = w.pos + width }))

  unfoldable pub write_page_ids : List DataPage → Writer → Option Writer
  write_page_ids [] w = some w
  write_page_ids (p ∷ ps) w = do w' ← write_int 4 p.page_id w; write_page_ids ps w'

  -- `file_name_len` bytes from the start of the name.
  unfoldable pub write_name : Inode → Writer → Option Writer
  write_name i w = do
    (name, _) ← split i.file_name_len i.file_name
    page ← put w.pos name w.page
    some (record { page = page; pos = w.pos + i.file_name_len })

  unfoldable pub write_inode_data : Inode → Writer → Option (List ℕ)
  write_inode_data i w =
      if length i.data_pages == 0 && ltb 0 i.file_len
      then put w.pos i.inode_data w.page
      else some w.page

  unfoldable pub inode2page : Inode → Option (List ℕ)
  inode2page i = do
    w ← write_int 8 i.inode_number (record { page = zero_page h.page_size; pos = 0 })
    w ← write_int 8 i.inode_version_number w
    w ← write_int 2 i.file_name_len w
    w ← write_name i w
    w ← write_int 8 i.attributes w
    w ← write_int 8 i.file_len w
    w ← write_int 4 (length i.data_pages) w
    w ← write_page_ids i.data_pages w
    write_inode_data i w

  -- The lambda `read`, on the page from `pos` on.
  unfoldable pub read_int : ℕ → List ℕ → Option (ℕ × List ℕ)
  read_int width rest = do
    (bytes, rest') ← split width rest
    some (of_page config.host h.endianness width bytes, rest')

-- An int taken to uint64_t.
abbrev pub sign_extend : ℕ → ℕ
sign_extend n = if ltb n (2 ^ 31) then n else n + 2 ^ 64 - 2 ^ 32

-- The file length after a page that lies outside of the filesystem was left out. `file_len` is an
-- int there; its clamp to 0 is overwritten at once, and has no effect.
unfoldable pub shortened : Header → Bool → ℕ → ℕ
shortened h is_last file_len =
    let len = file_len % 2 ^ 32 in
    let rest = len % h.page_size in
    let part = (if is_last then (if rest == 0 then h.page_size else rest) else h.page_size) in
    sign_extend ((len + 2 ^ 32 - part) % 2 ^ 32)

-- The variables of the loop over the page ids.
pub record Reading : Type 0 where
  pub file_len : ℕ
  pub modified : Bool
  pub data_pages : List DataPage
  pub len_read : ℕ

abbrev pub keep_page : Header → ℕ → Reading → Reading
keep_page h page_id r = record r {
  data_pages = r.data_pages ++ record { page_id = page_id; state = stored } ∷ [];
  len_read = r.len_read + h.page_size;
}

module _ {S : Type 0} (config : Config S) (h : Header) (do_error_corrections : Bool) where
  -- The loop with `left` rounds left; the last round is the one that reads the last page id.
  unfoldable pub read_page_ids : ℕ → Reading → List ℕ → Option Reading
  read_page_ids zero r rest = some r
  read_page_ids (suc left) r rest = do
    (page_id, rest') ← read_int config h 4 rest
    let go_on = read_page_ids left (keep_page h page_id r) rest'
    let skip =
        read_page_ids left
          (record r { file_len = shortened h (left == 0) r.file_len; modified = true }) rest'
    if not do_error_corrections
        then go_on
        else (if leb h.filesystem_size page_id
            then skip
            else (if leb r.file_len r.len_read then some (record r { modified = true }) else go_on))

  -- The data that is stored in the inode itself.
  unfoldable pub read_inode_data : File → List ℕ → Option File
  read_inode_data f rest =
      let space = get_inode_data_space_size h f.inode in
      if leb f.inode.file_len space
      then (do
        (bytes, _) ← split f.inode.file_len rest
        some (record f {
          inode = record f.inode { inode_data = bytes ++ replicate (space - f.inode.file_len) 0 };
        }))
      else some (record f { inode = record f.inode { file_len = 0 }; modified = true })

  unfoldable pub read_data : File → List ℕ → Option File
  read_data f rest =
      if f.inode.pages == 0
      then (if ltb 0 f.inode.file_len then read_inode_data f rest else some f)
      else (do
        r ←
            read_page_ids f.inode.pages
              (record {
                file_len = f.inode.file_len;
                modified = false;
                data_pages = [];
                len_read = 0;
              })
              rest
        some (record f {
          inode = record f.inode { file_len = r.file_len; data_pages = r.data_pages };
          modified = r.modified;
        }))

  unfoldable pub get_inode : List ℕ → Option File
  get_inode page = do
    (inode_number, rest) ← read_int config h 8 page
    (inode_version_number, rest) ← read_int config h 8 rest
    (file_name_len, rest) ← read_int config h 2 rest
    (file_name, rest) ← split file_name_len rest
    (attributes, rest) ← read_int config h 8 rest
    (file_len, rest) ← read_int config h 8 rest
    (pages, rest) ← read_int config h 4 rest
    let inode : Inode = record {
      inode_number = inode_number;
      inode_version_number = inode_version_number;
      file_name_len = file_name_len;
      file_name = file_name;
      attributes = attributes;
      file_len = file_len;
      pages = pages;
      data_pages = [];
      inode_data = [];
    }
    read_data (record new_file { inode = inode }) rest
