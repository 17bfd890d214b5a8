-- ===== src/Fs/Header.antt =====
-- The header page of src/base/SimpleFlashFsBase.h: `create_default_header`, `write( Header )` and
-- `init`, with `create` of src/static/SimpleFlashFsStatic.h. `none` stands for an access outside of
-- a buffer.
pub mod Layout
pub mod RoundTrip
pub mod Create
pub mod Tests
use simpleflashfs.Prelude.{
  ℕ, zero, suc, ◌+◌, ◌-◌, ◌*◌, ◌/◌, ◌%◌, ◌^◌, max, Bool, true, false, not, ◌&&◌, ◌||◌, Option, none,
  some, List, [], ◌∷◌, ◌++◌, if◌then◌else◌, ltb, leb, ◌==◌, length, take, drop, replicate,
}
use simpleflashfs.Bytes.{Endianness, le, be, to_page, of_page}
use simpleflashfs.Fs.Types.{Header, Config, Fs, ChecksumType, crc32_sum, empty_header, InodeRange}
use simpleflashfs.Fs.Page.{
  ◌>>=◌, put, zero_page, add_page_checksum, calc_page_checksum, get_page_checksum,
}
use simpleflashfs.Fs.Inode.{Writer, read_int}

-- src/SimpleFlashFsConstants.h and .cc: "SimpleFlashFs", "LE", "BE".
abbrev pub magick_string : List ℕ
magick_string =
    b'S' ∷ b'i' ∷ b'm' ∷ b'p' ∷ b'l' ∷ b'e' ∷ b'F' ∷ b'l' ∷ b'a' ∷ b's' ∷ b'h' ∷ b'F' ∷ b's' ∷ []

abbrev pub magick_string_len : ℕ
magick_string_len = 13

abbrev pub min_page_size : ℕ
min_page_size = 37

abbrev pub endianness_mark : Endianness → List ℕ
endianness_mark le = b'L' ∷ b'E' ∷ []
endianness_mark be = b'B' ∷ b'E' ∷ []

-- For a file system of `filesystem_size` pages, on a host of the given byte order.
unfoldable pub create_default_header : Endianness → ℕ → ℕ → Header
create_default_header host page_size filesystem_size =
    let computed = max (filesystem_size / 10 * 2 % 2 ^ 32) 10 in
    record {
      magic_string = magick_string;
      endianness = host;
      version = 1;
      page_size = page_size;
      filesystem_size = filesystem_size;
      max_inodes = if ltb filesystem_size computed then 2 else computed;
      max_path_len = 50;
      crc_checksum_type = crc32_sum;
    }

abbrev pub checksum_code : ChecksumType → ℕ
checksum_code crc32_sum = 0

module _ {S : Type 0} (config : Config S) where
  -- The lambda `add`, which copies without a test.
  unfoldable pub add : Header → ℕ → ℕ → Writer → Option Writer
  add h width val w = do
    page ← put w.pos (to_page config.host h.endianness width val) w.page
    some (record { page = page; pos = w.pos + width })

  unfoldable pub add_numbers : Header → Writer → Option Writer
  unfolding add
  add_numbers h w = do
    w ← add h 2 h.version w
    w ← add h 4 h.page_size w
    w ← add h 8 h.filesystem_size w
    w ← add h 4 h.max_inodes w
    w ← add h 2 h.max_path_len w
    add h 2 (checksum_code h.crc_checksum_type) w

  -- The page that `write( Header )` puts at address 0.
  unfoldable pub header_page : Header → Option (List ℕ)
  unfolding add_numbers
  header_page h = do
    page ← put 0 h.magic_string (zero_page h.page_size)
    page ← put magick_string_len (endianness_mark h.endianness) page
    w ← add_numbers h (record { page = page; pos = magick_string_len + 2 })
    add_page_checksum config h w.page

  -- `write( Header )`.
  unfoldable pub write_header : Header → Fs S → Option (Bool × Fs S)
  unfolding header_page
  write_header h fs = do
    page ← header_page h
    some (true, record fs { header = h; mem = (config.memory.write fs.mem 0 page).0 })

abbrev pub same_bytes : List ℕ → List ℕ → Bool
same_bytes [] [] = true
same_bytes [] (y ∷ ys) = false
same_bytes (x ∷ xs) [] = false
same_bytes (x ∷ xs) (y ∷ ys) = (x == y) && same_bytes xs ys

unfoldable pub read_endianness : List ℕ → Option Endianness
read_endianness mark =
    if same_bytes mark (endianness_mark be)
    then some be
    else (if same_bytes mark (endianness_mark le) then some le else none)

-- The number fields of the header page and the number of its checksum type.
pub record HeaderFields : Type 0 where
  pub header : Header
  pub chktype : ℕ

module _ {S : Type 0} (config : Config S) where
  -- The calls of the lambda `read` of `init`, on the page behind the byte order mark.
  unfoldable pub read_fields : Header → List ℕ → Option HeaderFields
  read_fields h rest = do
    (version, rest) ← read_int config h 2 rest
    (page_size, rest) ← read_int config h 4 rest
    (filesystem_size, rest) ← read_int config h 8 rest
    (max_inodes, rest) ← read_int config h 4 rest
    (max_path_len, rest) ← read_int config h 2 rest
    (chktype, rest) ← read_int config h 2 rest
    some (record {
      header = record h {
        version = version;
        page_size = page_size;
        filesystem_size = filesystem_size;
        max_inodes = max_inodes;
        max_path_len = max_path_len;
      };
      chktype = chktype;
    })

  -- The tests of `init` behind the number fields; the checksum type can only be CRC32 there.
  unfoldable pub check_fields : HeaderFields → Fs S → Bool × Fs S
  check_fields r fs =
      let page = (config.memory.read fs.mem 0 r.header.page_size).buffer in
      if not (r.chktype == 0)
        || ltb r.header.page_size min_page_size
        || (ltb 0 config.page_limit && ltb config.page_limit r.header.page_size)
      then (false, fs)
      else (if not (calc_page_checksum config page == get_page_checksum config fs.header page)
          then (false, fs)
          else (
            true,
            record fs {
              header = r.header;
              header_inode_range = record { max_page = r.header.max_inodes; current = 0 };
            },
          ))

  init_fields : List ℕ → Option Endianness → Fs S → Option (Bool × Fs S)
  unfolding read_fields check_fields
  init_fields page none fs = some (false, fs)
  init_fields page (some endianness) fs =
      let h : Header = record empty_header {
        magic_string = magick_string;
        endianness = endianness;
      } in
      (do
        r ← read_fields h (drop (magick_string_len + 2) page)
        some (check_fields r (record fs { header = h })))

  unfoldable pub init : Fs S → Option (Bool × Fs S)
  unfolding init_fields read_endianness
  init fs =
      let page = (config.memory.read fs.mem 0 min_page_size).buffer in
      if not (same_bytes (take magick_string_len page) magick_string)
      then some (false, fs)
      else init_fields page (read_endianness (take 2 (drop magick_string_len page))) fs

  -- `create` of the static SimpleFlashFs, for a product of page size and size in pages.
  unfoldable pub create_sized : ℕ → Header → Fs S → Option (Bool × Fs S)
  unfolding write_header init
  create_sized size h fs =
      let invalid =
        ltb (config.memory.size fs.mem) size
        || (h.page_size == 0)
        || (h.filesystem_size == 0)
        || ltb h.page_size min_page_size
        || ltb h.filesystem_size 4 in
      if invalid then some (false, fs) else (do
        (written, fs) ←
            write_header config h (record fs { mem = config.memory.erase fs.mem 0 size })
        if written then init fs else some (false, fs))

  -- The size in pages is a 64-bit number.
  unfoldable pub create : Header → Fs S → Option (Bool × Fs S)
  unfolding create_sized
  create h fs = create_sized (h.page_size * h.filesystem_size % 2 ^ 64) h fs
