-- ===== src/Fs/Alloc.antt =====
-- The allocators of src/base/SimpleFlashFsBase.h: inode pages, claimed in `allocated_unwritten_pages`
-- until they are written, and data pages, taken from `free_data_pages`.
pub mod InodePages
pub mod DataPages
pub mod Tests
use simpleflashfs.Prelude.{
  ℕ, zero, suc, ◌+◌, ◌-◌, ◌*◌, ◌%◌, ◌^◌, Bool, true, false, not, ◌&&◌, Option, none, some, List, [],
  ◌∷◌, if◌then◌else◌, ltb, leb, ◌==◌, length,
}
use simpleflashfs.PageSet.{PageSet, insert, erase, erase_at, count, is_empty, size}
use simpleflashfs.Fs.Types.{Header, Config, Fs, File, Inode, InodeRange, new_file, no_file}
use simpleflashfs.Fs.Page.{PageRead, ok, read_error, crc_error, read_page, read_page_mapped}
use simpleflashfs.Fs.Inode.{get_max_inode_data_pages}

-- `has_next` and `next` of the range; `start` is `next` after a reset.
abbrev pub has_next : InodeRange → Bool
has_next r = ltb r.current r.max_page

abbrev pub next : InodeRange → InodeRange × ℕ
next r = (record r { current = r.current + 1 }, r.current)

abbrev pub is_crc_error : PageRead → Bool
is_crc_error (ok page) = false
is_crc_error read_error = false
is_crc_error (crc_error page) = true

module _ {S : Type 0} (config : Config S) where
  -- The inode page i, mapped where the memory maps.
  unfoldable pub read_inode_page : Fs S → ℕ → PageRead
  unfolding read_page read_page_mapped
  read_inode_page fs i =
      if config.memory.can_map_read
      then read_page_mapped config fs i fs.header.page_size true
      else read_page config fs i fs.header.page_size true

  -- The body of the loop for page i: claims the page if its checksum is wrong and no one has it.
  -- Returns whether it did, and `allocated_unwritten_pages`.
  unfoldable pub try_claim : ℕ → Fs S → Bool × PageSet
  unfolding read_inode_page insert count
  try_claim i fs =
      let (allocated, found) = count i fs.allocated_unwritten_pages in
      if not (is_crc_error (read_inode_page fs i))
      then (false, fs.allocated_unwritten_pages)
      else (if found == 0 then (true, insert i allocated) else (false, allocated))

  -- The loop at page i, with at most `left` rounds.
  unfoldable pub claim_from : ℕ → ℕ → Fs S → Option ℕ × Fs S
  claim_from zero i fs = (none, fs)
  claim_from (suc left) i fs =
      let (claimed, allocated) = try_claim i fs in
      let (range, i') = next fs.header_inode_range in
      let later =
        claim_from left i'
          (record fs { allocated_unwritten_pages = allocated; header_inode_range = range }) in
      if not (has_next fs.header_inode_range)
      then (none, fs)
      else (if claimed
          then (some i, record fs { allocated_unwritten_pages = allocated })
          else later)

  -- `allocate_free_inode_page_number`; the range has at most `max_page` rounds.
  unfoldable pub allocate_free_inode_page_number : Fs S → Option ℕ × Fs S
  unfolding claim_from
  allocate_free_inode_page_number fs =
      let (range, i) = next (record fs.header_inode_range { current = 0 }) in
      claim_from range.max_page i (record fs { header_inode_range = range })

  abbrev handle_of : Option ℕ → File
  handle_of none = no_file
  handle_of (some i) = record new_file { page = i }

  unfoldable pub allocate_free_inode_page : Fs S → File × Fs S
  unfolding allocate_free_inode_page_number
  allocate_free_inode_page fs =
      let (page, fs') = allocate_free_inode_page_number fs in (handle_of page, fs')

-- `*begin()` of a set, and the set without it.
abbrev pub take_first : PageSet → List ℕ → Option ℕ × PageSet
take_first s [] = (none, s)
take_first s (x ∷ xs) = (some x, erase_at 0 s)

-- The same of a set with the result of its `empty`.
abbrev pub first_of : PageSet → Bool → Option ℕ × PageSet
first_of s empty = if empty then (none, s) else take_first s s.entries

module _ {S : Type 0} where
  unfoldable pub free_unwritten_pages : ℕ → Fs S → Fs S
  unfolding erase
  free_unwritten_pages page fs = record fs {
    allocated_unwritten_pages = (erase page fs.allocated_unwritten_pages).0;
  }

  unfoldable pub allocate_free_data_page : Fs S → Option ℕ × Fs S
  unfolding erase_at is_empty
  allocate_free_data_page fs =
      let (free, empty) = is_empty fs.free_data_pages in
      let (page, left) = first_of free empty in (page, record fs { free_data_pages = left })

  -- The overload for a file, whose inode page must have room for one more page number.
  unfoldable pub allocate_file_data_page : File → Fs S → Option ℕ × Fs S
  unfolding allocate_free_data_page get_max_inode_data_pages
  allocate_file_data_page file fs =
      if leb (get_max_inode_data_pages fs.header file.inode) (length file.inode.data_pages + 1)
      then (none, fs)
      else allocate_free_data_page fs

unfoldable pub get_max_file_size : Header → ℕ
get_max_file_size h =
    (h.page_size * ((h.filesystem_size + 2 ^ 64 - 1) % 2 ^ 64)
      + 2 ^ 64
      - h.max_inodes * h.page_size % 2 ^ 32)
    % 2 ^ 64
