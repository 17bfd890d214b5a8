-- ===== src/Fs/NoDel.antt =====
-- SimpleFsNoDel of src_2face/SimpleFlashFsNoDel.h, which never erases a page: its scan of the inode
-- pages, and the statistics that the scan makes.
pub mod FreePages
use simpleflashfs.Prelude.{
  ℕ, zero, suc, ◌+◌, ◌-◌, ◌*◌, ◌/◌, ◌%◌, ◌^◌, max, Bool, true, false, not, ◌&&◌, Option, none, some,
  List, [], ◌∷◌, if◌then◌else◌, ltb, leb, ◌==◌, length,
}
use simpleflashfs.PageSet.{PageSet, clear, unordered_insert, erase}
use simpleflashfs.Fs.Types.{Header, Config, Fs, File, Inode, DataPage, InodeVersion, no_file}
use simpleflashfs.Fs.Page.{◌>>=◌, PageRead, ok, read_error, crc_error}
use simpleflashfs.Fs.Inode.{get_inode}
use simpleflashfs.Fs.Header.{create_default_header}
use simpleflashfs.Fs.Header as Header_page
use simpleflashfs.Fs.Alloc.{read_inode_page}
use simpleflashfs.Fs.Flush.{remove_pages}
use simpleflashfs.Fs.Versions.{add_version, is_replaced, destroy}

pub record Stat : Type 0 where
  pub largest_file_size : ℕ
  pub trash_size : ℕ
  pub used_inodes : ℕ
  pub trash_inodes : ℕ
  pub free_inodes : ℕ

abbrev pub no_stat : Stat
no_stat = record {
  largest_file_size = 0;
  trash_size = 0;
  used_inodes = 0;
  trash_inodes = 0;
  free_inodes = 0;
}

-- The loop that inserts the page numbers from i on, `left` of them.
unfoldable pub fill_pages : ℕ → ℕ → PageSet → PageSet
unfolding unordered_insert
fill_pages zero i s = s
fill_pages (suc left) i s = fill_pages left (i + 1) (unordered_insert i s)

-- All data pages. The counter has 32 bits; `none` stands for a loop that does not end.
unfoldable pub all_data_pages : Header → PageSet → Option PageSet
unfolding fill_pages clear
all_data_pages h s =
    let last = (h.filesystem_size + 2 ^ 64 - 1) % 2 ^ 64 in
    if leb (2 ^ 32) last
    then none
    else some (fill_pages (last - h.max_inodes) h.max_inodes (clear s))

unfoldable pub all_erased : List ℕ → Bool
all_erased [] = true
all_erased (b ∷ bytes) = if b == 0xFF then all_erased bytes else false

module _ {S : Type 0} (config : Config S) where
  -- `read_inode` of a page that was read: nothing for an error, an empty handle for an erased page.
  -- With a mapped memory the inode of a broken page is looked at, and its handle destroyed.
  unfoldable pub inode_of : PageRead → Fs S → Option (Option File × Fs S)
  unfolding get_inode all_erased destroy
  inode_of (ok page) fs = do file ← get_inode config fs.header false page; some (some file, fs)
  inode_of read_error fs = some (none, fs)
  inode_of (crc_error page) fs =
      if all_erased page
      then some (some no_file, fs)
      else (if config.memory.can_map_read
          then (do
            file ← get_inode config fs.header false page
            fs ← destroy config file fs
            some (none, fs))
          else some (none, fs))

  unfoldable pub read_inode : ℕ → Fs S → Option (Option File × Fs S)
  unfolding inode_of read_inode_page
  read_inode i fs = inode_of (read_inode_page config fs i) fs

-- The statistics and the filesystem, the loop's variables.
pub record Scan (S : Type 0) : Type 0 where
  pub stat : Stat
  pub fs : Fs S

-- What an inode adds to them.
unfoldable pub count_inode : Header → File → Bool → Stat → Stat
count_inode h file replaced stat = record stat {
  trash_inodes = if replaced then stat.trash_inodes + 1 else stat.trash_inodes;
  used_inodes = if replaced then stat.used_inodes else stat.used_inodes + 1;
  largest_file_size = max stat.largest_file_size file.inode.file_len;
  trash_size = (stat.trash_size + h.page_size * length file.inode.data_pages) % 2 ^ 64;
}

-- `stat.free_inodes`, which has 64 bits.
unfoldable pub free_inodes : ℕ → Stat → ℕ
free_inodes max_inodes stat =
    (max_inodes + 2 * 2 ^ 64 - stat.used_inodes % 2 ^ 64 - stat.trash_inodes % 2 ^ 64) % 2 ^ 64

module _ {S : Type 0} where
  unfoldable pub enter_inode : File → Scan S → Scan S
  unfolding count_inode add_version is_replaced remove_pages
  enter_inode file s = record {
    stat = count_inode s.fs.header file (is_replaced file s.fs.iv_storage) s.stat;
    fs = record s.fs {
      max_inode_number = max s.fs.max_inode_number file.inode.inode_number;
      iv_storage = add_version file s.fs.iv_storage;
      free_data_pages = remove_pages file.inode.data_pages s.fs.free_data_pages;
    };
  }

module _ {S : Type 0} (config : Config S) where
  -- The body of the loop for page i. The handle is destroyed at its end.
  unfoldable pub scan_page : ℕ → Option File → Scan S → Option (Scan S)
  unfolding enter_inode destroy erase
  scan_page i none s =
      some (record s { fs = record s.fs { free_data_pages = (erase i s.fs.free_data_pages).0 } })
  scan_page i (some found) s = if not found.connected then some s else (do
    let file : File = record found { page = i }
    let s' = enter_inode file s
    fs ← destroy config file s'.fs
    some (record s' { fs = fs }))

  unfoldable pub scan_pages : ℕ → ℕ → Scan S → Option (Scan S)
  unfolding read_inode scan_page
  scan_pages zero i s = some s
  scan_pages (suc left) i s = do
    (found, fs) ← read_inode config i s.fs
    s ← scan_page i found (record s { fs = fs })
    scan_pages left (i + 1) s

  unfoldable pub read_all_free_data_pages : Fs S → Option (Scan S)
  unfolding all_data_pages scan_pages free_inodes
  read_all_free_data_pages fs = do
    free ← all_data_pages fs.header fs.free_data_pages
    s ←
        scan_pages fs.header.max_inodes 0
          (record { stat = no_stat; fs = record fs { free_data_pages = free; iv_storage = [] } })
    some (record s {
      stat = record s.stat { free_inodes = free_inodes s.fs.header.max_inodes s.stat };
    })

  -- `init`, with the statistics where it works.
  unfoldable pub init : Fs S → Option (Option Stat × Fs S)
  unfolding Header_page.init read_all_free_data_pages
  init fs = do
    (works, fs) ← Header_page.init config fs
    if not works
        then some (none, fs)
        else (do s ← read_all_free_data_pages fs; some (some s.stat, s.fs))

  -- `create` of the class, with the page size, the size in bytes and the longest name of its Config.
  unfoldable pub default_header : ℕ → ℕ → ℕ → Header
  unfolding create_default_header
  default_header page_size max_size file_name_max =
      record (create_default_header config.host page_size (max_size / page_size)) {
        max_path_len = file_name_max;
      }
