-- ===== src/Fs/Types.antt =====
-- The data of src/base/SimpleFlashFsBase.h, and the memory of
-- src/SimpleFlashFsFlashMemoryInterface.h. Strings and pages are lists of bytes; the vectors are
-- those of src/dynamic/SimpleFlashFsDynamic.h, which have no fixed capacity.
use simpleflashfs.Prelude.{ℕ, Bool, true, false, Option, List, []}
use simpleflashfs.Bytes.{Endianness, le}
use simpleflashfs.PageSet.{PageSet}

-- What a `read` of the memory leaves: the count that it returns, and the buffer.
pub record Transfer : Type 0 where
  pub len_read : ℕ
  pub buffer : List ℕ

-- `FlashMemoryInterface`, on memories of type S. `write` returns the count that it wrote.
pub record FlashMemory (S : Type 0) : Type 0 where
  pub size : S → ℕ
  pub write : S → ℕ → List ℕ → S × ℕ
  pub read : S → ℕ → ℕ → Transfer
  pub erase : S → ℕ → ℕ → S
  pub can_map_read : Bool
  pub map_read : S → ℕ → ℕ → Option (List ℕ)

-- The choices made outside of the class: the memory, the host's byte order, Config::crc32, and
-- Config::PAGE_SIZE (0 for no limit); and whether the class is SimpleFsNoDel, whose
-- erase_inode_and_unused_pages does nothing.
pub record Config (S : Type 0) : Type 0 where
  pub memory : FlashMemory S
  pub host : Endianness
  pub crc32 : List ℕ → ℕ
  pub page_limit : ℕ
  pub no_del : Bool

pub data ChecksumType : Type 0 where
  crc32_sum : ChecksumType

pub record Header : Type 0 where
  pub magic_string : List ℕ
  pub endianness : Endianness
  pub version : ℕ
  pub page_size : ℕ
  pub filesystem_size : ℕ
  pub max_inodes : ℕ
  pub max_path_len : ℕ
  pub crc_checksum_type : ChecksumType

abbrev pub empty_header : Header
empty_header = record {
  magic_string = [];
  endianness = le;
  version = 0;
  page_size = 0;
  filesystem_size = 0;
  max_inodes = 0;
  max_path_len = 0;
  crc_checksum_type = crc32_sum;
}

pub data PageState : Type 0 where
  new stored deleted : PageState

pub record DataPage : Type 0 where
  pub page_id : ℕ
  pub state : PageState

pub record Inode : Type 0 where
  pub inode_number : ℕ
  pub inode_version_number : ℕ
  pub file_name_len : ℕ
  pub file_name : List ℕ
  pub attributes : ℕ
  pub file_len : ℕ
  pub pages : ℕ
  pub data_pages : List DataPage
  pub inode_data : List ℕ

abbrev pub empty_inode : Inode
empty_inode = record {
  inode_number = 0;
  inode_version_number = 0;
  file_name_len = 0;
  file_name = [];
  attributes = 0;
  file_len = 0;
  pages = 0;
  data_pages = [];
  inode_data = [];
}

-- `FileHandle`; `connected` tells that its pointer to the filesystem is not null.
pub record File : Type 0 where
  pub inode : Inode
  pub page : ℕ
  pub pos : ℕ
  pub modified : Bool
  pub append : Bool
  pub connected : Bool

-- A default handle, and `file_handle_t(this)`.
abbrev pub no_file : File
no_file = record {
  inode = empty_inode;
  page = 0;
  pos = 0;
  modified = false;
  append = false;
  connected = false;
}

abbrev pub new_file : File
new_file = record no_file { connected = true }

pub record InodeVersion : Type 0 where
  pub inode : ℕ
  pub page : ℕ
  pub version : ℕ

-- `DefaultHeaderInodeRange`.
pub record InodeRange : Type 0 where
  pub max_page : ℕ
  pub current : ℕ

-- The state of SimpleFlashFsBase, its memory included.
pub record Fs (S : Type 0) : Type 0 where
  pub header : Header
  pub mem : S
  pub allocated_unwritten_pages : PageSet
  pub free_data_pages : PageSet
  pub max_inode_number : ℕ
  pub iv_storage : List InodeVersion
  pub header_inode_range : InodeRange
