-- ===== src/Fs/Samples.antt =====
-- A small filesystem on the simulated memory of src/sim_pc/SimFlashMemoryPc.cc, for the tests.
pub mod Paged
use simpleflashfs.Prelude.{ℕ, ◌^◌, ◌<◌, arith, false, List, [], ◌∷◌, replicate}
use simpleflashfs.Bytes.{le, be}
use simpleflashfs.PageSet.{empty_set}
use simpleflashfs.Fs.Types.{Header, Config, empty_header, Fs}
use simpleflashfs.Fs.Memory.Sim.{SimFile, sim_memory}
use simpleflashfs.Fs.Header.{magick_string}

-- A checksum that only tells whether there are bytes.
abbrev pub toy_sum : List ℕ → ℕ
toy_sum [] = 7
toy_sum (b ∷ bs) = 3

pub toy_sum-lt : (bytes : List ℕ) → toy_sum bytes < 2 ^ 32
toy_sum-lt [] = omega arith
toy_sum-lt (b ∷ bs) = omega arith

abbrev pub small_config : Config SimFile
small_config = record {
  memory = sim_memory;
  host = le;
  crc32 = toy_sum;
  page_limit = 0;
  no_del = false;
}

abbrev pub small_header : Header
small_header = record empty_header {
  magic_string = magick_string;
  version = 1;
  endianness = be;
  page_size = 64;
  filesystem_size = 100;
  max_inodes = 10;
  max_path_len = 50;
}

-- The state after construction, on a file of 400 bytes.
abbrev pub small_fs : Fs SimFile
small_fs = record {
  header = empty_header;
  mem = record { file = replicate 400 0; file_size = 400 };
  allocated_unwritten_pages = empty_set;
  free_data_pages = empty_set;
  max_inode_number = 0;
  iv_storage = [];
  header_inode_range = record { max_page = 0; current = 0 };
}
