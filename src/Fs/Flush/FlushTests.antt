-- ===== src/Fs/Flush/FlushTests.antt =====
-- The theorem about a flush at a file of two pages, on a memory of five.
use simpleflashfs.Prelude.{true, false, [], ◌∷◌}
use simpleflashfs.Fs.Types.{File, Fs, stored, deleted, empty_inode, new_file}
use simpleflashfs.Fs.Memory.Sim.{SimFile}
use simpleflashfs.Fs.Samples.Paged.{open_fs}

-- The inode pages 0 to 2, of which the handle has page 2.
abbrev flush_fs : Fs SimFile
flush_fs = record open_fs {
  allocated_unwritten_pages = record { entries = 2 ∷ []; unsorted = false; unshrinked = false };
  header_inode_range = record { max_page = 3; current = 0 };
}

-- Page 4 was replaced by page 3.
abbrev changed_file : File
changed_file = record new_file {
  inode = record empty_inode {
    inode_number = 3;
    inode_version_number = 5;
    file_name_len = 2;
    file_name = b'a' ∷ b'b' ∷ [];
    file_len = 60;
    pages = 1;
    data_pages =
        record { page_id = 3; state = stored } ∷ record { page_id = 4; state = deleted } ∷ [];
  };
  page = 2;
  modified = true;
}
