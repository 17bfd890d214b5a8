-- ===== src/Fs/Flush/Tests.antt =====
-- The theorems about the cleanup behind a flush, where a file goes from the pages 2 and 3 to 3 and 4.
use simpleflashfs.Prelude.{
  ℕ, ◌<◌, ◌≡◌, arith, true, not, ◌&&◌, ◌||◌, ◌==◌, [], ◌∷◌, length, if◌then◌else◌,
}
use simpleflashfs.PageSet.Members.{IsValid, has}
use simpleflashfs.Fs.Types.{File, stored, empty_inode, new_file}
use simpleflashfs.Fs.Memory.Sim.{sim_memory-IsMemory}
use simpleflashfs.Fs.Samples.{small_config, small_header}
use simpleflashfs.Fs.Samples.Paged.{open_fs, held}
use simpleflashfs.Fs.Flush.{pages_to_erase, erase_inode_and_unused_pages}
use simpleflashfs.Fs.Flush.Unused.{uses, pages_to_erase_lem}
use simpleflashfs.Fs.Flush.CleanUp.{
  bytes_of, erased, goes, Stands, erase_inode_and_unused_pages_lem,
}

abbrev before : File
before = record new_file {
  inode = record empty_inode {
    data_pages =
        record { page_id = 2; state = stored } ∷ record { page_id = 3; state = stored } ∷ [];
  };
  page = 1;
}

abbrev behind : File
behind = record new_file {
  inode = record empty_inode {
    data_pages =
        record { page_id = 3; state = stored } ∷ record { page_id = 4; state = stored } ∷ [];
  };
  page = 0;
}

pages_to_erase_lem_example :
    IsValid (pages_to_erase before behind)
    × (has (pages_to_erase before behind) 2
        ≡ ((1 == 2) || (uses before.inode.data_pages 2 && not (uses behind.inode.data_pages 2))))
pages_to_erase_lem_example =
    pages_to_erase_lem before behind 2 (ground arith) (ground arith) (omega arith) (omega arith)

used-Stands :
    (x : ℕ)
    → uses before.inode.data_pages x ≡ true
    → Stands small_config sim_memory-IsMemory small_header open_fs.mem x
used-Stands x u = let small : x < 4 = ground arith in omega (arith, small, held)

erase_inode_and_unused_pages_lem_example :
    let fs = erase_inode_and_unused_pages small_config before behind open_fs in
    (bytes_of small_config sim_memory-IsMemory small_header fs.mem 3 ≡ (
      if goes small_config sim_memory-IsMemory before behind 3
      then erased small_config sim_memory-IsMemory small_header
      else bytes_of small_config sim_memory-IsMemory small_header open_fs.mem 3))
    × (fs.header ≡ small_header)
    × (length (sim_memory-IsMemory.contents fs.mem)
        ≡ length (sim_memory-IsMemory.contents open_fs.mem))
erase_inode_and_unused_pages_lem_example =
    erase_inode_and_unused_pages_lem small_config sim_memory-IsMemory before behind open_fs 3
      (ground arith) (ground arith) (omega arith) (omega arith) (omega arith, omega (arith, held))
      (omega (arith, held)) (omega (arith, held)) used-Stands
