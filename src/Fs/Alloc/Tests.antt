-- ===== src/Fs/Alloc/Tests.antt =====
-- The theorems about the allocators at a filesystem without inodes.
use simpleflashfs.Prelude.{◌≡◌, refl, arith, true, false, [], ◌∷◌}
use simpleflashfs.PageSet.{PageSet, no_data}
use simpleflashfs.PageSet.Members.{IsValid}
use simpleflashfs.Fs.Types.{Fs}
use simpleflashfs.Fs.Memory.Sim.{SimFile}
use simpleflashfs.Fs.Samples.{small_config, small_header, small_fs}
use simpleflashfs.Fs.Alloc.{allocate_free_data_page, allocate_free_inode_page_number}
use simpleflashfs.Fs.Alloc.DataPages.{Taken, allocate_free_data_page_lem}
use simpleflashfs.Fs.Alloc.InodePages.{Result, allocate_free_inode_page_number_lem}

abbrev four_free : PageSet
four_free = record { entries = 5 ∷ no_data ∷ 3 ∷ 4 ∷ []; unsorted = true; unshrinked = true }

four_free-IsValid : IsValid four_free
four_free-IsValid = record { distinct = ground arith; ordered = λ e. cc; full = λ e _. cc }

-- Page 1 is claimed.
abbrev one_claimed : PageSet
one_claimed = record { entries = 1 ∷ []; unsorted = false; unshrinked = false }

one_claimed-IsValid : IsValid one_claimed
one_claimed-IsValid = record {
  distinct = ground arith;
  ordered = λ _. ground arith;
  full = λ _ _. refl;
}

abbrev busy_fs : Fs SimFile
busy_fs = record small_fs {
  header = record small_header { filesystem_size = 6; max_inodes = 3 };
  allocated_unwritten_pages = one_claimed;
  free_data_pages = four_free;
  header_inode_range = record { max_page = 3; current = 0 };
}

allocate_free_data_page_lem_example :
    IsValid (allocate_free_data_page busy_fs).1.free_data_pages
    × Taken four_free
        (allocate_free_data_page busy_fs).1.free_data_pages
        3
        (allocate_free_data_page busy_fs).0
    × ((allocate_free_data_page busy_fs).1
        ≡ record busy_fs { free_data_pages = (allocate_free_data_page busy_fs).1.free_data_pages })
allocate_free_data_page_lem_example =
    allocate_free_data_page_lem busy_fs 3 four_free-IsValid (omega arith)

allocate_free_inode_page_number_lem_example :
    Result small_config busy_fs 0 2 1 (allocate_free_inode_page_number small_config busy_fs)
allocate_free_inode_page_number_lem_example =
    allocate_free_inode_page_number_lem small_config busy_fs 2 1 one_claimed-IsValid (omega arith)
      (omega arith) (omega arith)
