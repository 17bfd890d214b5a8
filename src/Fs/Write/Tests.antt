-- ===== src/Fs/Write/Tests.antt =====
-- The theorems about writing at a small file.
use simpleflashfs.Prelude.{[], ◌∷◌}
use simpleflashfs.Fs.Types.{File, empty_inode, new_file}
use simpleflashfs.Fs.Samples.Paged.{roomy_fs, paged_file}
use simpleflashfs.Fs.Action.Post.{Meets}
use simpleflashfs.Fs.Store.{allocate_new_data_pages}
use simpleflashfs.Fs.Store.Grown.{Grown, Enough, allocate_new_data_pages_lem}

-- Five bytes in the inode, of which two stay in front of what is written.
abbrev inline_file : File
inline_file = record new_file {
  inode = record empty_inode { file_len = 5; inode_data = 1 ∷ 2 ∷ 3 ∷ 4 ∷ 5 ∷ [] };
  pos = 2;
}

-- The first page of the file is stored, and moves to page 3.
abbrev at_start : File
at_start = record paged_file { pos = 0 }

allocate_new_data_pages_lem_example :
    Meets
      (λ a file fs. Enough paged_file.inode.data_pages 3 file)
      (λ file fs. Grown paged_file.inode.data_pages file)
      (allocate_new_data_pages 3 paged_file roomy_fs)
allocate_new_data_pages_lem_example = allocate_new_data_pages_lem 3 paged_file roomy_fs
