-- ===== src/Fs/Read/Tests.antt =====
-- The theorems about `read` at a small file.
use simpleflashfs.Prelude.{◌+◌, ◌-◌, ◌<◌, ◌≡◌, refl, arith, some, [], ◌∷◌, min, take, drop}
use simpleflashfs.Fs.Types.{File, empty_inode, new_file}
use simpleflashfs.Fs.Memory.Sim.{sim_memory-IsMemory}
use simpleflashfs.Fs.Samples.{small_config, small_header}
use simpleflashfs.Fs.Samples.Paged.{open_fs, paged_file, paged_file-AllReadable}
use simpleflashfs.Fs.Inode.{get_inode_data_space_size}
use simpleflashfs.Fs.Read.{read}
use simpleflashfs.Fs.Read.Pages.{pages_bytes}
use simpleflashfs.Fs.Read.Contents.{read-pages, read-inline}

read-pages_example :
    read small_config open_fs 20 paged_file
    ≡ some (record {
      bytes = take (min 20 (70 - 60)) (
          drop 60
            (pages_bytes small_config open_fs sim_memory-IsMemory paged_file.inode.data_pages));
      file = record paged_file { pos = 60 + min 20 (70 - 60) };
    })
read-pages_example =
    read-pages small_config open_fs sim_memory-IsMemory 20 paged_file paged_file-AllReadable
      (omega arith) (omega arith) (omega arith) (omega arith) (omega arith) refl

-- Five bytes in the inode.
abbrev inline_file : File
inline_file = record new_file {
  inode = record empty_inode { file_len = 5; inode_data = 1 ∷ 2 ∷ 3 ∷ 4 ∷ 5 ∷ 0 ∷ [] };
  pos = 2;
}

inline_space : 5 < get_inode_data_space_size small_header inline_file.inode
unfolding get_inode_data_space_size
inline_space = omega arith

read-inline_example :
    read small_config open_fs 9 inline_file
    ≡ some (record {
      bytes = take (min 9 (5 - 2)) (drop 2 inline_file.inode.inode_data);
      file = record inline_file { pos = 2 + min 9 (5 - 2) };
    })
read-inline_example =
    read-inline small_config open_fs sim_memory-IsMemory 9 inline_file (omega arith) (omega arith)
      inline_space (omega arith)
