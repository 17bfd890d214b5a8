-- ===== src/Fs/Header/Tests.antt =====
-- The theorems about the header page at a small filesystem.
use simpleflashfs.Prelude.{◌≡◌, refl, inl, arith, true, some, ap, List, length, ℕ}
use simpleflashfs.Fs.Types.{Header}
use simpleflashfs.Fs.Memory.Sim.{SimFile, sim_memory-IsMemory, sim_memory-contents, sim_memory-size}
use simpleflashfs.Fs.Samples.{toy_sum-lt, small_config, small_header, small_fs}
use simpleflashfs.Fs.Header.{write_header, init, create}
use simpleflashfs.Fs.Header.RoundTrip.{IsHeader, write_header-init}
use simpleflashfs.Fs.Header.Create.{create_lem}

-- The header of a filesystem that fits the memory.
abbrev six_pages : Header
six_pages = record small_header { filesystem_size = 6 }

six_pages-IsHeader : IsHeader 0 six_pages
six_pages-IsHeader = record {
  magic = refl;
  version_word = omega arith;
  page_word = omega arith;
  filesystem_word = omega arith;
  inodes_word = omega arith;
  path_word = omega arith;
  room = omega arith;
  allowed = inl refl;
}

held : length (sim_memory-IsMemory.contents small_fs.mem) ≡ 400
held = ap (λ (l : List ℕ). length l) (sim_memory-contents small_fs.mem)

write_header-init_example :
    (mem : SimFile) × (write_header small_config six_pages small_fs
      ≡ some (true, record small_fs { header = six_pages; mem = mem }))
    × (init small_config (record small_fs { mem = mem })
        ≡ some (
          true,
          record small_fs {
            mem = mem;
            header = six_pages;
            header_inode_range = record { max_page = 10; current = 0 };
          },
        ))
write_header-init_example =
    write_header-init small_config six_pages small_fs small_fs sim_memory-IsMemory
      six_pages-IsHeader (omega (arith, held)) toy_sum-lt

create_lem_example :
    (mem : SimFile) × (create small_config six_pages small_fs
      ≡ some (
        true,
        record small_fs {
          header = six_pages;
          mem = mem;
          header_inode_range = record { max_page = 10; current = 0 };
        },
      ))
    × (init small_config (record small_fs { mem = mem })
        ≡ some (
          true,
          record small_fs {
            mem = mem;
            header = six_pages;
            header_inode_range = record { max_page = 10; current = 0 };
          },
        ))
create_lem_example =
    create_lem small_config six_pages small_fs small_fs sim_memory-IsMemory six_pages-IsHeader
      (omega arith) (omega arith) (omega (arith, sim_memory-size small_fs.mem))
      (omega (arith, held, sim_memory-size small_fs.mem)) toy_sum-lt
