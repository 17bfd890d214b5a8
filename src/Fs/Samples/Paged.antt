-- ===== src/Fs/Samples/Paged.antt =====
-- A file in pages, on the simulated memory of src/sim_pc/SimFlashMemoryPc.cc.
use simpleflashfs.Prelude.{false, ℕ, ◌≡◌, refl, ap, inl, inr, arith, List, [], ◌∷◌, length}
use simpleflashfs.Fs.Types.{Fs, File, new, stored, empty_inode, new_file}
use simpleflashfs.Fs.Memory.Sim.{SimFile, sim_memory-IsMemory, sim_memory-contents}
use simpleflashfs.Fs.Samples.{small_config, small_header, small_fs}
use simpleflashfs.Fs.Read.Pages.{AllReadable}

-- Pages of 64 bytes on a file of 400.
abbrev pub open_fs : Fs SimFile
open_fs = record small_fs { header = small_header }

-- 70 bytes in two pages, the second of them not yet written; the position is in the first.
abbrev pub paged_file : File
paged_file = record new_file {
  inode = record empty_inode {
    file_len = 70;
    data_pages = record { page_id = 2; state = stored } ∷ record { page_id = 9; state = new } ∷ [];
  };
  pos = 60;
}

pub held : length (sim_memory-IsMemory.contents open_fs.mem) ≡ 400
held = ap (λ (l : List ℕ). length l) (sim_memory-contents open_fs.mem)

pub paged_file-AllReadable :
    AllReadable small_config open_fs sim_memory-IsMemory paged_file.inode.data_pages
paged_file-AllReadable = (inr (refl, omega (arith, held)), (inl refl, tt))

-- Three pages of it are free.
abbrev pub roomy_fs : Fs SimFile
roomy_fs = record open_fs {
  free_data_pages = record { entries = 3 ∷ 4 ∷ 5 ∷ []; unsorted = false; unshrinked = false };
}
