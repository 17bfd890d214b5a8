-- ===== src/Fs/Handle/Tests.antt =====
-- The theorem about cutting a file at a small file.
use simpleflashfs.Prelude.{
  ◌-◌, if◌then◌else◌, refl, false, not, ◌&&◌, ◌==◌, leb, ◌≡◌, arith, true, take, min,
}
use simpleflashfs.Fs.Memory.Sim.{sim_memory-IsMemory}
use simpleflashfs.Fs.Samples.{small_config, small_header}
use simpleflashfs.Fs.Samples.Paged.{open_fs, roomy_fs, paged_file, paged_file-AllReadable}
use simpleflashfs.Fs.Read.Pages.{AllReadable}
use simpleflashfs.Fs.Action.Post.{Meets}
use simpleflashfs.Fs.Handle.{shrink, truncate, seek}
use simpleflashfs.Fs.Handle.Resize.{Unchanged, truncate_lem, seek_lem}
use simpleflashfs.Fs.Handle.Shrink.{content, shrink_lem}

shrink_lem_example :
    let file = shrink small_header 50 paged_file in
    (take 50 (content small_config open_fs sim_memory-IsMemory file)
      ≡ take 50 (content small_config open_fs sim_memory-IsMemory paged_file))
    × (file.inode.file_len ≡ 50)
    × (file.pos ≡ min 60 50)
    × (file.modified ≡ true)
    × AllReadable small_config open_fs sim_memory-IsMemory file.inode.data_pages
shrink_lem_example =
    shrink_lem small_config open_fs sim_memory-IsMemory 50 paged_file (omega arith) (omega arith)
      (omega arith) (omega arith) paged_file-AllReadable

truncate_lem_example :
    Meets
      (λ a file fs.
        (file.inode.file_len ≡ 90)
        × ((leb 60 90 && not (file.pos == 60)) ≡ false)
        × (fs.header ≡ small_header))
      (Unchanged paged_file roomy_fs)
      (truncate 90 paged_file roomy_fs)
truncate_lem_example = truncate_lem 90 paged_file roomy_fs refl (omega arith)

seek_lem_example :
    Meets
      (λ a file fs.
        (file.pos ≡ 80)
        × (file.inode.file_len ≡ (if leb 80 70 then 70 else 80 - 1))
        × (fs.header ≡ small_header))
      (Unchanged paged_file roomy_fs)
      (seek 80 paged_file roomy_fs)
seek_lem_example = seek_lem 80 paged_file roomy_fs (omega arith)
