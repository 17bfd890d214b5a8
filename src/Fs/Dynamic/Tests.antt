-- ===== src/Fs/Dynamic/Tests.antt =====
-- The theorem about clearing old versions at three versions of a file.
use simpleflashfs.Prelude.{ℕ, ◌≡◌, some, [], ◌∷◌}
use simpleflashfs.Fs.Types.{File, Fs, empty_inode, new_file}
use simpleflashfs.Fs.Memory.Sim.{SimFile}
use simpleflashfs.Fs.Samples.{small_config}
use simpleflashfs.Fs.Samples.Paged.{roomy_fs}
use simpleflashfs.Fs.Dynamic.{sort_versions, drop_sorted}
use simpleflashfs.Fs.Dynamic.Newest.{highest, Among, drop_sorted-sort}

abbrev at_version : ℕ → ℕ → File
at_version n page = record new_file {
  inode = record empty_inode { inode_number = 1; inode_version_number = n };
  page = page;
}

drop_sorted-sort_example :
    (newest : File) × (fs : Fs SimFile) × (drop_sorted small_config
        (sort_versions (at_version 7 0 ∷ at_version 9 1 ∷ at_version 8 2 ∷ []))
        (at_version 7 0)
        roomy_fs
      ≡ some (newest, fs))
    × (newest.inode.inode_version_number
        ≡ highest (at_version 7 0 ∷ at_version 9 1 ∷ at_version 8 2 ∷ []))
    × Among newest (at_version 7 0 ∷ at_version 9 1 ∷ at_version 8 2 ∷ [])
drop_sorted-sort_example =
    drop_sorted-sort small_config (at_version 7 0) (at_version 9 1 ∷ at_version 8 2 ∷ []) roomy_fs
