-- ===== src/Fs/Versions/Tests.antt =====
-- The theorem about the store of versions at a small store.
use simpleflashfs.Prelude.{◌≡◌, refl, some, List, [], ◌∷◌, ◌==◌, if◌then◌else◌}
use simpleflashfs.Fs.Types.{File, InodeVersion, empty_inode, new_file}
use simpleflashfs.Fs.Versions.{add_version, is_replaced}
use simpleflashfs.Fs.Versions.Newest.{OneEach, find_version, newer, is_known, add_version_lem}

-- Version 6 of inode 2, on page 9.
abbrev next_version : File
next_version = record new_file {
  inode = record empty_inode { inode_number = 2; inode_version_number = 6 };
  page = 9;
}

abbrev two_versions : List InodeVersion
two_versions =
    record { inode = 1; page = 4; version = 3 } ∷ record { inode = 2; page = 5; version = 5 } ∷ []

add_version_lem_example :
    OneEach (add_version next_version two_versions)
    × (find_version 2 (add_version next_version two_versions) ≡ (
        if 2 == 2
        then some (newer next_version (find_version 2 two_versions))
        else find_version 2 two_versions))
    × (is_replaced next_version two_versions ≡ is_known 2 two_versions)
add_version_lem_example = add_version_lem next_version two_versions 2 (refl, (refl, tt))
