-- ===== src/Fs/Inode/Tests.antt =====
-- The theorems about pages and inodes at a small page and a small inode.
use simpleflashfs.Prelude.{ℕ, ◌-◌, ◌≡◌, refl, arith, true, some, List, [], ◌∷◌, ◌++◌, length, take}
use simpleflashfs.Fs.Types.{Inode, new, empty_inode}
use simpleflashfs.Fs.Samples.{toy_sum-lt, small_config, small_header}
use simpleflashfs.Fs.Page.{ok, zero_page, add_page_checksum, check_page}
use simpleflashfs.Fs.Page.Checksum.{trailer, add_page_checksum_lem}
use simpleflashfs.Fs.Inode.{inode2page}
use simpleflashfs.Fs.Inode.Layout.{Fits, layout, inode2page-layout}

-- A file of 100 bytes in two pages.
abbrev two_pages : Inode
two_pages = record empty_inode {
  inode_number = 3;
  inode_version_number = 5;
  file_name_len = 2;
  file_name = b'a' ∷ b'b' ∷ [];
  file_len = 100;
  pages = 2;
  data_pages = record { page_id = 12; state = new } ∷ record { page_id = 40; state = new } ∷ [];
}

two_pages-Fits : Fits small_header two_pages
two_pages-Fits = record { name_len = refl; room = omega arith }

add_page_checksum_lem_example :
    (p : List ℕ) × (add_page_checksum small_config small_header (zero_page 8) ≡ some p)
    × (p
        ≡ take (length (zero_page 8) - 4) (zero_page 8)
          ++ trailer small_config small_header (zero_page 8))
    × (length p ≡ length (zero_page 8))
    × (check_page small_config small_header true p ≡ ok p)
add_page_checksum_lem_example =
    add_page_checksum_lem small_config small_header (zero_page 8) (omega arith) toy_sum-lt

inode2page-layout_example :
    inode2page small_config small_header two_pages
    ≡ some (
        layout small_config small_header two_pages
        ++ zero_page (64 - length (layout small_config small_header two_pages)))
inode2page-layout_example = inode2page-layout small_config small_header two_pages two_pages-Fits
