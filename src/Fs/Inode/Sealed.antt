-- ===== src/Fs/Inode/Sealed.antt =====
-- An inode's page of src/base/SimpleFlashFsBase.h with its checksum.
use simpleflashfs.Prelude.{ℕ, ◌-◌, Option, List, ◌++◌, length}
use simpleflashfs.Fs.Types.{Header, Config, Inode}
use simpleflashfs.Fs.Page.{◌>>=◌, zero_page, add_page_checksum}
use simpleflashfs.Fs.Inode.{inode2page}
use simpleflashfs.Fs.Inode.Layout.{layout}

module _ {S : Type 0} (config : Config S) (h : Header) where
  -- What `flush` puts on an inode's page.
  abbrev pub sealed_page : Inode → Option (List ℕ)
  sealed_page i = inode2page config h i >>= add_page_checksum config h

  abbrev filled : Inode → List ℕ
  filled i = layout config h i ++ zero_page (h.page_size - length (layout config h i))
