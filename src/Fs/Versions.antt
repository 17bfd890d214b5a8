-- ===== src/Fs/Versions.antt =====
-- The newest version of each inode: `InodeVersionStore` and `find_file` of
-- src/base/SimpleFlashFsBase.h, and the destructor of the handles that it makes on its way.
pub mod Newest
pub mod Tests
use simpleflashfs.Prelude.{
  ℕ, zero, suc, ◌+◌, Bool, true, false, Option, none, some, List, [], ◌∷◌, if◌then◌else◌, ltb, ◌==◌,
  length,
}
use simpleflashfs.Fs.Types.{Header, Config, Fs, File, Inode, DataPage, InodeVersion, no_file}
use simpleflashfs.Fs.Page.{◌>>=◌, PageRead, ok, read_error, crc_error}
use simpleflashfs.Fs.Inode.{get_inode}
use simpleflashfs.Fs.Header.{same_bytes}
use simpleflashfs.Fs.Alloc.{read_inode_page, free_unwritten_pages}
use simpleflashfs.Fs.Action.{Outcome, done, quit, fault}
use simpleflashfs.Fs.Flush.{flush}

abbrev pub version_of : File → InodeVersion
version_of file = record {
  inode = file.inode.inode_number;
  page = file.page;
  version = file.inode.inode_version_number;
}

-- `InodeVersionStore::add`, and whether it replaced an entry of the same inode.
unfoldable pub add_version : File → List InodeVersion → List InodeVersion
add_version file [] = version_of file ∷ []
add_version file (iv ∷ ivs) =
    if iv.inode == file.inode.inode_number
    then (if ltb iv.version file.inode.inode_version_number then version_of file else iv) ∷ ivs
    else iv ∷ add_version file ivs

unfoldable pub is_replaced : File → List InodeVersion → Bool
is_replaced file [] = false
is_replaced file (iv ∷ ivs) =
    if iv.inode == file.inode.inode_number then true else is_replaced file ivs

module _ {S : Type 0} where
  unfoldable pub free_pages : List DataPage → Fs S → Fs S
  unfolding free_unwritten_pages
  free_pages [] fs = fs
  free_pages (p ∷ ps) fs = free_pages ps (free_unwritten_pages p.page_id fs)

module _ {S : Type 0} (config : Config S) where
  -- What the destructor does behind its flush, whether that worked or not.
  abbrev pub released : Outcome S (Unit {0}) → Option (Fs S)
  released (done a file fs) =
      some (free_pages file.inode.data_pages (free_unwritten_pages file.page fs))
  released (quit file fs) =
      some (free_pages file.inode.data_pages (free_unwritten_pages file.page fs))
  released fault = none

  unfoldable pub destroy : File → Fs S → Option (Fs S)
  unfolding flush free_pages free_unwritten_pages
  destroy file fs = if file.connected then released (flush config file fs) else some fs

  -- The handle of a good inode page.
  unfoldable pub handle_at : Header → Bool → ℕ → PageRead → Option (Option File)
  unfolding get_inode
  handle_at h correct page read_error = some none
  handle_at h correct page (crc_error bytes) = some none
  handle_at h correct page (ok bytes) = do
    file ← get_inode config h correct bytes
    some (some (record file { page = page }))

  add_handle : Option File → Fs S → Option (Fs S)
  unfolding add_version destroy
  add_handle none fs = some fs
  add_handle (some file) fs =
      destroy file (record fs { iv_storage = add_version file fs.iv_storage })

  -- The loop over the inode pages from page i on, on `left` of them, which `fetch` reads.
  unfoldable pub gather : (Fs S → ℕ → PageRead) → ℕ → ℕ → Fs S → Option (Fs S)
  unfolding handle_at add_handle
  gather fetch zero i fs = some fs
  gather fetch (suc left) i fs = do
    file ← handle_at fs.header false i (fetch fs i)
    fs ← add_handle file fs
    gather fetch left (i + 1) fs

  abbrev pub is_named : List ℕ → File → Bool
  is_named name file =
      if length file.inode.file_name == 0 then false else same_bytes file.inode.file_name name

  abbrev pub if_named : List ℕ → Option File → Bool
  if_named name none = false
  if_named name (some file) = is_named name file

  abbrev pub given : Option File → File
  given none = no_file
  given (some file) = file

  -- The loop over the newest versions: the first of them with the name. The handles of the others are
  -- destroyed; that of no page does nothing.
  unfoldable pub search_versions : List ℕ → List InodeVersion → Fs S → Option (File × Fs S)
  unfolding read_inode_page handle_at destroy
  search_versions name [] fs = some (no_file, fs)
  search_versions name (iv ∷ ivs) fs = do
    file ← handle_at fs.header true iv.page (read_inode_page config fs iv.page)
    let rest = destroy (given file) fs >>= search_versions name ivs
    if if_named name file then some (given file, fs) else rest

  unfoldable pub find_file : List ℕ → Fs S → Option (File × Fs S)
  unfolding gather read_inode_page search_versions
  find_file name fs = do
    fs ← gather (read_inode_page config) fs.header.max_inodes 0 (record fs { iv_storage = [] })
    search_versions name fs.iv_storage fs
