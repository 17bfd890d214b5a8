-- ===== src/Fs/Listing.antt =====
-- `list_files` of src/static/SimpleFlashFsStatic.h. Its file filter and its callback are arguments;
-- the callback may change the handle and the filesystem, and A is what it collects.
use simpleflashfs.Prelude.{
  ℕ, Bool, true, not, Option, none, some, List, [], ◌∷◌, if◌then◌else◌, ◌==◌, length,
}
use simpleflashfs.Fs.Types.{Config, Fs, File, InodeVersion}
use simpleflashfs.Fs.Page.{◌>>=◌, PageRead, read_page}
use simpleflashfs.Fs.Versions.{handle_at, destroy, gather}

pub record Visited (S A : Type 0) : Type 0 where
  pub go_on : Bool
  pub found : A
  pub file : File
  pub fs : Fs S

module _ {S A : Type 0} (config : Config S) (visit : A → File → Fs S → Option (Visited S A)) where
  -- `read_page( i, page, true )`.
  unfoldable pub read_unmapped : Fs S → ℕ → PageRead
  unfolding read_page
  read_unmapped fs i = read_page config fs i fs.header.page_size true

  -- A file without a name is deleted; the filter may leave out others.
  abbrev pub is_skipped : Option (File → Bool) → File → Bool
  is_skipped none file = length file.inode.file_name == 0
  is_skipped (some keep) file = if length file.inode.file_name == 0 then true else not (keep file)

  -- The body of the loop for a page: whether it goes on.
  unfoldable pub list_one : Option (File → Bool) → A → Option File → Fs S → Option (Bool × A × Fs S)
  unfolding destroy
  list_one filter a none fs = some (true, a, fs)
  list_one filter a (some file) fs =
      if is_skipped filter file
      then (do fs ← destroy config file fs; some (true, a, fs))
      else (do v ← visit a file fs; fs ← destroy config v.file v.fs; some (v.go_on, v.found, fs))

  unfoldable pub list_versions :
      Option (File → Bool) → A → List InodeVersion → Fs S → Option (A × Fs S)
  unfolding read_unmapped handle_at list_one
  list_versions filter a [] fs = some (a, fs)
  list_versions filter a (iv ∷ ivs) fs = do
    file ← handle_at config fs.header true iv.page (read_unmapped fs iv.page)
    (go_on, a, fs) ← list_one filter a file fs
    let rest = list_versions filter a ivs fs
    if go_on then rest else some (a, fs)

  unfoldable pub list_files : Option (File → Bool) → A → Fs S → Option (A × Fs S)
  unfolding gather read_unmapped list_versions
  list_files filter a fs = do
    fs ← gather config read_unmapped fs.header.max_inodes 0 (record fs { iv_storage = [] })
    list_versions filter a fs.iv_storage fs
