-- ===== src/Fs/Dynamic.antt =====
-- `read_all_free_data_pages`, `get_all_inodes` and `init` of src/dynamic/SimpleFlashFsDynamic.cc and
-- .h. A std::map of the inodes' versions is a list of groups, in the order of the inode numbers; a
-- handle that a list drops is destroyed, those of the map in that order.
pub mod Newest
pub mod Tests
use simpleflashfs.Prelude.{
  ℕ, zero, suc, ◌+◌, ◌-◌, ◌%◌, ◌^◌, max, Bool, true, false, not, Option, none, some, List, [], ◌∷◌,
  ◌++◌, if◌then◌else◌, ltb, leb, ◌==◌,
}
use simpleflashfs.PageSet.{PageSet}
use simpleflashfs.Fs.Types.{Header, Config, Fs, File, Inode, DataPage}
use simpleflashfs.Fs.Page.{◌>>=◌, PageRead, read_page}
use simpleflashfs.Fs.Header as Header_page
use simpleflashfs.Fs.Flush.{clean_up, remove_pages}
use simpleflashfs.Fs.Versions.{handle_at, destroy}
use simpleflashfs.Fs.NoDel.{all_data_pages}

-- The versions of an inode, the first of them apart: a list of the map is never empty.
pub record Group : Type 0 where
  pub number : ℕ
  pub first : File
  pub others : List File

-- `inodes[inode_number].push_back`.
unfoldable pub push_inode : File → List Group → List Group
push_inode file [] = record { number = file.inode.inode_number; first = file; others = [] } ∷ []
push_inode file (g ∷ gs) =
    if g.number == file.inode.inode_number
    then record g { others = g.others ++ file ∷ [] } ∷ gs
    else (if ltb file.inode.inode_number g.number
        then record { number = file.inode.inode_number; first = file; others = [] } ∷ g ∷ gs
        else g ∷ push_inode file gs)

-- `list.sort`, which keeps the order of equal versions: `file` stands before `files`.
unfoldable pub place_version : File → List File → List File
place_version file [] = file ∷ []
place_version file (f ∷ fs) =
    if leb file.inode.inode_version_number f.inode.inode_version_number
    then file ∷ f ∷ fs
    else f ∷ place_version file fs

unfoldable pub sort_versions : List File → List File
unfolding place_version
sort_versions [] = []
sort_versions (f ∷ fs) = place_version f (sort_versions fs)

module _ {S : Type 0} (config : Config S) where
  unfoldable pub read_unmapped : Fs S → ℕ → PageRead
  unfolding read_page
  read_unmapped fs i = read_page config fs i fs.header.page_size true

  abbrev enter : Option File → List Group × Fs S → List Group × Fs S
  enter none (gs, fs) = (gs, fs)
  enter (some file) (gs, fs) = (
    push_inode file gs,
    record fs { max_inode_number = max fs.max_inode_number file.inode.inode_number },
  )

  -- The loop over the inode pages from page i on.
  unfoldable pub collect_inodes : ℕ → ℕ → List Group → Fs S → Option (List Group × Fs S)
  unfolding read_unmapped handle_at push_inode
  collect_inodes zero i gs fs = some (gs, fs)
  collect_inodes (suc left) i gs fs = do
    file ← handle_at config fs.header false i (read_unmapped fs i)
    let (gs, fs) = enter file (gs, fs)
    collect_inodes left (i + 1) gs fs

  -- The loop over a sorted list: each version but the last is cleaned up, and its handle destroyed.
  -- What is left is the last.
  unfoldable pub drop_old : File → List File → Fs S → Option (File × Fs S)
  unfolding clean_up destroy
  drop_old f [] fs = some (f, fs)
  drop_old f (next ∷ files) fs = do
    fs ← destroy config (record f { modified = false }) (clean_up config f next fs)
    drop_old next files fs

  unfoldable pub drop_sorted : List File → File → Fs S → Option (File × Fs S)
  unfolding drop_old
  drop_sorted [] first fs = some (first, fs)
  drop_sorted (f ∷ files) first fs = drop_old f files fs

  -- The loop that clears old inodes; the newest of each group.
  unfoldable pub clear_old : List Group → Fs S → Option (List File × Fs S)
  unfolding sort_versions drop_sorted
  clear_old [] fs = some ([], fs)
  clear_old (g ∷ gs) fs = do
    (newest, fs) ← drop_sorted (sort_versions (g.first ∷ g.others)) g.first fs
    (files, fs) ← clear_old gs fs
    some (newest ∷ files, fs)

  -- The loop that takes the used pages out, and the end of the map's life.
  unfoldable pub use_pages : List File → PageSet → PageSet
  unfolding remove_pages
  use_pages [] s = s
  use_pages (f ∷ files) s = use_pages files (remove_pages f.inode.data_pages s)

  unfoldable pub destroy_all : List File → Fs S → Option (Fs S)
  unfolding destroy
  destroy_all [] fs = some fs
  destroy_all (f ∷ files) fs = do fs ← destroy config f fs; destroy_all files fs

  unfoldable pub read_all_free_data_pages : Fs S → Option (Fs S)
  unfolding all_data_pages collect_inodes clear_old use_pages destroy_all
  read_all_free_data_pages fs = do
    free ← all_data_pages fs.header fs.free_data_pages
    (gs, fs) ← collect_inodes fs.header.max_inodes 0 [] (record fs { free_data_pages = free })
    (files, fs) ← clear_old gs fs
    destroy_all files (record fs { free_data_pages = use_pages files fs.free_data_pages })

  unfoldable pub init : Fs S → Option (Bool × Fs S)
  unfolding Header_page.init read_all_free_data_pages
  init fs = do
    (works, fs) ← Header_page.init config fs
    if not works then some (false, fs) else (do fs ← read_all_free_data_pages fs; some (true, fs))

  -- `get_all_inodes`, from page i on; the handles belong to the caller.
  unfoldable pub all_inodes : Bool → ℕ → ℕ → Fs S → Option (List File)
  unfolding read_unmapped handle_at
  all_inodes correct zero i fs = some []
  all_inodes correct (suc left) i fs = do
    file ← handle_at config fs.header correct i (read_unmapped fs i)
    files ← all_inodes correct left (i + 1) fs
    some (elim file [ none ↦ files | some f ↦ f ∷ files ])

  unfoldable pub get_all_inodes : Bool → Fs S → Option (List File)
  unfolding all_inodes
  get_all_inodes correct fs = all_inodes correct fs.header.max_inodes 0 fs
