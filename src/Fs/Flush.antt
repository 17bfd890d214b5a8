-- ===== src/Fs/Flush.antt =====
-- `flush` and `erase_inode_and_unused_pages` of src/base/SimpleFlashFsBase.h: a changed inode goes to
-- an inode page of its own, and what its last version alone used is erased behind it.
pub mod Unused
pub mod CleanUp
pub mod Tests
pub mod Zero
pub mod Durable
pub mod Claim
pub mod Stays
pub mod FlushTests
use simpleflashfs.Prelude.{
  ℕ, zero, suc, ◌+◌, ◌-◌, ◌*◌, ◌%◌, ◌^◌, Bool, true, false, not, Option, none, some, List, [], ◌∷◌,
  if◌then◌else◌, ltb, leb, ◌==◌, length,
}
use simpleflashfs.PageSet.{PageSet, empty_set, unordered_insert, erase, insert, get_data}
use simpleflashfs.Fs.Types.{Header, Config, Fs, File, Inode, DataPage, PageState}
use simpleflashfs.Fs.Page.{add_page_checksum}
use simpleflashfs.Fs.Inode.{inode2page}
use simpleflashfs.Fs.Inode.Sealed.{sealed_page}
use simpleflashfs.Fs.Alloc.{allocate_free_inode_page_number}
use simpleflashfs.Fs.Action.{
  Outcome, done, quit, fault, Action, ◌>>=◌, ◌>>◌, put_file, put_fs, get_file, get_fs, pure, stop,
  lift, need, try,
}
use simpleflashfs.Fs.Store.{is_deleted, with_pages, write_meta_page, write_zero_pages}

-- The loops that collect the pages of the old inode, and leave out those of the new one.
unfoldable pub collect_pages : List DataPage → PageSet → PageSet
unfolding unordered_insert
collect_pages [] s = s
collect_pages (p ∷ ps) s = collect_pages ps (unordered_insert p.page_id s)

unfoldable pub remove_pages : List DataPage → PageSet → PageSet
unfolding erase
remove_pages [] s = s
remove_pages (p ∷ ps) s = remove_pages ps (erase p.page_id s).0

-- The pages that `old` used and `next` does not, and the inode page of `old`.
unfoldable pub pages_to_erase : File → File → PageSet
unfolding collect_pages remove_pages insert
pages_to_erase old next =
    insert old.page
      (remove_pages next.inode.data_pages (collect_pages old.inode.data_pages empty_set))

unfoldable pub keep_undeleted : List DataPage → List DataPage
keep_undeleted [] = []
keep_undeleted (p ∷ ps) = if is_deleted p.state then keep_undeleted ps else p ∷ keep_undeleted ps

module _ {S : Type 0} (config : Config S) where
  -- The body of the loop over the pages to erase; page * page_size has 32 bits.
  unfoldable pub erase_page : ℕ → Fs S → Fs S
  unfolding insert erase
  erase_page page fs =
      let address = (fs.header.page_size + page * fs.header.page_size % 2 ^ 32) % 2 ^ 32 in
      let mem = config.memory.erase fs.mem address fs.header.page_size in
      if ltb fs.header.max_inodes page
      then record fs { mem = mem; free_data_pages = insert page fs.free_data_pages }
      else record fs {
        mem = mem;
        allocated_unwritten_pages = (erase page fs.allocated_unwritten_pages).0;
      }

  unfoldable pub erase_pages : List ℕ → Fs S → Fs S
  unfolding erase_page
  erase_pages [] fs = fs
  erase_pages (page ∷ pages) fs = erase_pages pages (erase_page page fs)

  unfoldable pub erase_inode_and_unused_pages : File → File → Fs S → Fs S
  unfolding pages_to_erase get_data erase_pages
  erase_inode_and_unused_pages old next fs = erase_pages (get_data (pages_to_erase old next)).1 fs

  -- The virtual call.
  unfoldable pub clean_up : File → File → Fs S → Fs S
  unfolding erase_inode_and_unused_pages
  clean_up old next fs = if config.no_del then fs else erase_inode_and_unused_pages old next fs

  -- `inode2page` and `add_page_checksum` of a handle's inode.
  unfoldable pub make_page : Action S (List ℕ)
  unfolding inode2page add_page_checksum
  make_page file fs = lift (sealed_page config fs.header file.inode) file fs

  -- The branch for an inode that has no number yet.
  unfoldable pub flush_first : Action S (Unit {0})
  unfolding make_page write_zero_pages write_meta_page
  flush_first = do
    file ← get_file
    fs ← get_fs
    let number = (fs.max_inode_number + 1) % 2 ^ 64
    put_file (record file { inode = record file.inode { inode_number = number } })
    put_fs (record fs { max_inode_number = number })
    written ← try (write_zero_pages config)
    page ← make_page
    write_meta_page config page file.page
    file ← get_file
    put_file (record file { modified = false })

  unfoldable pub claim_inode_page : Action S ℕ
  unfolding allocate_free_inode_page_number
  claim_inode_page file fs =
      let (page, fs') = allocate_free_inode_page_number config fs in need page file fs'

  -- The branch for a new version of an inode.
  unfoldable pub flush_next : Action S (Unit {0})
  unfolding claim_inode_page keep_undeleted make_page write_zero_pages write_meta_page clean_up
  flush_next = do
    old ← get_file
    page_number ← claim_inode_page
    put_file (record old {
      inode = record old.inode {
        inode_version_number = (old.inode.inode_version_number + 1) % 2 ^ 64;
        data_pages = keep_undeleted old.inode.data_pages;
      };
      page = page_number;
    })
    page ← make_page
    written ← try (write_zero_pages config)
    file ← get_file
    write_meta_page config page file.page
    file ← get_file
    put_file (record file { modified = false })
    file ← get_file
    fs ← get_fs
    put_fs (clean_up old file fs)

  unfoldable pub flush : Action S (Unit {0})
  unfolding flush_first flush_next
  flush = do
    file ← get_file
    if not file.modified
        then pure tt
        else (if file.inode.inode_number == 0 then flush_first else flush_next)
