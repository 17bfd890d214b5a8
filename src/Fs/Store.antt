-- ===== src/Fs/Store.antt =====
-- Writing a page and allocating data pages in src/base/SimpleFlashFsBase.h: `write_page`,
-- `write_meta_page`, `allocate_new_data_pages`, `allocate_new_data_page_at`, `write_zero_pages`.
pub mod Length
pub mod Grown
pub mod Placed
pub mod Apart
pub mod Claims
use simpleflashfs.Prelude.{
  ℕ, zero, suc, ◌+◌, ◌-◌, ◌*◌, ◌%◌, ◌^◌, Bool, true, false, not, ◌&&◌, Option, none, some, List, [],
  ◌∷◌, ◌++◌, if◌then◌else◌, ltb, leb, ◌==◌, length, set,
}
use simpleflashfs.Fs.Types.{
  Header, Config, Fs, File, Inode, DataPage, PageState, new, stored, deleted,
}
use simpleflashfs.Fs.Page.{zero_page}
use simpleflashfs.Fs.Read.{page_at, is_new, is_stored}
use simpleflashfs.Fs.Alloc.{allocate_free_data_page, allocate_file_data_page}
use simpleflashfs.Fs.Action.{
  Outcome, done, quit, fault, Action, ◌>>=◌, ◌>>◌, put_file, put_fs, get_file, get_fs, pure, stop,
  lift, need,
}

abbrev pub is_deleted : PageState → Bool
is_deleted new = false
is_deleted stored = false
is_deleted deleted = true

-- `count_valid_data_pages`.
unfoldable pub count_valid_pages : List DataPage → ℕ
count_valid_pages [] = 0
count_valid_pages (p ∷ ps) =
    if is_deleted p.state then count_valid_pages ps else suc (count_valid_pages ps)

-- `vector::insert` at an index.
unfoldable pub insert_page : List DataPage → ℕ → DataPage → List DataPage
insert_page ps zero q = q ∷ ps
insert_page [] (suc i) q = q ∷ []
insert_page (p ∷ ps) (suc i) q = p ∷ insert_page ps i q

-- The first page with the number `old` becomes page `page_id`, stored.
unfoldable pub renumber : ℕ → ℕ → List DataPage → List DataPage
renumber old page_id [] = []
renumber old page_id (p ∷ ps) =
    if p.page_id == old
    then record { page_id = page_id; state = stored } ∷ ps
    else p ∷ renumber old page_id ps

abbrev pub with_pages : File → List DataPage → File
with_pages file ps = record file { inode = record file.inode { data_pages = ps } }

module _ {S : Type 0} where
  -- A page for the file; the method ends where there is none.
  unfoldable pub claim_data_page : Action S ℕ
  unfolding allocate_file_data_page
  claim_data_page file fs = let (page, fs') = allocate_file_data_page file fs in need page file fs'

  -- `allocate_free_data_page` without a file.
  unfoldable pub claim_free_page : Action S ℕ
  unfolding allocate_free_data_page
  claim_free_page file fs = let (page, fs') = allocate_free_data_page fs in need page file fs'

  -- The loop, with at most `left` rounds.
  unfoldable pub allocate_rounds : ℕ → ℕ → Action S (Unit {0})
  unfolding claim_data_page count_valid_pages insert_page
  allocate_rounds zero page_idx file fs = fault
  allocate_rounds (suc left) page_idx file fs =
      let valid = count_valid_pages file.inode.data_pages in
      elim (ltb page_idx valid) [
        | true ↦ done tt file fs
        | false ↦
            (do
              page_id ← claim_data_page
              put_file (
                  with_pages file (
                    insert_page file.inode.data_pages valid
                      (record { page_id = page_id; state = new })))
              allocate_rounds left page_idx)
              file fs
      ]

  -- A round makes one page more valid: page_idx + 2 rounds are enough.
  unfoldable pub allocate_new_data_pages : ℕ → Action S (Unit {0})
  unfolding allocate_rounds
  allocate_new_data_pages page_idx = allocate_rounds (page_idx + 2) page_idx

  unfoldable pub allocate_new_data_page_at : ℕ → Action S (Unit {0})
  unfolding claim_data_page page_at
  allocate_new_data_page_at page_idx = do
    page_id ← claim_data_page
    file ← get_file
    old ← lift (page_at file.inode.data_pages page_idx)
    let moved = file.inode.data_pages ++ record old { state = deleted } ∷ []
    put_file (with_pages file (set moved page_idx (record { page_id = page_id; state = new })))

module _ {S : Type 0} (config : Config S) where
  -- `mem->write` of a page, whose address has 32 bits. Ends the method if not all of it is written.
  unfoldable pub store_page : ℕ → List ℕ → Action S (Unit {0})
  store_page page_id page file fs =
      let address = (fs.header.page_size + fs.header.page_size * page_id % 2 ^ 32) % 2 ^ 32 in
      let (mem, n) = config.memory.write fs.mem address page in
      let fs' : Fs S = record fs { mem = mem } in
      if n == length page then done tt file fs' else quit file fs'

  -- The branches of `write_page` for the data page with index idx: one that is new is written, any
  -- other is replaced by a free page.
  unfoldable pub write_new : ℕ → DataPage → List ℕ → Action S (Unit {0})
  unfolding store_page
  write_new idx p page = do
    store_page p.page_id page
    file ← get_file
    put_file (with_pages file (set file.inode.data_pages idx (record p { state = stored })))

  unfoldable pub write_copy : DataPage → List ℕ → Action S (Unit {0})
  unfolding claim_free_page store_page renumber
  write_copy p page = do
    page_id ← claim_free_page
    store_page page_id page
    file ← get_file
    put_file (with_pages file (renumber p.page_id page_id file.inode.data_pages))

  unfoldable pub write_page : ℕ → List ℕ → Action S (Unit {0})
  unfolding write_new write_copy page_at
  write_page idx page = do
    file ← get_file
    p ← lift (page_at file.inode.data_pages idx)
    if is_new p.state then write_new idx p page else write_copy p page

  -- `write_meta_page`: its page counts as new, and is in no list.
  unfoldable pub write_meta_page : List ℕ → ℕ → Action S (Unit {0})
  unfolding store_page
  write_meta_page page idx = store_page idx page

  -- The loop at index idx, over the `left` pages from there on. A page that was written is stored.
  unfoldable pub write_zero_rounds : ℕ → ℕ → Action S (Unit {0})
  unfolding write_page page_at
  write_zero_rounds zero idx = pure tt
  write_zero_rounds (suc left) idx = do
    file ← get_file
    fs ← get_fs
    p ← lift (page_at file.inode.data_pages idx)
    if is_new p.state then write_page idx (zero_page fs.header.page_size) else pure tt
    write_zero_rounds left (idx + 1)

  unfoldable pub write_zero_pages : Action S (Unit {0})
  unfolding write_zero_rounds
  write_zero_pages file fs = write_zero_rounds (length file.inode.data_pages) 0 file fs
