-- ===== src/Fs/Write.antt =====
-- `write` and `enlarge_file` of src/base/SimpleFlashFsBase.h.
pub mod Total
pub mod Whole
pub mod Inline
pub mod Page
pub mod Tests
pub mod Apart
pub mod ApartTests
use simpleflashfs.Prelude.{
  ℕ, zero, suc, ◌+◌, ◌-◌, ◌*◌, ◌/◌, ◌%◌, ◌^◌, min, max, Bool, true, false, not, ◌&&◌, ◌||◌, Option,
  none, some, List, [], ◌∷◌, ◌++◌, if◌then◌else◌, ltb, leb, ◌==◌, length, take, drop, replicate,
}
use simpleflashfs.PageSet.{size}
use simpleflashfs.Fs.Types.{Header, Config, Fs, File, Inode, DataPage, PageState}
use simpleflashfs.Fs.Page.{PageRead, ok, read_error, crc_error, zero_page, put, read_page}
use simpleflashfs.Fs.Inode.{get_inode_data_space_size}
use simpleflashfs.Fs.Alloc.{get_max_file_size}
use simpleflashfs.Fs.Read.{page_at, is_new, is_stored, page_of, load}
use simpleflashfs.Fs.Action.{
  Outcome, done, quit, fault, Action, ◌>>=◌, ◌>>◌, put_file, put_fs, get_file, get_fs, pure, stop,
  lift, need,
}
use simpleflashfs.Fs.Store.{allocate_new_data_pages, allocate_new_data_page_at, write_page}

-- `inode_data.resize` to at least `space`.
abbrev pub widened : ℕ → List ℕ → List ℕ
widened space bytes = bytes ++ replicate (space - length bytes) 0

abbrev pub write_behind : File → ℕ → File
write_behind file n = record file { pos = file.pos + n }

-- Whether the data stay in the inode.
unfoldable pub fits_inside : Header → File → ℕ → Bool
unfolding get_inode_data_space_size
fits_inside h file n =
    let space = get_inode_data_space_size h file.inode in
    ltb ((file.pos + n) % 2 ^ 64) space && ltb file.inode.file_len space

abbrev pub is_fresh : Option DataPage → Bool
is_fresh none = false
is_fresh (some p) = is_new p.state

module _ {S : Type 0} (config : Config S) where
  unfoldable pub write_inside : List ℕ → Action S ℕ
  unfolding put get_inode_data_space_size
  write_inside bytes = do
    file ← get_file
    fs ← get_fs
    let space = get_inode_data_space_size fs.header file.inode
    inode_data ← lift (put file.pos bytes (widened space file.inode.inode_data))
    let pos = file.pos + length bytes
    put_file (record file {
      inode = record file.inode { inode_data = inode_data; file_len = max pos file.inode.file_len };
      pos = pos;
      modified = true;
    })
    pure (length bytes)

  -- The page with index idx from the memory, or zeros where the code does not read it.
  unfoldable pub page_before : Bool → DataPage → Action S (List ℕ)
  unfolding load
  page_before true p file fs = need (load config fs p) file fs
  page_before false p file fs = done (zero_page fs.header.page_size) file fs

  -- Puts bytes at `start` of the page with index idx and writes the page; what was stored moves.
  unfoldable pub overwrite : ℕ → ℕ → List ℕ → List ℕ → Action S (Unit {0})
  unfolding put allocate_new_data_page_at write_page page_at
  overwrite idx start bytes before = do
    page ← lift (put start bytes before)
    file ← get_file
    p ← lift (page_at file.inode.data_pages idx)
    if is_stored p.state then allocate_new_data_page_at idx else pure tt
    write_page config idx page
    file ← get_file
    put_file (write_behind file (length bytes))

  -- The part before the loop, for a position inside of a page; the number of bytes it writes.
  unfoldable pub write_unaligned : List ℕ → Action S ℕ
  unfolding page_at allocate_new_data_pages page_before overwrite
  write_unaligned bytes = do
    file ← get_file
    fs ← get_fs
    let page_idx = file.pos / fs.header.page_size
    let start = file.pos % fs.header.page_size
    if ltb 0 page_idx then allocate_new_data_pages (page_idx - 1) else pure tt
    file ← get_file
    let fresh = is_fresh (page_at file.inode.data_pages page_idx)
    if fresh then pure tt else allocate_new_data_pages page_idx
    file ← get_file
    p ← lift (page_at file.inode.data_pages page_idx)
    before ← page_before (not fresh) p
    let n = min (length bytes) (fs.header.page_size - start)
    overwrite page_idx start (take n bytes) before
    pure n

  -- The body of the loop; the number of bytes it writes.
  unfoldable pub write_round : List ℕ → Action S ℕ
  unfolding page_at allocate_new_data_pages page_before overwrite write_page
  write_round bytes = do
    file ← get_file
    fs ← get_fs
    let page_idx = file.pos / fs.header.page_size
    allocate_new_data_pages page_idx
    if ltb (length bytes) fs.header.page_size
        then (do
          file ← get_file
          p ← lift (page_at file.inode.data_pages page_idx)
          before ← page_before (is_stored p.state) p
          overwrite page_idx 0 bytes before
          pure (length bytes))
        else (do
          write_page config page_idx (take fs.header.page_size bytes)
          file ← get_file
          put_file (write_behind file fs.header.page_size)
          pure fs.header.page_size)

  -- The loop, on the bytes that are left, with at most `left` rounds.
  unfoldable pub write_rounds : ℕ → List ℕ → Action S (Unit {0})
  unfolding write_round
  write_rounds left [] = pure tt
  write_rounds zero (b ∷ bytes) = λ file fs. fault
  write_rounds (suc left) (b ∷ bytes) = do
    n ← write_round (b ∷ bytes)
    write_rounds left (drop n (b ∷ bytes))

  abbrev pub grown : File → File
  grown file = record file {
    inode = record file.inode { file_len = max file.pos file.inode.file_len };
    modified = true;
  }

  -- `write` behind the data in the inode. A round writes a byte or more.
  unfoldable pub write_pages : List ℕ → Action S ℕ
  unfolding write_unaligned write_rounds
  write_pages bytes = do
    file ← get_file
    fs ← get_fs
    n ← (if file.pos % fs.header.page_size == 0 then pure 0 else write_unaligned bytes)
    write_rounds (length bytes) (drop n bytes)
    file ← get_file
    put_file (grown file)
    pure (length bytes)

  -- What follows when a page has n old bytes and k new ones: its write, and that of the rest.
  unfoldable pub write_joined : (List ℕ → Action S ℕ) → List ℕ → ℕ → ℕ → List ℕ → Action S ℕ
  unfolding write_pages
  write_joined rec bytes n k page = do
    file ← get_file
    fs ← get_fs
    put_file
        (record file { inode = record file.inode { inode_data = [] }; pos = 0; modified = true })
    written ← rec (take (n + k) page)
    if written == n + k
        then (if leb (n + k) fs.header.page_size && (length bytes == k)
            then pure (length bytes)
            else (do m ← write_pages (drop k bytes); pure (m + k)))
        else stop

  -- Data that leave the inode: the first page is put together and written by a call of `write`,
  -- which is `rec`, and the rest follows.
  unfoldable pub spill : (List ℕ → Action S ℕ) → List ℕ → Action S ℕ
  unfolding put write_joined
  spill rec bytes = do
    file ← get_file
    fs ← get_fs
    let n = file.pos
    let left = (fs.header.page_size + 2 ^ 64 - n % 2 ^ 64) % 2 ^ 64
    let k = min left (length bytes)
    page ← lift (
        if leb n (length file.inode.inode_data)
        then put 0 (take n file.inode.inode_data) (zero_page fs.header.page_size)
        else none)
    page ← lift (put n (take k bytes) page)
    write_joined rec bytes n k page

  -- `write` with its recursive call.
  unfoldable pub write_with : (List ℕ → Action S ℕ) → List ℕ → Action S ℕ
  unfolding fits_inside write_inside spill write_pages
  write_with rec bytes = do
    file ← get_file
    fs ← get_fs
    if fits_inside fs.header file (length bytes)
        then write_inside bytes
        else (if length file.inode.inode_data == 0 then write_pages bytes else spill rec bytes)

  -- The recursive call meets an inode with no data, and makes no further one.
  unfoldable pub write : List ℕ → Action S ℕ
  unfolding write_with
  write bytes = write_with (write_with (λ rest. λ file fs. fault)) bytes

module _ {S : Type 0} where
  unfoldable pub enlarge_file : ℕ → Action S (Unit {0})
  unfolding allocate_new_data_pages size get_max_file_size get_inode_data_space_size
  enlarge_file amount = do
    file ← get_file
    fs ← get_fs
    let target = (file.inode.file_len + amount) % 2 ^ 64
    let space = get_inode_data_space_size fs.header file.inode
    if leb (size fs.free_data_pages * fs.header.page_size % 2 ^ 64) amount
          || leb (get_max_file_size fs.header) target
        then stop
        else (if leb target space
            then put_file (record file {
              inode = record file.inode { inode_data = widened space file.inode.inode_data };
            })
            else allocate_new_data_pages (target / fs.header.page_size))
    file ← get_file
    put_file (record file { inode = record file.inode { file_len = target }; modified = true })
