-- ===== src/Fs/Handle.antt =====
-- `open`, `delete_file`, `rename_file` and the methods of FileHandle of src/base/SimpleFlashFsBase.h.
pub mod Shrink
pub mod Tests
pub mod Resize
use simpleflashfs.Prelude.{
  ℕ, zero, suc, ◌+◌, ◌-◌, ◌*◌, ◌/◌, ◌%◌, ◌^◌, Bool, true, false, not, ◌&&◌, ◌||◌, Option, none,
  some, List, [], ◌∷◌, if◌then◌else◌, ltb, leb, ◌==◌, length, take,
}
use simpleflashfs.Fs.Types.{
  Header, Config, Fs, File, Inode, DataPage, InodeVersion, no_file, empty_inode,
}
use simpleflashfs.Fs.Page.{read_page}
use simpleflashfs.Fs.Alloc.{allocate_free_inode_page}
use simpleflashfs.Fs.Action.{
  Outcome, done, quit, fault, Action, ◌>>=◌, ◌>>◌, put_file, put_fs, get_file, get_fs, pure, stop,
  lift, need, try,
}
use simpleflashfs.Fs.Store.{with_pages}
use simpleflashfs.Fs.Write.{write, enlarge_file}
use simpleflashfs.Fs.Flush.{flush}
use simpleflashfs.Fs.Versions.{find_file, destroy}

-- The bits of std::ios_base::openmode that `open` asks for.
pub record OpenMode : Type 0 where
  pub out : Bool
  pub app : Bool
  pub trunc : Bool
  pub ate : Bool

-- The lambda `handle_append_mode`.
unfoldable pub handle_append_mode : OpenMode → File → File
handle_append_mode mode file = record file {
  append = mode.app || file.append;
  pos = if mode.ate && ltb 0 file.inode.file_len then file.inode.file_len - 1 else file.pos;
}

unfoldable pub named : List ℕ → File → File
named name file = record file {
  inode = record file.inode { file_name = name; file_name_len = length name % 2 ^ 16 };
  modified = true;
}

-- The inode of a file that is opened with `trunc`.
unfoldable pub truncated : Inode → Inode
truncated i = record i { file_len = 0; pages = 0; data_pages = []; inode_data = [] }

unfoldable pub eof : File → Bool
eof file = if file.inode.file_len == 0 then true else file.pos == file.inode.file_len - 1

abbrev shrunk_data : ℕ → List ℕ → List ℕ
shrunk_data n bytes = if ltb n (length bytes) then take n bytes else bytes

-- The branch of `truncate` that shrinks the file.
unfoldable pub shrink : Header → ℕ → File → File
shrink h n file =
    let inline = length file.inode.data_pages == 0 in
    let needed = (n + h.page_size + 2 ^ 64 - 1) % 2 ^ 64 / h.page_size in
    record file {
      inode = record file.inode {
        file_len = n;
        inode_data = if inline then shrunk_data n file.inode.inode_data else file.inode.inode_data;
        data_pages =
            if not inline && ltb needed (length file.inode.data_pages)
            then take needed file.inode.data_pages
            else file.inode.data_pages;
      };
      pos = if ltb n file.pos then n else file.pos;
      modified = true;
    }

module _ {S : Type 0} (config : Config S) where
  abbrev result : File → Option (Fs S) → Option (File × Fs S)
  result file none = none
  result file (some fs) = some (file, fs)

  -- `open` where there is no file of the name.
  open_new : List ℕ → OpenMode → Fs S → Option (File × Fs S)
  unfolding allocate_free_inode_page destroy handle_append_mode named
  open_new name mode fs =
      let (handle, fs') = allocate_free_inode_page config fs in
      if not mode.out && not mode.app
      then some (no_file, fs)
      else (if not handle.connected
          then some (no_file, fs')
          else (if ltb fs.header.max_path_len (length name)
              then result no_file (destroy config handle fs')
              else some (handle_append_mode mode (named name handle), fs')))

  -- `open` of a file that is there; with `trunc` its old handle is destroyed.
  open_old : File → OpenMode → Fs S → Option (File × Fs S)
  unfolding allocate_free_inode_page destroy handle_append_mode truncated
  open_old file mode fs =
      let (handle, fs') = allocate_free_inode_page config fs in
      if mode.trunc
      then result
          (if handle.connected then record handle { inode = truncated file.inode } else no_file)
          (destroy config file fs')
      else some (handle_append_mode mode file, fs)

  open_found : List ℕ → OpenMode → Option (File × Fs S) → Option (File × Fs S)
  unfolding open_new open_old
  open_found name mode none = none
  open_found name mode (some (file, fs)) =
      if file.connected then open_old file mode fs else open_new name mode fs

  unfoldable pub open_file : List ℕ → OpenMode → Fs S → Option (File × Fs S)
  unfolding find_file open_found
  open_file name mode fs = open_found name mode (find_file config name fs)

  unfoldable pub delete_file : Action S (Unit {0})
  unfolding flush
  delete_file = do
    file ← get_file
    put_file (record file {
      inode = record file.inode {
        file_name = [];
        file_name_len = 0;
        pages = 0;
        data_pages = [];
        inode_data = [];
        file_len = 0;
      };
      modified = true;
    })
    flush config
    file ← get_file
    put_file (record file { connected = false })

  -- The file that has the new name already is deleted, as far as that works.
  replaced : Option (File × Fs S) → Option (File × Fs S)
  unfolding delete_file
  replaced none = none
  replaced (some (other, fs)) =
      if other.connected
      then (elim (delete_file other fs) [
        | done a other' fs' ↦ some (other', fs')
        | quit other' fs' ↦ some (other', fs')
        | fault ↦ none
      ])
      else some (other, fs)

  -- It returns true, whether its flush works or not.
  unfoldable pub rename_file : List ℕ → Action S (Unit {0})
  unfolding find_file replaced named flush destroy
  rename_file name = do
    fs ← get_fs
    (other, fs) ← lift (replaced (find_file config name fs))
    put_fs fs
    file ← get_file
    put_file (named name file)
    flushed ← try (flush config)
    fs ← get_fs
    fs ← lift (destroy config other fs)
    put_fs fs

module _ {S : Type 0} where
  -- The length of the growth is a 64-bit number.
  unfoldable pub seek : ℕ → Action S (Unit {0})
  unfolding enlarge_file
  seek pos = do
    file ← get_file
    if leb pos file.inode.file_len
        then pure tt
        else enlarge_file ((pos + 2 ^ 64 - file.inode.file_len - 1) % 2 ^ 64)
    file ← get_file
    put_file (record file { pos = pos })

  unfoldable pub truncate : ℕ → Action S (Unit {0})
  unfolding enlarge_file shrink
  truncate n = do
    file ← get_file
    fs ← get_fs
    if not file.connected
        then stop
        else (if n == file.inode.file_len
            then pure tt
            else (if ltb file.inode.file_len n
                then enlarge_file (n - file.inode.file_len)
                else put_file (shrink fs.header n file)))

module _ {S : Type 0} (config : Config S) where
  -- `FileHandle::write`.
  unfoldable pub write_file_handle : List ℕ → Action S ℕ
  unfolding write seek
  write_file_handle bytes = do
    file ← get_file
    if file.append then (do moved ← try (seek file.inode.file_len); pure tt) else pure tt
    write config bytes
