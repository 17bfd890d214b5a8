-- ===== src/Fs/Write/Inline.antt =====
-- `write` of src/base/SimpleFlashFsBase.h of data that stay in the inode, and what `read` finds then.
use simpleflashfs.Prelude.{ℕ, ◌+◌, ◌^◌, ◌<◌, ◌≡◌, max, true, some, List, ◌++◌, length, take, drop}
use simpleflashfs.Fs.Types.{Config, Fs, File}
use simpleflashfs.Fs.Memory.{IsMemory}
use simpleflashfs.Fs.Inode.{get_inode_data_space_size}
use simpleflashfs.Fs.Action.{Outcome, done}
use simpleflashfs.Fs.Read.{read}
use simpleflashfs.Fs.Write.{widened, fits_inside}

module _ {S : Type 0} (config : Config S) (m : IsMemory config.memory) where
  -- The outcome of a write that is read back.
  pub record ReadsBack (bytes : List ℕ) (file : File) (fs : Fs S) (o : Outcome S ℕ) : Type 0 where
    pub after : File
    pub result : o ≡ done (length bytes) after fs
    pub read_back :
        read config fs (length bytes) (record after { pos = file.pos })
        ≡ some (record { bytes = bytes; file = after })
    pub before :
        take file.pos after.inode.inode_data
        ≡ take file.pos
            (widened (get_inode_data_space_size fs.header file.inode) file.inode.inode_data)
    pub long : after.inode.file_len ≡ max (file.pos + length bytes) file.inode.file_len

  module _ (bytes : List ℕ) (file : File) (fs : Fs S)
      (fits : fits_inside fs.header file (length bytes) ≡ true)
      (word : file.pos + length bytes < 2 ^ 64) where
    abbrev space : ℕ
    space = get_inode_data_space_size fs.header file.inode

    abbrev wide : List ℕ
    wide = widened space file.inode.inode_data

    abbrev data_bytes : List ℕ
    data_bytes = take file.pos wide ++ (bytes ++ drop (file.pos + length bytes) wide)

    abbrev after : File
    after = record file {
      inode = record file.inode {
        inode_data = data_bytes;
        file_len = max (file.pos + length bytes) file.inode.file_len;
      };
      pos = file.pos + length bytes;
      modified = true;
    }
