-- ===== src/Fs/Write/Page.antt =====
-- `write` of src/base/SimpleFlashFsBase.h of a whole page of a file that has its data in pages.
use simpleflashfs.Prelude.{ℕ, ◌/◌, ◌<◌, ◌≡◌, some, List, ◌∷◌, length}
use simpleflashfs.Fs.Types.{Config, Fs, File, DataPage, stored}
use simpleflashfs.Fs.Memory.{IsMemory}
use simpleflashfs.Fs.Read.{load}
use simpleflashfs.Fs.Action.{Outcome, done}
use simpleflashfs.Fs.Store.{count_valid_pages, write_page}
use simpleflashfs.Fs.Store.Placed.{Holds, Places, relisted}
use simpleflashfs.Fs.Write.{write_behind, grown}

module _ {S : Type 0} (config : Config S) (m : IsMemory config.memory) where
  -- An outcome with the page in the memory, and the handle behind it.
  pub record Writes (idx : ℕ) (p : DataPage) (q : ℕ) (bytes : List ℕ) (file : File) (fs : Fs S)
      (o : Outcome S ℕ) : Type 0 where
    pub after : Fs S
    pub result :
        o
        ≡ done
            (length bytes)
            (grown config (write_behind (relisted config m idx p q file) fs.header.page_size))
            after
    pub holds : Holds config m q bytes fs after
    pub read_back : load config after (record { page_id = q; state = stored }) ≡ some bytes

  module _ (b : ℕ) (rest : List ℕ) (p : DataPage) (q : ℕ) (file : File) (fs : Fs S)
      (whole : length (b ∷ rest) ≡ fs.header.page_size)
      (there : file.pos / fs.header.page_size < count_valid_pages file.inode.data_pages)
      (g : Places config m
        (file.pos / fs.header.page_size)
        p
        q
        (b ∷ rest)
        file
        fs
        (write_page config (file.pos / fs.header.page_size) (b ∷ rest) file fs)) where
    behind : File
    behind =
        write_behind (relisted config m (file.pos / fs.header.page_size) p q file)
          fs.header.page_size
