-- ===== src/Fs/Action.antt =====
-- The methods of src/base/SimpleFlashFsBase.h that change a file handle and the filesystem together.
-- A method that returns early with false or 0 quits, and keeps what it has done until then; a fault
-- is an exception, or an access outside of a buffer.
pub mod Post
pub mod Keeps
use simpleflashfs.Prelude.{ℕ, Bool, true, false, Option, none, some, if◌then◌else◌}
use simpleflashfs.PageSet.{PageSet}
use simpleflashfs.Fs.Types.{File, Inode, Fs, Header}

pub data Outcome (S A : Type 0) : Type 0 where
  done : A → File → Fs S → Outcome S A
  quit : File → Fs S → Outcome S A
  fault : Outcome S A

abbrev pub Action : Type 0 → Type 0 → Type 0
Action S A = File → Fs S → Outcome S A

module _ {S A B : Type 0} where
  abbrev pub continue : Outcome S A → (A → Action S B) → Outcome S B
  continue (done a file fs) f = f a file fs
  continue (quit file fs) f = quit file fs
  continue fault f = fault

  infixl 5 ◌>>=◌
  abbrev pub ◌>>=◌ : Action S A → (A → Action S B) → Action S B
  ◌>>=◌ m f file fs = continue (m file fs) f

module _ {S B : Type 0} where
  infixl 5 ◌>>◌
  abbrev pub ◌>>◌ : Action S (Unit {0}) → Action S B → Action S B
  m >> n = m >>= λ _. n

module _ {S : Type 0} where
  -- `if( !m() ) ...` where the method goes on: whether m did not quit.
  abbrev pub settle : Outcome S (Unit {0}) → Outcome S Bool
  settle (done a file fs) = done true file fs
  settle (quit file fs) = done false file fs
  settle fault = fault

  abbrev pub try : Action S (Unit {0}) → Action S Bool
  try m file fs = settle (m file fs)

  abbrev pub put_file : File → Action S (Unit {0})
  put_file file' file fs = done tt file' fs

  abbrev pub put_fs : Fs S → Action S (Unit {0})
  put_fs fs' file fs = done tt file fs'

  abbrev pub get_file : Action S File
  get_file file fs = done file file fs

  abbrev pub get_fs : Action S (Fs S)
  get_fs file fs = done fs file fs

module _ {S A : Type 0} where
  abbrev pub pure : A → Action S A
  pure a file fs = done a file fs

  abbrev pub stop : Action S A
  stop file fs = quit file fs

  -- What must be there.
  abbrev pub lift : Option A → Action S A
  lift none file fs = fault
  lift (some a) file fs = done a file fs

  -- What ends the method if it is not there.
  abbrev pub need : Option A → Action S A
  need none file fs = quit file fs
  need (some a) file fs = done a file fs
