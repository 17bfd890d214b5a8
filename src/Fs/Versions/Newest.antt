-- ===== src/Fs/Versions/Newest.antt =====
-- `InodeVersionStore` of src/base/SimpleFlashFsBase.h as a map from inode numbers to the newest
-- version that was added.
use simpleflashfs.Prelude.{
  ℕ, ◌≡◌, refl, arith, Bool, true, false, Option, none, some, List, [], ◌∷◌, if◌then◌else◌, ltb,
  ◌==◌,
}
use simpleflashfs.Fs.Types.{File, InodeVersion}
use simpleflashfs.Fs.Versions.{version_of, add_version, is_replaced}

abbrev pub find_version : ℕ → List InodeVersion → Option InodeVersion
find_version n [] = none
find_version n (iv ∷ ivs) = if iv.inode == n then some iv else find_version n ivs

abbrev pub is_known : ℕ → List InodeVersion → Bool
is_known n [] = false
is_known n (iv ∷ ivs) = if iv.inode == n then true else is_known n ivs

abbrev pub newer : File → Option InodeVersion → InodeVersion
newer file none = version_of file
newer file (some iv) =
    if ltb iv.version file.inode.inode_version_number then version_of file else iv

-- No inode has two entries.
abbrev pub OneEach : List InodeVersion → Type 0
OneEach [] = Unit {0}
OneEach (iv ∷ ivs) = (is_known iv.inode ivs ≡ false) × OneEach ivs

find_version-add :
    (file : File) (ivs : List InodeVersion) (n : ℕ)
    → find_version n (add_version file ivs) ≡ (
        if file.inode.inode_number == n
        then some (newer file (find_version file.inode.inode_number ivs))
        else find_version n ivs)
unfolding add_version
find_version-add file [] n = ground arith
find_version-add file (iv ∷ ivs) n = ground (arith, find_version-add file ivs n)

is_known-add :
    (file : File) (ivs : List InodeVersion) (n : ℕ)
    → is_known n (add_version file ivs)
      ≡ (if file.inode.inode_number == n then true else is_known n ivs)
unfolding add_version
is_known-add file [] n = ground arith
is_known-add file (iv ∷ ivs) n = ground (arith, is_known-add file ivs n)

is_replaced-known :
    (file : File) (ivs : List InodeVersion)
    → is_replaced file ivs ≡ is_known file.inode.inode_number ivs
unfolding is_replaced
is_replaced-known file [] = refl
is_replaced-known file (iv ∷ ivs) = ground (arith, is_replaced-known file ivs)

OneEach-add : (file : File) (ivs : List InodeVersion) → OneEach ivs → OneEach (add_version file ivs)
unfolding add_version
OneEach-add file [] o = (refl, tt)
OneEach-add file (iv ∷ ivs) (new, o) =
    ground (arith, OneEach-add file ivs o, is_known-add file ivs iv.inode)

-- `add` on a store with at most one entry for each inode keeps it so, and tells whether the inode had
-- one. Afterwards the entry of the handle's inode is the newer of the handle and the one before it,
-- which stays when both have the same version; the entries of other inodes n are as before.
pub add_version_lem :
    (file : File) (ivs : List InodeVersion) (n : ℕ)
    → OneEach ivs
    → OneEach (add_version file ivs)
      × (find_version n (add_version file ivs) ≡ (
          if file.inode.inode_number == n
          then some (newer file (find_version file.inode.inode_number ivs))
          else find_version n ivs))
      × (is_replaced file ivs ≡ is_known file.inode.inode_number ivs)
add_version_lem file ivs n o =
    (OneEach-add file ivs o, find_version-add file ivs n, is_replaced-known file ivs)
