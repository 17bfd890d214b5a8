-- ===== src/Fs/TwoPages.antt =====
-- SimpleFs2FlashPages of src_2face/SimpleFlashFs2FlashPages.h: which of its two filesystems `init_fs`
-- goes on with, and what `cleanup` leaves on the memories for it. A filesystem is seen as the two
-- files that mark it; the copy of the other files in between changes no mark.
pub mod Recovery
pub mod Tests
use simpleflashfs.Prelude.{
  ℕ, Bool, true, false, not, ◌&&◌, Option, none, some, List, [], ◌∷◌, if◌then◌else◌, ltb,
}

pub data Side : Type 0 where
  fs1 fs2 : Side

-- Whether COPY_COMPLETED_FILE_NAME and FILESYSTEM_SEALED_FILE_NAME are there.
pub record Marks : Type 0 where
  pub copy_completed : Bool
  pub sealed : Bool

-- After `create`.
abbrev pub unmarked : Marks
unmarked = record { copy_completed = false; sealed = false }

-- The tests of `init_fs` where both filesystems are valid, with their greatest inode numbers.
unfoldable pub choose : Marks → Marks → ℕ → ℕ → Side
choose marks1 marks2 m1 m2 =
    if marks1.copy_completed && marks2.sealed
    then fs1
    else (if marks2.copy_completed && marks1.sealed
        then fs2
        else (if not marks1.copy_completed && marks2.sealed
            then fs2
            else (if not marks2.copy_completed && marks1.sealed
                then fs1
                else (if ltb m2 m1 then fs1 else fs2))))

-- The two memories; `none` is one without a valid filesystem.
pub record Disks : Type 0 where
  pub on1 : Option Marks
  pub on2 : Option Marks

-- `init_fs`: the filesystem that stays. Where none is valid, both are created.
unfoldable pub init_fs : Disks → ℕ → ℕ → Side
unfolding choose
init_fs disks m1 m2 = elim disks.on1 [
  | none ↦ elim disks.on2 [ none ↦ choose unmarked unmarked 0 0 | some marks2 ↦ fs2 ]
  | some marks1 ↦ elim disks.on2 [ none ↦ fs1 | some marks2 ↦ choose marks1 marks2 m1 m2 ]
]

abbrev pub seal : Marks → Marks
seal marks = record marks { sealed = true }

-- The memories with other marks for the active filesystem, and for the inactive one.
abbrev pub with_active : Side → (Marks → Marks) → Disks → Disks
with_active fs1 f disks = record disks {
  on1 = elim disks.on1 [ none ↦ none | some m ↦ some (f m) ];
}
with_active fs2 f disks = record disks {
  on2 = elim disks.on2 [ none ↦ none | some m ↦ some (f m) ];
}

abbrev pub with_inactive : Side → Option Marks → Disks → Disks
with_inactive fs1 marks disks = record disks { on2 = marks }
with_inactive fs2 marks disks = record disks { on1 = marks }

-- What works in a run of `cleanup`, where a `create` that fails leaves no valid filesystem: to open the file that seals, the flush of its handle's destructor,
-- `create` behind its erase, the copy of the files, to open the file that marks the end, and the
-- flush of its handle's destructor.
pub record Works : Type 0 where
  pub opens_seal : Bool
  pub flushes_seal : Bool
  pub creates : Bool
  pub copies : Bool
  pub opens_completed : Bool
  pub flushes_completed : Bool

-- Where `cleanup` can be cut off: before its first change of a memory, and behind each of them.
pub data Point : Type 0 where
  started sealed_active erased created completed : Point

-- What the memories pass through, and the result.
pub record Passed : Type 0 where
  pub stages : List (Point × Disks)
  pub result : Bool

abbrev pub behind : Point → Disks → Passed → Passed
behind point disks rest = record rest { stages = (point, disks) ∷ rest.stages }

abbrev pub ended : Bool → Passed
ended result = record { stages = []; result = result }

-- `cleanup` from where the files are copied.
unfoldable pub cleanup_copied : Works → Side → Disks → Passed
cleanup_copied works side disks =
    if works.copies && works.opens_completed
    then (if works.flushes_completed
        then behind completed
            (with_inactive side (some (record unmarked { copy_completed = true })) disks)
            (ended true)
        else ended true)
    else ended false

-- `create` of the inactive filesystem, and the rest.
unfoldable pub cleanup_created : Works → Side → Disks → Passed
unfolding cleanup_copied
cleanup_created works side disks = behind erased (with_inactive side none disks) (
    if works.creates
    then (let next = with_inactive side (some unmarked) disks in
        behind created next (cleanup_copied works side next))
    else ended false)

-- `cleanup` of the active filesystem `side`. Nobody looks at what the two destructors' flushes give.
unfoldable pub cleanup : Works → Side → Disks → Passed
unfolding cleanup_created
cleanup works side disks = behind started disks (
    if works.opens_seal
    then (if works.flushes_seal
        then (let next = with_active side seal disks in
            behind sealed_active next (cleanup_created works side next))
        else cleanup_created works side disks)
    else ended false)
