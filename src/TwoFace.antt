-- ===== src/TwoFace.antt =====
-- H7TwoFace of src_2face/H7TwoFace.h and .cc: one filesystem at a time, which is open for as long as
-- a file of it, under a lock that the user gives as a callback. The filesystem below,
-- SimpleFs2FlashPages, is a record of what is called of it.
pub mod Lock
pub mod Calls
pub mod Tests
use simpleflashfs.Prelude.{
  ℕ, ◌+◌, ◌*◌, ◌%◌, ◌^◌, Bool, true, false, not, ◌&&◌, ◌||◌, Option, none, some, List, [], ◌∷◌, ◌-◌,
  length, leb, ltb, if◌then◌else◌,
}
use simpleflashfs.Fs.Types.{Header}
use simpleflashfs.Fs.Header.{same_bytes}
use simpleflashfs.Fs.Alloc.{get_max_file_size}
use simpleflashfs.Fs.NoDel.{Stat, no_stat}
use simpleflashfs.Fs.Handle.{OpenMode}

-- RESERVED_NAMES, ".FS_COPY_COMPLETED" and ".FS_SEALED".
abbrev pub reserved_names : List (List ℕ)
reserved_names =
    (46 ∷ 70 ∷ 83 ∷ 95 ∷ 67 ∷ 79 ∷ 80 ∷ 89 ∷ 95 ∷ 67 ∷ 79 ∷ 77 ∷ 80 ∷ 76 ∷ 69 ∷ 84 ∷ 69 ∷ 68 ∷ [])
    ∷ (46 ∷ 70 ∷ 83 ∷ 95 ∷ 83 ∷ 69 ∷ 65 ∷ 76 ∷ 69 ∷ 68 ∷ [])
    ∷ []

unfoldable pub is_among : List ℕ → List (List ℕ) → Bool
is_among name [] = false
is_among name (reserved_name ∷ names) = same_bytes reserved_name name || is_among name names

-- std::ios_base::openmode.
pub record Mode : Type 0 where
  pub input : Bool
  pub binary : Bool
  pub rest : OpenMode

-- `mode == std::ios_base::in`.
unfoldable pub is_in : Mode → Bool
is_in mode =
    mode.input
    && not (mode.binary || mode.rest.out || mode.rest.app || mode.rest.trunc || mode.rest.ate)

-- The tests of `open` of what the filesystem has left.
unfoldable pub has_inode : Mode → Stat → Bool
unfolding is_in
has_inode mode stat =
    if mode.rest.trunc && ltb 2 stat.free_inodes
    then true
    else (if is_in mode then true else not (leb stat.free_inodes 3))

-- H7TwoFace::Stat.
pub record FaceStat : Type 0 where
  pub stat : Stat
  pub max_number_of_files : ℕ
  pub number_of_files : ℕ
  pub max_file_size : ℕ
  pub max_path_len : ℕ
  pub free_space : ℕ

abbrev pub empty_stat : FaceStat
empty_stat = record {
  stat = no_stat;
  max_number_of_files = 0;
  number_of_files = 0;
  max_file_size = 0;
  max_path_len = 0;
  free_space = 0;
}

-- SimpleFs2FlashPages on the two memories that M points to, with W for what all memories have in them,
-- a filesystem F and its handles H. `get_stat`,
-- `get_header`, the count of free data pages and the names of `list_files` are those of the current
-- filesystem. `closed` is the destructor of a handle, `left` what the memories have behind the filesystem's
-- calls.
pub record TwoPages (M W F H : Type 0) : Type 0 where
  pub made : M → W → F
  pub left : F → W
  pub init : F → F × Bool
  pub recreate : F → F × Bool
  pub open_handle : F → List ℕ → Mode → F × H
  pub valid : H → Bool
  pub closed : F → H → F
  pub get_stat : F → Stat
  pub get_header : F → Header
  pub get_number_of_free_data_pages : F → ℕ
  pub file_names : F → List (List ℕ)

-- H7TwoFaceImpl.
pub record Impl (F H : Type 0) : Type 0 where
  pub fs : F
  pub file : Option H

-- The global objects, what the memories have, and how often the callback was called with true and
-- with false. While there is an instance, it has the memories.
pub record Global (M W F H : Type 0) : Type 0 where
  pub fs_mem : Option M
  pub memories : W
  pub fs_impl : Option (Impl F H)
  pub locks : ℕ
  pub unlocks : ℕ

module _ {M W F H : Type 0} (fs2 : TwoPages M W F H) where
  unfoldable pub lock : Global M W F H → Global M W F H
  lock g = record g { locks = g.locks + 1 }

  unfoldable pub unlock : Global M W F H → Global M W F H
  unlock g = record g { unlocks = g.unlocks + 1 }

  -- `fs_impl.reset()`, with the destructor of H7TwoFaceImpl.
  unfoldable pub reset : Global M W F H → Global M W F H
  unfolding unlock
  reset g = elim g.fs_impl [
    | none ↦ g
    | some impl ↦ record (unlock g) { fs_impl = none; memories = fs2.left impl.fs }
  ]

  -- `fs_impl.emplace`, where there is no instance. An exception is none: of an optional without a
  -- memory, or of an `init` that fails.
  unfoldable pub emplace : Bool → Global M W F H → Option F × Global M W F H
  emplace do_init g = elim g.fs_mem [
    | none ↦ (none, g)
    | some mem ↦
        let r =
          if do_init then fs2.init (fs2.made mem g.memories) else (fs2.made mem g.memories, true) in
        if r.1
        then (some r.0, record g { fs_impl = some (record { fs = r.0; file = none }) })
        else (none, record g { memories = fs2.left r.0 })
  ]

  -- A function under the lock: `refused` where another instance is open, an exception as none.
  unfoldable pub locked :
      {A : Type 0}
      → Bool
      → A
      → (F → Global M W F H → A × Global M W F H)
      → Global M W F H
      → Option A × Global M W F H
  unfolding lock unlock emplace
  locked do_init refused body g = elim g.fs_impl [
    | some impl ↦ (some refused, unlock (lock g))
    | none ↦
        let r = emplace do_init (lock g) in
        elim r.0 [ none ↦ (none, r.1) | some fs ↦ (some (body fs r.1).0, (body fs r.1).1) ]
  ]

  -- `open` behind the lock: whether it gives a handle.
  open_locked : List ℕ → Mode → F → Global M W F H → Bool × Global M W F H
  unfolding has_inode reset
  open_locked name mode fs g =
      if has_inode mode (fs2.get_stat fs)
      then (let r = fs2.open_handle fs name mode in
          let opened = record g { fs_impl = some (record { fs = r.0; file = some r.1 }) } in
          if fs2.valid r.1 then (true, opened) else (false, reset opened))
      else (false, reset g)

  unfoldable pub open_file : List ℕ → Mode → Global M W F H → Option Bool × Global M W F H
  unfolding is_among locked open_locked
  open_file name mode g =
      if is_among name reserved_names
      then (some false, g)
      else locked true false (open_locked name mode) g

  unfoldable pub list_files : Global M W F H → Option (List (List ℕ)) × Global M W F H
  unfolding locked reset
  list_files g = locked true [] (λ fs g'. (fs2.file_names fs, reset g')) g

  -- The numbers that `get_stat` computes; size_t has 64 bits.
  unfoldable pub stat_of : F → FaceStat
  unfolding get_max_file_size
  stat_of fs =
      let header = fs2.get_header fs in
      let stat = fs2.get_stat fs in
      record {
        stat = stat;
        max_number_of_files =
            ((header.max_inodes + 2 ^ 32 - 1) % 2 ^ 32 + 2 ^ 64 - length reserved_names) % 2 ^ 64;
        number_of_files = length (fs2.file_names fs);
        max_file_size = get_max_file_size header;
        max_path_len = header.max_path_len;
        free_space =
            (fs2.get_number_of_free_data_pages fs * header.page_size + stat.trash_size) % 2 ^ 64;
      }

  unfoldable pub get_stat : Global M W F H → Option FaceStat × Global M W F H
  unfolding locked reset stat_of
  get_stat g = locked true empty_stat (λ fs g'. (stat_of fs, reset g')) g

  recreate_fs : F → Global M W F H → Bool × Global M W F H
  unfolding reset
  recreate_fs fs g =
      let r = fs2.recreate fs in
      (r.1, reset (record g { fs_impl = some (record { fs = r.0; file = none }) }))

  unfoldable pub recreate : Global M W F H → Option Bool × Global M W F H
  unfolding locked recreate_fs
  recreate g = locked false false recreate_fs g

  -- The destructor of the File that `open` gave.
  unfoldable pub close : Global M W F H → Global M W F H
  unfolding reset
  close g = elim g.fs_impl [
    | none ↦ g
    | some impl ↦ elim impl.file [
      | none ↦ g
      | some handle ↦
          reset
            (record g { fs_impl = some (record { fs = fs2.closed impl.fs handle; file = none }) })
    ]
  ]

unfoldable pub set_memory_interface : {M W F H : Type 0} → M → Global M W F H → Global M W F H
set_memory_interface mem g = record g { fs_mem = some mem }
