-- ===== src/TwoFace/Lock.antt =====
-- The lock of src_2face/H7TwoFace.cc: it is held for as long as there is an instance.
use simpleflashfs.Prelude.{
  ℕ, ◌+◌, ◌≡◌, refl, ap, inl, inr, Bool, true, false, Option, none, some, List, [], Bool-cases,
}
use simpleflashfs.TwoFace.{
  empty_stat, Mode, TwoPages, Impl, Global, reserved_names, is_among, has_inode, lock, unlock,
  reset, emplace, locked, open_locked, open_file, list_files, get_stat, recreate, recreate_fs,
  stat_of, close,
}

abbrev pub IsOpen : {H : Type 0} → Option H → ℕ → ℕ → Type 0
IsOpen none locks unlocks = ⊥
IsOpen (some handle) locks unlocks = locks ≡ unlocks + 1

module _ {M W F H : Type 0} where
  -- Without an instance the lock is given back; an instance has a file, and holds the lock once.
  abbrev pub IsBalanced : Global M W F H → Type 0
  IsBalanced g = elim g.fs_impl [
    | none ↦ g.locks ≡ g.unlocks
    | some impl ↦ IsOpen impl.file g.locks g.unlocks
  ]

  -- Behind an exception the lock is held once, without an instance.
  abbrev pub IsStuck : Global M W F H → Type 0
  IsStuck g = (g.locks ≡ g.unlocks + 1) × (g.fs_impl ≡ none)

  abbrev pub Ends : {A : Type 0} → Option A × Global M W F H → Type 0
  Ends r = elim r.0 [ none ↦ IsStuck r.1 | some a ↦ IsBalanced r.1 ]

module _ {M W F H : Type 0} (fs2 : TwoPages M W F H) where
  -- A body that is started with a new instance, under the lock.
  abbrev Started : F → Global M W F H → Type 0
  Started fs g = (g.locks ≡ g.unlocks + 1) × (g.fs_impl ≡ some (record { fs = fs; file = none }))

  abbrev Emplaced : Option F × Global M W F H → Type 0
  Emplaced r = elim r.0 [ none ↦ IsStuck r.1 | some fs ↦ Started fs r.1 ]

  emplace_lem :
      (do_init : Bool) (mem : Option M) (w : W) (locks unlocks : ℕ)
      → locks ≡ unlocks + 1
      → Emplaced (
          emplace fs2 do_init (record {
            fs_mem = mem;
            memories = w;
            fs_impl = none;
            locks = locks;
            unlocks = unlocks;
          }))
  unfolding emplace
  emplace_lem do_init none w locks unlocks h = (h, refl)
  emplace_lem true (some mem) w locks unlocks h = elim (Bool-cases (fs2.init (fs2.made mem w)).1) [
    | inl e ↦ rw e (h, refl)
    | inr e ↦ rw e (h, refl)
  ]
  emplace_lem false (some mem) w locks unlocks h = (h, refl)

  run_body :
      {A : Type 0} (body : F → Global M W F H → A × Global M W F H) (r : Option F × Global M W F H)
      → ((fs : F) (g' : Global M W F H) → Started fs g' → IsBalanced (body fs g').1)
      → Emplaced r
      → Ends {M = M} {W = W} {F = F} {H = H} {A = A}
          (elim r.0 [ none ↦ (none, r.1) | some fs ↦ (some (body fs r.1).0, (body fs r.1).1) ])
  run_body body (none, g') keeps h = h
  run_body body (some fs, g') keeps h = keeps fs g' h

  IsOpen-again :
      (file : Option H) (locks unlocks : ℕ)
      → IsOpen file locks unlocks
      → IsOpen file (locks + 1) (unlocks + 1)
  IsOpen-again none locks unlocks h = elim h [ ]
  IsOpen-again (some handle) locks unlocks h = ap (λ n. n + 1) h

  locked_lem :
      {A : Type 0} (do_init : Bool) (refused : A) (body : F → Global M W F H → A × Global M W F H)
      (mem : Option M) (w : W) (impl : Option (Impl F H)) (locks unlocks : ℕ)
      → ((fs : F) (g' : Global M W F H) → Started fs g' → IsBalanced (body fs g').1)
      → IsBalanced
          (record { fs_mem = mem; memories = w; fs_impl = impl; locks = locks; unlocks = unlocks })
      → Ends (
          locked fs2 do_init refused body (record {
            fs_mem = mem;
            memories = w;
            fs_impl = impl;
            locks = locks;
            unlocks = unlocks;
          }))
  unfolding locked lock unlock
  locked_lem do_init refused body mem w none locks unlocks keeps h =
      run_body body
        (emplace fs2 do_init (record {
          fs_mem = mem;
          memories = w;
          fs_impl = none;
          locks = locks + 1;
          unlocks = unlocks;
        }))
        keeps (emplace_lem do_init mem w (locks + 1) unlocks (ap (λ n. n + 1) h))
  locked_lem do_init refused body mem w (some impl) locks unlocks keeps h =
      IsOpen-again impl.file locks unlocks h

  reset_lem :
      (g : Global M W F H) (impl : Impl F H)
      → g.locks ≡ g.unlocks + 1
      → g.fs_impl ≡ some impl
      → IsBalanced (reset fs2 g)
  unfolding reset unlock
  reset_lem g impl h e = rw e h

  open_locked_lem :
      (name : List ℕ) (mode : Mode) (fs : F) (g : Global M W F H)
      → Started fs g
      → IsBalanced (open_locked fs2 name mode fs g).1
  unfolding open_locked
  open_locked_lem name mode fs g started = elim (Bool-cases (has_inode mode (fs2.get_stat fs))) [
    | inr e ↦ rw e (reset_lem g _ started.0 started.1)
    | inl e ↦ elim (Bool-cases (fs2.valid (fs2.open_handle fs name mode).1)) [
      | inl v ↦ rw (e, v) started.0
      | inr v ↦
          rw (e, v)
            (reset_lem
              (record g {
                fs_impl = some (record {
                  fs = (fs2.open_handle fs name mode).0;
                  file = some (fs2.open_handle fs name mode).1;
                });
              })
              _ started.0 refl)
    ]
  ]

  pub open_file_lem :
      (name : List ℕ) (mode : Mode) (g : Global M W F H)
      → IsBalanced g
      → Ends (open_file fs2 name mode g)
  unfolding open_file
  open_file_lem name mode g h = elim (Bool-cases (is_among name reserved_names)) [
    | inl e ↦ rw e h
    | inr e ↦ rw e (
        locked_lem true false (open_locked fs2 name mode) g.fs_mem g.memories g.fs_impl g.locks
          g.unlocks (open_locked_lem name mode) h)
  ]

  pub list_files_lem : (g : Global M W F H) → IsBalanced g → Ends (list_files fs2 g)
  unfolding list_files
  list_files_lem g h =
      locked_lem true [] (λ fs g'. (fs2.file_names fs, reset fs2 g')) g.fs_mem g.memories g.fs_impl
        g.locks g.unlocks (λ fs g' started. reset_lem g' _ started.0 started.1) h

  pub get_stat_lem : (g : Global M W F H) → IsBalanced g → Ends (get_stat fs2 g)
  unfolding get_stat
  get_stat_lem g h =
      locked_lem true empty_stat (λ fs g'. (stat_of fs2 fs, reset fs2 g')) g.fs_mem g.memories
        g.fs_impl g.locks g.unlocks (λ fs g' started. reset_lem g' _ started.0 started.1) h

  pub recreate_lem : (g : Global M W F H) → IsBalanced g → Ends (recreate fs2 g)
  unfolding recreate recreate_fs
  recreate_lem g h =
      locked_lem false false (recreate_fs fs2) g.fs_mem g.memories g.fs_impl g.locks g.unlocks
        (λ fs g' started.
          reset_lem
            (record g' { fs_impl = some (record { fs = (fs2.recreate fs).0; file = none }) }) _
            started.0 refl)
        h

  abbrev pub IsFree : Global M W F H → Type 0
  IsFree g = (g.locks ≡ g.unlocks) × (g.fs_impl ≡ none)

  close_open :
      (g : Global M W F H) (impl : Impl F H) (file : Option H)
      → g.fs_impl ≡ some impl
      → impl.file ≡ file
      → IsOpen file g.locks g.unlocks
      → IsFree (close fs2 g)
  unfolding close reset unlock
  close_open g impl none e f h = elim h [ ]
  close_open g impl (some handle) e f h = rw (e, f) (h, refl)

  close_any :
      (g : Global M W F H) (o : Option (Impl F H))
      → g.fs_impl ≡ o
      → IsBalanced (record g { fs_impl = o })
      → IsFree (close fs2 g)
  unfolding close
  close_any g none e h = rw e (h, refl)
  close_any g (some impl) e h = close_open g impl impl.file e refl h

  pub close_lem : (g : Global M W F H) → IsBalanced g → IsFree (close fs2 g)
  close_lem g h = close_any g g.fs_impl refl h
