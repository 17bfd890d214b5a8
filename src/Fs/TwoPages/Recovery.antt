-- ===== src/Fs/TwoPages/Recovery.antt =====
-- Which filesystem src_2face/SimpleFlashFs2FlashPages.h finds behind a `cleanup` that was cut off.
use simpleflashfs.Prelude.{
  ℕ, ◌≡◌, refl, inl, inr, Bool, true, false, not, ◌&&◌, ◌||◌, Option, none, some, List, [], ◌∷◌,
  arith, Bool-cases,
}
use simpleflashfs.Fs.TwoPages.{
  Side, fs1, fs2, Marks, Disks, unmarked, seal, choose, init_fs, Works, Point, started,
  sealed_active, erased, created, completed, with_active, with_inactive, cleanup, cleanup_created,
  cleanup_copied,
}

abbrev pub complete : Marks
complete = record unmarked { copy_completed = true }

abbrev pub other : Side → Side
other fs1 = fs2
other fs2 = fs1

-- The other filesystem is none, or is not marked as the target of a completed copy and was sealed
-- only by the `cleanup` that completed the active one.
abbrev pub is_left_behind : Marks → Option Marks → Bool
is_left_behind active none = true
is_left_behind active (some marks) =
    not marks.copy_completed && (active.copy_completed || not marks.sealed)

||-true : (x : Bool) → (x || true) ≡ true
||-true true = refl
||-true false = refl

choose-first :
    (c c' s' : Bool) (m1 m2 : ℕ)
    → not c' && (c || not s') ≡ true
    → choose
        (record { copy_completed = c; sealed = true })
        (record { copy_completed = c'; sealed = s' })
        m1
        m2
      ≡ fs1
unfolding choose
choose-first c true s' m1 m2 h = absurd (ground (arith, h))
choose-first true false true m1 m2 h = refl
choose-first true false false m1 m2 h = refl
choose-first false false false m1 m2 h = refl
choose-first false false true m1 m2 h = absurd (ground (arith, h))

choose-second :
    (c c' s' : Bool) (m1 m2 : ℕ)
    → not c' && (c || not s') ≡ true
    → choose
        (record { copy_completed = c'; sealed = s' })
        (record { copy_completed = c; sealed = true })
        m1
        m2
      ≡ fs2
unfolding choose
choose-second c true s' m1 m2 h = absurd (ground (arith, h))
choose-second true false true m1 m2 h = refl
choose-second true false false m1 m2 h = refl
choose-second false false false m1 m2 h = refl
choose-second false false true m1 m2 h = absurd (ground (arith, h))

choose-completed_second :
    (c : Bool) (m1 m2 : ℕ)
    → choose (record { copy_completed = c; sealed = true }) complete m1 m2 ≡ fs2
unfolding choose
choose-completed_second true m1 m2 = refl
choose-completed_second false m1 m2 = refl

choose-completed_first :
    (c : Bool) (m1 m2 : ℕ)
    → choose complete (record { copy_completed = c; sealed = true }) m1 m2 ≡ fs1
unfolding choose
choose-completed_first c m1 m2 = refl

-- The memories with the given active filesystem.
abbrev pub disks_of : Side → Marks → Option Marks → Disks
disks_of fs1 active inactive = record { on1 = some active; on2 = inactive }
disks_of fs2 active inactive = record { on1 = inactive; on2 = some active }

with_inactive-disks_of :
    (side : Side) (active : Marks) (inactive marks : Option Marks)
    → with_inactive side marks (disks_of side active inactive) ≡ disks_of side active marks
with_inactive-disks_of fs1 active inactive marks = refl
with_inactive-disks_of fs2 active inactive marks = refl

with_active-disks_of :
    (side : Side) (active : Marks) (inactive : Option Marks)
    → with_active side seal (disks_of side active inactive) ≡ disks_of side (seal active) inactive
with_active-disks_of fs1 active inactive = refl
with_active-disks_of fs2 active inactive = refl

abbrev pub Every : (Point → Disks → Type 0) → List (Point × Disks) → Type 0
Every P [] = Unit {0}
Every P ((point, disks) ∷ rest) = P point disks × Every P rest

module _ (m1 m2 : ℕ) where
  abbrev pub Finds : Side → Point → Disks → Type 0
  Finds side started disks = Unit {0}
  Finds side sealed_active disks = init_fs disks m1 m2 ≡ side
  Finds side erased disks = init_fs disks m1 m2 ≡ side
  Finds side created disks = init_fs disks m1 m2 ≡ side
  Finds side completed disks = init_fs disks m1 m2 ≡ other side

  sealed_Finds :
      (side : Side) (active : Marks) (inactive : Option Marks)
      → is_left_behind active inactive ≡ true
      → init_fs (disks_of side (seal active) inactive) m1 m2 ≡ side
  unfolding init_fs
  sealed_Finds fs1 active none h = refl
  sealed_Finds fs2 active none h = refl
  sealed_Finds fs1 active (some marks) h =
      choose-first active.copy_completed marks.copy_completed marks.sealed m1 m2 h
  sealed_Finds fs2 active (some marks) h =
      choose-second active.copy_completed marks.copy_completed marks.sealed m1 m2 h

  completed_Finds :
      (side : Side) (active : Marks)
      → init_fs (disks_of side (seal active) (some complete)) m1 m2 ≡ other side
  unfolding init_fs
  completed_Finds fs1 active = choose-completed_second active.copy_completed m1 m2
  completed_Finds fs2 active = choose-completed_first active.copy_completed m1 m2

  unmarked_left : (active : Marks) → is_left_behind active (some unmarked) ≡ true
  unmarked_left active = ||-true active.copy_completed

  copied_Finds :
      (works : Works) (side : Side) (active : Marks)
      → Every
          (Finds side)
          (cleanup_copied works side (disks_of side (seal active) (some unmarked))).stages
  unfolding cleanup_copied
  copied_Finds works side active = elim (Bool-cases (works.copies && works.opens_completed)) [
    | inr e ↦ rw e tt
    | inl e ↦ elim (Bool-cases works.flushes_completed) [
      | inr f ↦ rw (e, f) tt
      | inl f ↦
          rw (e, f, with_inactive-disks_of side (seal active) (some unmarked) (some complete))
            (completed_Finds side active, tt)
    ]
  ]

  created_Finds :
      (works : Works) (side : Side) (active : Marks) (inactive : Option Marks)
      → Every
          (Finds side)
          (cleanup_created works side (disks_of side (seal active) inactive)).stages
  unfolding cleanup_created
  created_Finds works side active inactive =
      rw (with_inactive-disks_of side (seal active) inactive none) (
        sealed_Finds side active none refl,
        elim (Bool-cases works.creates) [
          | inr e ↦ rw e tt
          | inl e ↦
              rw (e, with_inactive-disks_of side (seal active) inactive (some unmarked))
                (
                  sealed_Finds side active (some unmarked) (unmarked_left active),
                  copied_Finds works side active,
                )
        ],
      )

  -- Where `cleanup` is cut off behind the seal or any later change of a memory, or fails there, the
  -- next `init_fs` goes on with the filesystem that has the files, whatever the inode numbers: the
  -- active one until the copy is marked as complete, then the other one. The conditions: the flush
  -- that writes the seal works; and before the `cleanup` the other memory had no valid filesystem, or
  -- one that is not marked as the target of a completed copy and that is sealed only if the active
  -- one is so marked, as before the first two cleanups.
  pub cleanup_lem :
      (works : Works) (side : Side) (active : Marks) (inactive : Option Marks)
      → works.flushes_seal ≡ true
      → is_left_behind active inactive ≡ true
      → Every (Finds side) (cleanup works side (disks_of side active inactive)).stages
  unfolding cleanup
  cleanup_lem works side active inactive f h = (
    tt,
    elim (Bool-cases works.opens_seal) [
      | inr e ↦ rw e tt
      | inl e ↦
          rw (e, f, with_active-disks_of side active inactive)
            (sealed_Finds side active inactive h, created_Finds works side active inactive)
    ],
  )
