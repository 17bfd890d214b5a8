-- ===== src/Fs/TwoPages/Tests.antt =====
-- Runs of Fs.TwoPages.
use simpleflashfs.Prelude.{◌≡◌, true, false, refl, some, none, [], ◌∷◌}
use simpleflashfs.Fs.TwoPages.{
  fs1, fs2, Marks, Works, init_fs, choose, unmarked, sealed_active, with_active, seal, started,
  erased, created, completed, cleanup, cleanup_created, cleanup_copied,
}
use simpleflashfs.Fs.TwoPages.Recovery.{Every, Finds, disks_of, cleanup_lem}

abbrev all_work : Works
all_work = record {
  opens_seal = true;
  flushes_seal = true;
  creates = true;
  copies = true;
  opens_completed = true;
  flushes_completed = true;
}

abbrev sealed_only : Marks
sealed_only = record { copy_completed = false; sealed = true }

abbrev completed_only : Marks
completed_only = record { copy_completed = true; sealed = false }

abbrev both : Marks
both = record { copy_completed = true; sealed = true }

-- The second cleanup, and what its memories pass through.
cleanup_lem_example :
    Every
      (Finds 7 9 fs2)
      (cleanup all_work fs2 (disks_of fs2 completed_only (some sealed_only))).stages
cleanup_lem_example = cleanup_lem 7 9 all_work fs2 completed_only (some sealed_only) refl refl

second_cleanup :
    (cleanup all_work fs2 (disks_of fs2 completed_only (some sealed_only))).stages
    ≡ (started, disks_of fs2 completed_only (some sealed_only))
      ∷ (sealed_active, disks_of fs2 both (some sealed_only))
      ∷ (erased, disks_of fs2 both none)
      ∷ (created, disks_of fs2 both (some unmarked))
      ∷ (completed, disks_of fs2 both (some completed_only))
      ∷ []
unfolding cleanup cleanup_created cleanup_copied
second_cleanup = refl

-- The fourth one, where both filesystems have been targets: cut off behind the seal, `init_fs` goes on
-- with the other filesystem, which was left behind by the third one.
fourth_cleanup : init_fs (with_active fs2 seal (disks_of fs2 completed_only (some both))) 7 9 ≡ fs1
unfolding init_fs choose
fourth_cleanup = refl

-- Where the last flush fails, the result is true, and `init_fs` goes on with the old filesystem.
unmarked_copy :
    (cleanup
      (record all_work { flushes_completed = false })
      fs1
      (disks_of fs1 unmarked none)).result
    ≡ true
unfolding cleanup cleanup_created cleanup_copied
unmarked_copy = refl
