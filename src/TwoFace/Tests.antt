-- ===== src/TwoFace/Tests.antt =====
-- Runs of src_2face/H7TwoFace.cc on two memories that are the names of their files, with a
-- pointer to one of them.
use simpleflashfs.Prelude.{
  ℕ, ◌≡◌, refl, Bool, true, false, none, some, List, if◌then◌else◌, [], ◌∷◌,
}
use simpleflashfs.Fs.Types.{empty_header}
use simpleflashfs.Fs.NoDel.{no_stat}
use simpleflashfs.TwoFace.{
  Mode, TwoPages, Global, is_among, is_in, has_inode, open_locked, lock, unlock, reset, emplace,
  locked, open_file, list_files, close, set_memory_interface,
}
use simpleflashfs.TwoFace.Lock.{Ends, IsFree}
use simpleflashfs.TwoFace.Calls.{Call, opening, setting, call, run, call_lem, run-close}

abbrev Memories : Type 0
Memories = List (List ℕ) × List (List ℕ)

abbrev names_of : Bool × Memories → List (List ℕ)
names_of fs = if fs.0 then fs.1.0 else fs.1.1

abbrev added : List ℕ → Bool × Memories → Bool × Memories
added name (true, w) = (true, (name ∷ w.0, w.1))
added name (false, w) = (false, (w.0, name ∷ w.1))

abbrev names : TwoPages Bool Memories (Bool × Memories) Bool
names = record {
  made = λ mem w. (mem, w);
  left = λ fs. fs.1;
  init = λ fs. (fs, true);
  recreate = λ fs. (fs, true);
  open_handle = λ fs name mode. (added name fs, true);
  valid = λ handle. handle;
  closed = λ fs handle. fs;
  get_stat = λ fs. record no_stat { free_inodes = 9 };
  get_header = λ fs. empty_header;
  get_number_of_free_data_pages = λ fs. 5;
  file_names = names_of;
}

abbrev out : Mode
out = record {
  input = false;
  binary = false;
  rest = record { out = true; app = false; trunc = false; ate = false };
}

abbrev one_file : List (List ℕ)
one_file = (b'a' ∷ []) ∷ []

abbrev other_file : List (List ℕ)
other_file = (b'c' ∷ []) ∷ []

abbrev two_files : List (List ℕ)
two_files = (b'b' ∷ []) ∷ one_file

abbrev idle : Global Bool Memories (Bool × Memories) Bool
idle = record {
  fs_mem = some true;
  memories = (one_file, other_file);
  fs_impl = none;
  locks = 2;
  unlocks = 2;
}

-- A file of the first memory is open, and the second one was set.
abbrev busy : Global Bool Memories (Bool × Memories) Bool
busy = record {
  fs_mem = some false;
  memories = (one_file, other_file);
  fs_impl = some (record { fs = (true, (two_files, other_file)); file = some true });
  locks = 3;
  unlocks = 2;
}

abbrev open_and_set : List (Call Bool)
open_and_set = opening (b'b' ∷ []) out ∷ setting false ∷ []

run_busy : run names open_and_set idle ≡ some busy
unfolding run open_file is_among locked open_locked has_inode is_in lock emplace
    set_memory_interface
run_busy = refl

list_refused : (list_files names busy).0 ≡ some []
unfolding list_files locked lock unlock
list_refused = refl

call_lem_example : Ends (call names (opening (b'b' ∷ []) out) idle)
call_lem_example = call_lem names (opening (b'b' ∷ []) out) idle refl

first_kept : (close names busy).memories ≡ (two_files, other_file)
unfolding close reset unlock
first_kept = refl

close_busy : (close names busy).fs_mem ≡ some false
unfolding close reset unlock
close_busy = refl

run-close_example :
    IsFree names (close names busy)
    × ((list_files names (close names busy)).0
        ≡ some (names_of (false, (close names busy).memories)))
run-close_example = run-close names open_and_set idle busy false refl run_busy close_busy refl
