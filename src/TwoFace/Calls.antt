-- ===== src/TwoFace/Calls.antt =====
-- Sequences of calls of src_2face/H7TwoFace.cc.
use simpleflashfs.Prelude.{ℕ, ◌≡◌, refl, ap, subst, Bool, true, Option, none, some, List, [], ◌∷◌}
use simpleflashfs.TwoFace.{
  Mode, TwoPages, Global, open_file, list_files, get_stat, recreate, close, set_memory_interface,
  locked, lock, emplace,
}
use simpleflashfs.TwoFace.Lock.{
  IsBalanced, Ends, IsFree, open_file_lem, list_files_lem, get_stat_lem, recreate_lem, close_lem,
}

pub data Call (M : Type 0) : Type 0 where
  setting : M → Call M
  opening : List ℕ → Mode → Call M
  listing getting_stat recreating closing : Call M

module _ {M W F H : Type 0} where
  abbrev pub ended : {A : Type 0} → Option A × Global M W F H → Option Bool × Global M W F H
  ended r = (elim r.0 [ none ↦ none | some a ↦ some true ], r.1)

module _ {M W F H : Type 0} (fs2 : TwoPages M W F H) where
  -- The calls that the program gives its users; `close` is the end of a file's handle.
  abbrev pub call : Call M → Global M W F H → Option Bool × Global M W F H
  call (setting mem) g = (some true, set_memory_interface mem g)
  call (opening name mode) g = open_file fs2 name mode g
  call listing g = ended (list_files fs2 g)
  call getting_stat g = ended (get_stat fs2 g)
  call recreating g = recreate fs2 g
  call closing g = (some true, close fs2 g)

  -- Calls one after the other, as far as none throws.
  unfoldable pub run : List (Call M) → Global M W F H → Option (Global M W F H)
  run [] g = some g
  run (c ∷ calls) g = elim (call c g).0 [ none ↦ none | some b ↦ run calls (call c g).1 ]

  free-IsBalanced : (g : Global M W F H) → IsFree fs2 g → IsBalanced g
  free-IsBalanced g free = rw (free.1) (free.0)

  ended-Ends : {A : Type 0} (r : Option A × Global M W F H) → Ends r → Ends (ended r)
  ended-Ends (none, g) h = h
  ended-Ends (some a, g) h = h

  -- Each call of H7TwoFace, from a state where the lock is held once if there is an instance, which
  -- then has a file, and else given back: the call leaves such a state, or throws, which leaves the
  -- lock held once more than given back, without an instance.
  pub call_lem : (c : Call M) (g : Global M W F H) → IsBalanced g → Ends (call c g)
  unfolding set_memory_interface
  call_lem (setting mem) g h = h
  call_lem (opening name mode) g h = open_file_lem fs2 name mode g h
  call_lem listing g h = ended-Ends (list_files fs2 g) (list_files_lem fs2 g h)
  call_lem getting_stat g h = ended-Ends (get_stat fs2 g) (get_stat_lem fs2 g h)
  call_lem recreating g h = recreate_lem fs2 g h
  call_lem closing g h = free-IsBalanced (close fs2 g) (close_lem fs2 g h)

  cast : {g g' : Global M W F H} → some g ≡ some g' → IsBalanced g → IsBalanced g'
  cast {g} {g'} e h = subst IsBalanced (ap (λ o. elim o [ none ↦ g | some x ↦ x ]) e) h

  none_some : {A : Type 0} {g : Global M W F H} → none ≡ some g → A
  none_some e = cc

  run_rest :
      (r : Option Bool × Global M W F H) (calls : List (Call M)) (g' : Global M W F H)
      → ((g : Global M W F H) → IsBalanced g → run calls g ≡ some g' → IsBalanced g')
      → Ends r
      → (elim (r.0) [ none ↦ none | some b ↦ run calls r.1 ]) ≡ some g'
      → IsBalanced g'
  run_rest (none, g) calls g' later h e = none_some e
  run_rest (some b, g) calls g' later h e = later g h e

  pub run-IsBalanced :
      (calls : List (Call M)) (g g' : Global M W F H)
      → IsBalanced g
      → run calls g ≡ some g'
      → IsBalanced g'
  unfolding run
  run-IsBalanced [] g g' h e = cast e h
  run-IsBalanced (c ∷ calls) g g' h e =
      run_rest (call c g) calls g' (λ g1 h1 e1. run-IsBalanced calls g1 g' h1 e1) (call_lem c g h) e

  -- Calls that do not throw, from a state where the lock is held once if there is an instance, which
  -- then has a file, and else given back. Once the file that they leave open, if any, is closed, the
  -- lock is given back and there is no instance. Where the memories then make a filesystem that init
  -- accepts, the next list_files gives the names of its files.
  pub run-close :
      (calls : List (Call M)) (g g' : Global M W F H) (mem : M)
      → IsBalanced g
      → run calls g ≡ some g'
      → (close fs2 g').fs_mem ≡ some mem
      → (fs2.init (fs2.made mem (close fs2 g').memories)).1 ≡ true
      → IsFree fs2 (close fs2 g')
        × ((list_files fs2 (close fs2 g')).0
            ≡ some (fs2.file_names (fs2.init (fs2.made mem (close fs2 g').memories)).0))
  unfolding list_files locked lock emplace
  run-close calls g g' mem h e has_mem valid =
      let free : IsFree fs2 (close fs2 g') = close_lem fs2 g' (run-IsBalanced calls g g' h e) in
      (free, rw (free.1, has_mem, locked, lock, emplace, valid) refl)
