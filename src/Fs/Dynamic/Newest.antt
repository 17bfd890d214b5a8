-- ===== src/Fs/Dynamic/Newest.antt =====
-- The clearing of old versions in src/dynamic/SimpleFlashFsDynamic.cc.
use simpleflashfs.Prelude.{
  ℕ, ◌≤◌, ◌≡◌, refl, ◌∙◌, inl, inr, max, arith, false, some, List, [], ◌∷◌, leb, Bool-cases, ◌⊎◌,
  ◌<◌, suc, length,
}
use simpleflashfs.Fs.Types.{Config, Fs, File}
use simpleflashfs.Fs.Flush.{flush, clean_up}
use simpleflashfs.Fs.Versions.{destroy}
use simpleflashfs.Fs.Dynamic.{place_version, sort_versions, drop_old, drop_sorted}

abbrev version : File → ℕ
version file = file.inode.inode_version_number

abbrev pub highest : List File → ℕ
highest [] = 0
highest (f ∷ files) = max (version f) (highest files)

-- Versions that do not fall, none of them below lo.
abbrev Rising : ℕ → List File → Type 0
Rising lo [] = Unit {0}
Rising lo (f ∷ files) = (lo ≤ version f) × Rising (version f) files

Rising-place :
    (lo : ℕ) (f : File) (files : List File)
    → lo ≤ version f
    → Rising lo files
    → Rising lo (place_version f files)
unfolding place_version
Rising-place lo f [] h r = (h, tt)
Rising-place lo f (g ∷ files) h (low, r) = elim (Bool-cases (leb (version f) (version g))) [
  | inl e ↦ rw e (h, (ground arith, r))
  | inr e ↦ rw e (low, Rising-place (version g) f files (ground arith) r)
]

Rising-sort : (files : List File) → Rising 0 (sort_versions files)
unfolding sort_versions
Rising-sort [] = tt
Rising-sort (f ∷ files) = Rising-place 0 f (sort_versions files) (omega arith) (Rising-sort files)

highest-place :
    (f : File) (files : List File)
    → highest (place_version f files) ≡ max (version f) (highest files)
unfolding place_version
highest-place f [] = refl
highest-place f (g ∷ files) = elim (Bool-cases (leb (version f) (version g))) [
  | inl e ↦ rw e refl
  | inr e ↦ rw (e, highest-place f files) (omega arith)
]

highest-sort : (files : List File) → highest (sort_versions files) ≡ highest files
unfolding sort_versions
highest-sort [] = refl
highest-sort (f ∷ files) = rw (highest-place f (sort_versions files), highest-sort files) refl

abbrev pub Among : File → List File → Type 0
Among x [] = ⊥
Among x (f ∷ files) = (x ≡ f) ⊎ Among x files

swap : (x f g : File) (files : List File) → Among x (g ∷ f ∷ files) → Among x (f ∷ g ∷ files)
swap x f g files (inl e) = inr (inl e)
swap x f g files (inr (inl e)) = inl e
swap x f g files (inr (inr a)) = inr (inr a)

Among-map :
    (x g : File) (xs ys : List File)
    → (Among x xs → Among x ys)
    → Among x (g ∷ xs)
    → Among x (g ∷ ys)
Among-map x g xs ys h (inl e) = inl e
Among-map x g xs ys h (inr a) = inr (h a)

Among-place :
    (x f : File) (files : List File) → Among x (place_version f files) → Among x (f ∷ files)
unfolding place_version
Among-place x f [] a = a
Among-place x f (g ∷ files) a = elim (Bool-cases (leb (version f) (version g))) [
  | inl e ↦ rw e at a
  | inr e ↦
      swap x f g files
        (Among-map x g (place_version f files) (f ∷ files) (Among-place x f files) (rw e at a))
]

Among-sort : (x : File) (files : List File) → Among x (sort_versions files) → Among x files
unfolding sort_versions
Among-sort x [] a = a
Among-sort x (f ∷ files) a =
    Among-map x f (sort_versions files) files (Among-sort x files)
      (Among-place x f (sort_versions files) a)

length-place : (f : File) (files : List File) → length (place_version f files) ≡ suc (length files)
unfolding place_version
length-place f [] = refl
length-place f (g ∷ files) = ground (arith, length-place f files)

length-sort : (files : List File) → length (sort_versions files) ≡ length files
unfolding sort_versions
length-sort [] = refl
length-sort (f ∷ files) = rw (length-place f (sort_versions files), length-sort files) refl

module _ {S : Type 0} (config : Config S) where
  -- A handle that has not changed is destroyed without a fault.
  destroy-unchanged :
      (f : File) (fs : Fs S) → f.modified ≡ false → (fs' : Fs S) × (destroy config f fs ≡ some fs')
  unfolding destroy flush
  destroy-unchanged f fs h = elim (Bool-cases f.connected) [
    | inl e ↦ rw (e, h) (_, refl)
    | inr e ↦ rw e (_, refl)
  ]

  drop_old_lem :
      (f : File) (files : List File) (fs : Fs S)
      → Rising (version f) files
      → (newest : File) × (fs' : Fs S) × (drop_old config f files fs ≡ some (newest, fs'))
        × (version newest ≡ highest (f ∷ files))
        × Among newest (f ∷ files)
  unfolding drop_old
  drop_old_lem f [] fs r = (f, fs, refl, omega arith, inl refl)
  drop_old_lem f (next ∷ files) fs (low, r) =
      let (fs1, e) =
        destroy-unchanged (record f { modified = false }) (clean_up config f next fs) refl in
      let (newest, fs2, e2, top, a) = drop_old_lem next files fs1 r in
      (newest, fs2, rw (e, e2) refl, top ∙ omega arith, inr a)

  drop_sorted_lem :
      (files : List File) (first : File) (fs : Fs S)
      → Rising 0 files
      → (0 < length files)
      → (newest : File) × (fs' : Fs S) × (drop_sorted config files first fs ≡ some (newest, fs'))
        × (version newest ≡ highest files)
        × Among newest files
  unfolding drop_sorted
  drop_sorted_lem [] first fs r h = absurd (omega arith)
  drop_sorted_lem (f ∷ files) first fs (low, r) h = drop_old_lem f files fs r

  -- Where the scan clears the old versions of an inode that has the handles `first` and `others`, no
  -- step faults, and the handle that is left is one of them, with the highest version.
  pub drop_sorted-sort :
      (first : File) (others : List File) (fs : Fs S)
      → (newest : File) × (fs' : Fs S) × (drop_sorted config
            (sort_versions (first ∷ others))
            first
            fs
          ≡ some (newest, fs'))
        × (version newest ≡ highest (first ∷ others))
        × Among newest (first ∷ others)
  drop_sorted-sort first others fs =
      let files = first ∷ others in
      let (newest, fs', e, top, a) =
        drop_sorted_lem (sort_versions files) first fs (Rising-sort files)
          (omega (arith, length-sort files)) in
      (newest, fs', e, top ∙ highest-sort files, Among-sort newest files a)
