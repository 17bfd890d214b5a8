-- ===== src/Fs/Action/Keeps.antt =====
-- What an action keeps, whether it goes on or quits; a fault keeps everything.
use simpleflashfs.Prelude.{Bool, true, false, if◌then◌else◌, Option, none, some, ◌≡◌, refl}
use simpleflashfs.Fs.Types.{File, Fs}
use simpleflashfs.Fs.Action.{Outcome, done, quit, fault, Action, continue, lift}
use simpleflashfs.Fs.Action.Post.{Post, Meets}

module _ {S A : Type 0} where
  abbrev pub Kept : (A → File → Fs S → Type 0) → (File → Fs S → Type 0) → Outcome S A → Type 0
  Kept Q I (done a file fs) = Q a file fs
  Kept Q I (quit file fs) = I file fs
  Kept Q I fault = Unit {0}

-- Q where it goes on, I where it quits.
pub record Keeps {S A : Type 0} (Q : A → File → Fs S → Type 0) (I : File → Fs S → Type 0)
    (o : Outcome S A) : Type 0 where
  pub holds : Kept Q I o

module _ {S A B : Type 0} where
  follow-Kept :
      (Q : A → File → Fs S → Type 0) (R : B → File → Fs S → Type 0) (I : File → Fs S → Type 0)
      (o : Outcome S A) (f : A → Action S B)
      → Kept Q I o
      → ((a : A) (file : File) (fs : Fs S) → Q a file fs → Keeps R I (f a file fs))
      → Kept R I (continue o f)
  follow-Kept Q R I (done a file fs) f p h = (h a file fs p).holds
  follow-Kept Q R I (quit file fs) f p h = p
  follow-Kept Q R I fault f p h = p

  pub follow :
      {Q : A → File → Fs S → Type 0} {R : B → File → Fs S → Type 0} {I : File → Fs S → Type 0}
      {o : Outcome S A} {f : A → Action S B}
      → Keeps Q I o
      → ((a : A) (file : File) (fs : Fs S) → Q a file fs → Keeps R I (f a file fs))
      → Keeps R I (continue o f)
  follow {Q} {R} {I} {o} {f} p h = record { holds = follow-Kept Q R I o f p.holds h }

module _ {S A : Type 0} where
  pub keeps :
      {Q : A → File → Fs S → Type 0} {I : File → Fs S → Type 0} {o : Outcome S A}
      → Kept Q I o
      → Keeps Q I o
  keeps p = record { holds = p }

  pub either :
      {Q : A → File → Fs S → Type 0} {I : File → Fs S → Type 0} (b : Bool) (m n : Action S A)
      (file : File) (fs : Fs S)
      → (b ≡ true → Keeps Q I (m file fs))
      → (b ≡ false → Keeps Q I (n file fs))
      → Keeps Q I ((if b then m else n) file fs)
  either true m n file fs p q = p refl
  either false m n file fs p q = q refl

  lift-Kept :
      (I : File → Fs S → Type 0) (o : Option A) (file : File) (fs : Fs S)
      → I file fs
      → Kept (λ a file' fs'. (o ≡ some a) × (file' ≡ file) × (fs' ≡ fs)) I (lift o file fs)
  lift-Kept I none file fs i = tt
  lift-Kept I (some a) file fs i = (refl, refl, refl)

  pub lifted :
      {I : File → Fs S → Type 0} (o : Option A) (file : File) (fs : Fs S)
      → I file fs
      → Keeps (λ a file' fs'. (o ≡ some a) × (file' ≡ file) × (fs' ≡ fs)) I (lift o file fs)
  lifted {I} o file fs i = record { holds = lift-Kept I o file fs i }

module _ {S A : Type 0} where
  joined-Post :
      (Q R : A → File → Fs S → Type 0) (E I : File → Fs S → Type 0) (o : Outcome S A)
      → Post Q E o
      → Kept R I o
      → Post (λ a file fs. Q a file fs × R a file fs) (λ file fs. E file fs × I file fs) o
  joined-Post Q R E I (done a file fs) p k = (p, k)
  joined-Post Q R E I (quit file fs) p k = (p, k)
  joined-Post Q R E I fault p k = p

  -- What an action leaves without a fault, and what it keeps.
  pub joined :
      {Q R : A → File → Fs S → Type 0} {E I : File → Fs S → Type 0} {o : Outcome S A}
      → Meets Q E o
      → Keeps R I o
      → Meets (λ a file fs. Q a file fs × R a file fs) (λ file fs. E file fs × I file fs) o
  joined {Q} {R} {E} {I} {o} p k = record { holds = joined-Post Q R E I o p.holds k.holds }
