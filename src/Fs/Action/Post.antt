-- ===== src/Fs/Action/Post.antt =====
-- What an action leaves, as a condition on its outcome: one where it goes on, one where it quits. An
-- outcome that meets them is no fault.
use simpleflashfs.Prelude.{if◌then◌else◌, Bool, true, false, ◌≡◌, refl}
use simpleflashfs.Fs.Types.{File, Fs}
use simpleflashfs.Fs.Action.{Outcome, done, quit, fault, Action, continue, settle}

module _ {S A : Type 0} where
  abbrev pub Post : (A → File → Fs S → Type 0) → (File → Fs S → Type 0) → Outcome S A → Type 0
  Post Q E (done a file fs) = Q a file fs
  Post Q E (quit file fs) = E file fs
  Post Q E fault = ⊥

pub record Meets {S A : Type 0} (Q : A → File → Fs S → Type 0) (E : File → Fs S → Type 0)
    (o : Outcome S A) : Type 0 where
  pub holds : Post Q E o

module _ {S A B : Type 0} where
  chain-Post :
      (Q : A → File → Fs S → Type 0) (R : B → File → Fs S → Type 0) (E : File → Fs S → Type 0)
      (m : Outcome S A) (f : A → Action S B)
      → Post Q E m
      → ((a : A) (file : File) (fs : Fs S) → Q a file fs → Meets R E (f a file fs))
      → Post R E (continue m f)
  chain-Post Q R E (done a file fs) f p h = (h a file fs p).holds
  chain-Post Q R E (quit file fs) f p h = p
  chain-Post Q R E fault f p h = p

  pub chain :
      {Q : A → File → Fs S → Type 0} {R : B → File → Fs S → Type 0} {E : File → Fs S → Type 0}
      {m : Outcome S A} {f : A → Action S B}
      → Meets Q E m
      → ((a : A) (file : File) (fs : Fs S) → Q a file fs → Meets R E (f a file fs))
      → Meets R E (continue m f)
  chain {Q} {R} {E} {m} {f} p h = record { holds = chain-Post Q R E m f p.holds h }

module _ {S A : Type 0} where
  weaken-Post :
      (Q R : A → File → Fs S → Type 0) (E : File → Fs S → Type 0) (o : Outcome S A)
      → Post Q E o
      → ((a : A) (file : File) (fs : Fs S) → Q a file fs → R a file fs)
      → Post R E o
  weaken-Post Q R E (done a file fs) p h = h a file fs p
  weaken-Post Q R E (quit file fs) p h = p
  weaken-Post Q R E fault p h = p

  pub weaken :
      {Q R : A → File → Fs S → Type 0} {E : File → Fs S → Type 0} {o : Outcome S A}
      → Meets Q E o
      → ((a : A) (file : File) (fs : Fs S) → Q a file fs → R a file fs)
      → Meets R E o
  weaken {Q} {R} {E} {o} p h = record { holds = weaken-Post Q R E o p.holds h }

  pub meets :
      {Q : A → File → Fs S → Type 0} {E : File → Fs S → Type 0} {o : Outcome S A}
      → Post Q E o
      → Meets Q E o
  meets p = record { holds = p }

  pub branch :
      {Q : A → File → Fs S → Type 0} {E : File → Fs S → Type 0} (b : Bool) (m n : Action S A)
      (file : File) (fs : Fs S)
      → (b ≡ true → Meets Q E (m file fs))
      → (b ≡ false → Meets Q E (n file fs))
      → Meets Q E ((if b then m else n) file fs)
  branch true m n file fs p q = p refl
  branch false m n file fs p q = q refl

  sure-Post :
      (Q : A → File → Fs S → Type 0) (E : File → Fs S → Type 0) (o : Outcome S A)
      → Post Q (λ file fs. ⊥) o
      → Post Q E o
  sure-Post Q E (done a file fs) p = p
  sure-Post Q E (quit file fs) p = absurd p
  sure-Post Q E fault p = p

  -- What never quits.
  pub sure :
      {Q : A → File → Fs S → Type 0} {E : File → Fs S → Type 0} {o : Outcome S A}
      → Meets Q (λ file fs. ⊥) o
      → Meets Q E o
  sure {Q} {E} {o} p = record { holds = sure-Post Q E o p.holds }

module _ {S : Type 0} where
  tried-Post :
      (P : File → Fs S → Type 0) (E : File → Fs S → Type 0) (o : Outcome S (Unit {0}))
      → Post (λ a. P) (λ file fs. ⊥) o
      → Post (λ b. P) E (settle o)
  tried-Post P E (done a file fs) p = p
  tried-Post P E (quit file fs) p = absurd p
  tried-Post P E fault p = p

  pub tried :
      {P : File → Fs S → Type 0} {E : File → Fs S → Type 0} {o : Outcome S (Unit {0})}
      → Meets (λ a. P) (λ file fs. ⊥) o
      → Meets (λ b. P) E (settle o)
  tried {P} {E} {o} p = record { holds = tried-Post P E o p.holds }
