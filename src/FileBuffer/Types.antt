-- ===== src/FileBuffer/Types.antt =====
-- The data of src_2face/SimpleFlashFsFileBuffer.h: FileInterface of src/SimpleFlashFsFileInterface.h,
-- the members of FileBuffer, and methods as actions on them. Bytes are numbers.
use simpleflashfs.Prelude.{ℕ, Bool, Option, none, some, List, if◌then◌else◌}

-- What a `FileInterface` does, on files of type S. `read` gives the bytes that it read, `write` the
-- count that it wrote.
pub record FileInterface (S : Type 0) : Type 0 where
  pub not_valid : S → Bool
  pub write : S → List ℕ → S × ℕ
  pub read : S → ℕ → S × List ℕ
  pub flush : S → S × Bool
  pub tellg : S → ℕ
  pub file_size : S → ℕ
  pub eof : S → Bool
  pub seek : S → ℕ → S × Bool
  pub delete_file : S → S × Bool
  pub rename_file : S → List ℕ → S × Bool
  pub truncate : S → ℕ → S × Bool
  pub get_file_name : S → List ℕ
  pub is_append_mode : S → Bool

-- `current_buffer` always starts where `buffer` does: `current` is its size.
pub record FileBuffer (S : Type 0) : Type 0 where
  pub file : S
  pub buffer : List ℕ
  pub current : ℕ
  pub current_buffer_start : ℕ
  pub pos : ℕ
  pub current_buffer_modified : Bool

-- A method: its result and the members behind it, or none for an exception or an access outside of
-- the buffer.
abbrev pub Method : Type 0 → Type 0 → Type 0
Method S A = FileBuffer S → Option (A × FileBuffer S)

module _ {S : Type 0} where
  abbrev pub return : {A : Type 0} → A → Method S A
  return a b = some (a, b)

  infixl 5 ◌>>=◌ ◌>>◌
  abbrev pub ◌>>=◌ : {A B : Type 0} → Method S A → (A → Method S B) → Method S B
  ◌>>=◌ m f b = elim (m b) [ none ↦ none | some (a, b') ↦ f a b' ]

  abbrev pub ◌>>◌ : {A B : Type 0} → Method S A → Method S B → Method S B
  m >> k = m >>= λ _. k

  -- An exception.
  abbrev pub throw : {A : Type 0} → Method S A
  throw b = none

  -- The rest of a method with an early `return result` where a step fails.
  abbrev pub unless_failed : {A : Type 0} → Method S Bool → A → Method S A → Method S A
  unless_failed step result rest = step >>= λ ok. if ok then rest else return result

  -- A const method.
  abbrev pub ask : {A : Type 0} → (FileBuffer S → A) → Method S A
  ask f b = some (f b, b)

  abbrev pub change : (FileBuffer S → FileBuffer S) → Method S (Unit {0})
  change f b = some (tt, f b)

  -- A call of `file`.
  abbrev pub on_file : {A : Type 0} → (S → S × A) → Method S A
  on_file f b = let r = f b.file in some (r.1, record b { file = r.0 })
