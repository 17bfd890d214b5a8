-- ===== src/FileBuffer/Files.antt =====
-- What a FileInterface promises to src_2face/SimpleFlashFsFileBuffer.cc: a file is its bytes and a
-- position in them.
use simpleflashfs.Prelude.{
  ℕ, ◌+◌, ◌-◌, ◌≤◌, ◌≡◌, true, false, List, length, take, drop, length-take, length-drop, [], ◌∷◌,
  zero, suc, min, ap, refl, arith,
}
use simpleflashfs.FileBuffer.Types.{FileInterface}
use simpleflashfs.FileBuffer.{copied}

abbrev pub rest_of : List ℕ → ℕ → ℕ → List ℕ
rest_of content from n = take n (drop from content)

pub length-rest_of :
    (content : List ℕ) (from m : ℕ)
    → from + m ≤ length content
    → length (rest_of content from m) ≡ m
length-rest_of content from m h =
    omega (arith, length-take m (drop from content), length-drop from content)

pub length-part :
    (content : List ℕ) (from n : ℕ)
    → length (rest_of content from n) ≡ min n (length content - from)
length-part content from n =
    omega (arith, length-take n (drop from content), length-drop from content)

pub take-min : (n : ℕ) (xs : List ℕ) → take (min n (length xs)) xs ≡ take n xs
take-min zero xs = let e : min 0 (length xs) ≡ 0 = omega arith in rw e refl
take-min (suc n) [] = let e : min (suc n) 0 ≡ 0 = omega arith in rw e refl
take-min (suc n) (x ∷ xs) =
    let e : min (suc n) (suc (length xs)) ≡ suc (min n (length xs)) = omega arith in
    rw e (ap (◌∷◌ x) (take-min n xs))

-- `read` reads what there is, and a write that writes all has written it at the position, where it
-- is not in append mode. Nothing is said of a write that fails. eof may hold
-- one byte early, as that of FileHandle in src/base/SimpleFlashFsBase.h does, and need not hold behind
-- the last byte, where that of FileHandle does not.
pub record IsFile {S : Type 0} (io : FileInterface S) : Type 0 where
  pub content : S → List ℕ
  pub file_size_lem : (f : S) → io.file_size f ≡ length (content f)
  pub eof_lem : (f : S) → io.eof f ≡ true → length (content f) ≤ io.tellg f + 1
  pub seek_true : (f : S) (p : ℕ) → p ≤ length (content f) → (io.seek f p).1 ≡ true
  pub tellg-seek : (f : S) (p : ℕ) → p ≤ length (content f) → io.tellg (io.seek f p).0 ≡ p
  pub content-seek : (f : S) (p : ℕ) → p ≤ length (content f) → content (io.seek f p).0 ≡ content f
  pub read_bytes :
      (f : S) (n : ℕ)
      → io.tellg f ≤ length (content f)
      → (io.read f n).1 ≡ rest_of (content f) (io.tellg f) n
  pub tellg-read :
      (f : S) (n : ℕ)
      → io.tellg f ≤ length (content f)
      → io.tellg (io.read f n).0 ≡ io.tellg f + length (io.read f n).1
  pub content-read : (f : S) (n : ℕ) → content (io.read f n).0 ≡ content f
  pub content-write :
      (f : S) (bytes : List ℕ)
      → io.is_append_mode f ≡ false
      → io.tellg f ≤ length (content f)
      → (io.write f bytes).1 ≡ length bytes
      → content (io.write f bytes).0 ≡ copied (content f) (io.tellg f) bytes
  pub tellg-write :
      (f : S) (bytes : List ℕ)
      → io.is_append_mode f ≡ false
      → io.tellg f ≤ length (content f)
      → (io.write f bytes).1 ≡ length bytes
      → io.tellg (io.write f bytes).0 ≡ io.tellg f + length bytes
  pub content-flush : (f : S) → content (io.flush f).0 ≡ content f
  pub is_append_mode-seek :
      (f : S) (p : ℕ) → io.is_append_mode (io.seek f p).0 ≡ io.is_append_mode f
  pub is_append_mode-write :
      (f : S) (bytes : List ℕ) → io.is_append_mode (io.write f bytes).0 ≡ io.is_append_mode f
