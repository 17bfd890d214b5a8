-- ===== src/Fs/Memory/Stm32/Once.antt =====
-- The flash of src/sim_pc/SimSTM32InternalFlashPc.cc is not written twice between two erases.
use simpleflashfs.Prelude.{
  ℕ, zero, suc, ◌+◌, ◌≤◌, ◌<◌, ◌≡◌, refl, arith, inl, inr, false, none, some, List, [], ◌∷◌, ◌++◌,
  length, take, drop, replicate, get_or, ◌==◌, Bool-cases,
}
use simpleflashfs.Fs.Memory.{overlay}
use simpleflashfs.Fs.Memory.Stm32.{Stm32, may_write, write}

get_or-replicate : (n i v d : ℕ) (rest : List ℕ) → i < n → get_or (replicate n v ++ rest) i d ≡ v
get_or-replicate zero i v d rest h = absurd (omega arith)
get_or-replicate (suc n) zero v d rest h = refl
get_or-replicate (suc n) (suc i) v d rest h = get_or-replicate n i v d rest (omega arith)

-- A byte of the area that is marked.
get_or-marked :
    (at i n v d : ℕ) (bytes rest : List ℕ)
    → at ≤ length bytes
    → at ≤ i
    → i < at + n
    → get_or (take at bytes ++ (replicate n v ++ rest)) i d ≡ v
get_or-marked zero i n v d bytes rest h k l = get_or-replicate n i v d rest (omega arith)
get_or-marked (suc at) i n v d [] rest h k l = absurd (omega arith)
get_or-marked (suc at) zero n v d (b ∷ bytes) rest h k l = absurd (omega arith)
get_or-marked (suc at) (suc i) n v d (b ∷ bytes) rest h k l =
    get_or-marked at i n v d bytes rest (omega arith) (omega arith) (omega arith)

may_write-false :
    (written : List ℕ) (address i left x : ℕ)
    → address + i ≤ x
    → x < address + i + left
    → (get_or written x 0 == 0) ≡ false
    → may_write written address i left ≡ false
unfolding may_write
may_write-false written address i zero x h k e = absurd (omega arith)
may_write-false written address i (suc left) x h k e = elim (Bool-cases (address + i == x)) [
  | inl here ↦ let at : address + i ≡ x = ground (arith, here) in rw (at, e) refl
  | inr later ↦
      let rest =
        may_write-false written address (i + 1) left x (ground (arith, h, later)) (omega (arith, k))
          e in
      ground (arith, rest)
]

written_after :
    (m m' : Stm32) (k address : ℕ) (bytes : List ℕ)
    → write m address bytes ≡ some (m', k)
    → (address < length m.mem)
      × (m'.mem_written ≡ overlay address (replicate (length bytes) 0xFF) m.mem_written)
unfolding write
written_after m m' k address bytes done = ground (arith, done)

refused :
    (m : Stm32) (address : ℕ) (bytes : List ℕ)
    → may_write m.mem_written address 0 (length bytes) ≡ false
    → write m address bytes ≡ none
unfolding write
refused m address bytes e = ground (arith, e)

-- After a write, every write to an area that shares a byte with it throws: with a mark for each byte
-- of the memory, as the constructors make them.
pub write-write :
    (m m' : Stm32) (k address x b : ℕ) (bytes other : List ℕ)
    → length m.mem_written ≡ length m.mem
    → write m address bytes ≡ some (m', k)
    → address ≤ x
    → x < address + length bytes
    → b ≤ x
    → x < b + length other
    → write m' b other ≡ none
write-write m m' k address x b bytes other same done h l h' l' =
    let after = written_after m m' k address bytes done in
    let marked =
      get_or-marked address x (length bytes) 0xFF 0 m.mem_written
        (drop (address + length {A = ℕ} (replicate (length bytes) 0xFF)) m.mem_written)
        (omega (arith, after.0, same)) h l in
    let busy : (get_or m'.mem_written x 0 == 0) ≡ false = rw (after.1, marked) refl in
    refused m' b other
      (may_write-false m'.mem_written b 0 (length other) x (omega arith) (omega arith) busy)
