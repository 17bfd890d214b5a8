-- ===== src/Fs/Memory/Sim.antt =====
-- `SimFlashFsFlashMemory` of src/sim_pc/SimFlashMemoryPc.cc: a memory in a file, on a stream that has
-- no error flag set. The file is a list of bytes; a write behind its end fills the gap with zeros, a
-- read that reaches the end fails and makes `tellg` return -1.
use simpleflashfs.Prelude.{
  ℕ, ◌+◌, ◌-◌, ◌^◌, ◌%◌, ◌≤◌, ◌≡◌, refl, arith, false, none, List, ◌++◌, length, take, drop, inl,
  inr, leb→le, Bool-cases, length-append, length-take, length-drop, replicate, if◌then◌else◌, leb,
  leb_of_le, length-replicate, append-nil,
}
use simpleflashfs.Fs.Types.{FlashMemory, Transfer}
use simpleflashfs.Fs.Memory.{window, overlay, IsMemory}

pub record SimFile : Type 0 where
  pub file : List ℕ
  pub file_size : ℕ

-- `fstream::write` at an address.
abbrev write_file : ℕ → List ℕ → List ℕ → List ℕ
write_file address bytes file =
    take address (file ++ replicate (address - length file) 0)
    ++ (bytes ++ drop (address + length bytes) file)

unfoldable pub write : SimFile → ℕ → List ℕ → SimFile × ℕ
write m address bytes = (record m { file = write_file address bytes m.file }, length bytes)

unfoldable pub read : SimFile → ℕ → ℕ → Transfer
read m address n =
    if leb (address + n) (length m.file)
    then record { len_read = n; buffer = window address n m.file }
    else (record {
      len_read = (2 ^ 64 + 2 ^ 64 - 1 - address) % 2 ^ 64;
      buffer = window address n m.file ++ replicate (n - length (window address n m.file)) 0;
    })

unfoldable pub erase : SimFile → ℕ → ℕ → SimFile
erase m address n = record m { file = write_file address (replicate n 0xFF) m.file }

-- It does not map its memory.
abbrev pub sim_memory : FlashMemory SimFile
unfolding write read erase
sim_memory = record {
  size = λ m. m.file_size;
  write = write;
  read = read;
  erase = erase;
  can_map_read = false;
  map_read = λ m address n. none;
}

write_file-overlay :
    (address : ℕ) (bytes file : List ℕ)
    → address + length bytes ≤ length file
    → write_file address bytes file ≡ overlay address bytes file
write_file-overlay address bytes file h =
    let e : address - length file ≡ 0 = omega arith in rw (e, append-nil file) refl

-- The simulated memory keeps what the interface promises, inside of its file.
pub sim_memory-IsMemory : IsMemory sim_memory
unfolding write read erase
sim_memory-IsMemory = record {
  contents = λ m. m.file;
  read_law = λ m address n h. rw (leb_of_le (address + n) (length m.file) h) refl;
  write_law = λ m address bytes h. (refl, write_file-overlay address bytes m.file h);
  erase_law = λ m address n h.
      write_file-overlay address (replicate n 0xFF) m.file
        (omega (arith, length-replicate {A = ℕ} n 0xFF));
  map_law = λ m address n e h. cc;
}

pub sim_memory-contents : (m : SimFile) → sim_memory-IsMemory.contents m ≡ m.file
unfolding sim_memory-IsMemory
sim_memory-contents m = refl

pub sim_memory-size : (m : SimFile) → sim_memory.size m ≡ m.file_size
unfolding sim_memory
sim_memory-size m = refl

length-window : (a n : ℕ) (bytes : List ℕ) → a + n ≤ length bytes → length (window a n bytes) ≡ n
length-window a n bytes h = omega (arith, length-take n (drop a bytes), length-drop a bytes)

-- A read fills its buffer, also behind the end of the file.
pub sim_memory-fills : (m : SimFile) (a n : ℕ) → length (sim_memory.read m a n).buffer ≡ n
unfolding read sim_memory
sim_memory-fills m a n = elim (Bool-cases (leb (a + n) (length m.file))) [
  | inl e ↦ rw e (length-window a n m.file (leb→le (a + n) (length m.file) e))
  | inr e ↦ rw e (
      omega (
        arith,
        length-append (window a n m.file) (replicate (n - length (window a n m.file)) 0),
        length-take n (drop a m.file),
        length-replicate {A = ℕ} (n - length (window a n m.file)) 0,
      ))
]
