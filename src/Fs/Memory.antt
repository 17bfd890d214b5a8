-- ===== src/Fs/Memory.antt =====
-- What the filesystem relies on of a FlashMemoryInterface
-- (src/SimpleFlashFsFlashMemoryInterface.h): within its size a memory reads back what was written,
-- and an erased area reads as 0xFF.
pub mod Sim
pub mod Stm32
pub mod Windows
use simpleflashfs.Prelude.{
  ℕ, ◌+◌, ◌≤◌, ◌≡◌, true, Option, some, List, ◌++◌, length, take, drop, replicate,
}
use simpleflashfs.Fs.Types.{FlashMemory, Transfer}

-- The bytes at an address, and a list with some of its bytes replaced.
abbrev pub window : ℕ → ℕ → List ℕ → List ℕ
window address n bytes = take n (drop address bytes)

abbrev pub overlay : ℕ → List ℕ → List ℕ → List ℕ
overlay address data_bytes bytes =
    take address bytes ++ (data_bytes ++ drop (address + length data_bytes) bytes)

pub record IsMemory {S : Type 0} (m : FlashMemory S) : Type 0 where
  pub contents : S → List ℕ
  pub read_law :
      (s : S) (address n : ℕ)
      → address + n ≤ length (contents s)
      → m.read s address n ≡ record { len_read = n; buffer = window address n (contents s) }
  pub write_law :
      (s : S) (address : ℕ) (bytes : List ℕ)
      → address + length bytes ≤ length (contents s)
      → ((m.write s address bytes).1 ≡ length bytes)
        × (contents (m.write s address bytes).0 ≡ overlay address bytes (contents s))
  pub erase_law :
      (s : S) (address n : ℕ)
      → address + n ≤ length (contents s)
      → contents (m.erase s address n) ≡ overlay address (replicate n 0xFF) (contents s)
  pub map_law :
      (s : S) (address n : ℕ)
      → m.can_map_read ≡ true
      → address + n ≤ length (contents s)
      → m.map_read s address n ≡ some (window address n (contents s))
