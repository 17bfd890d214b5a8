-- ===== src/Fs/Memory/Stm32.antt =====
-- SimSTM32InternalFlashPc of src/sim_pc/SimSTM32InternalFlashPc.cc: a flash that is written once
-- between two erases. An exception, and an access outside of the memory, is none.
pub mod Once
pub mod Tests
use simpleflashfs.Prelude.{
  ℕ, zero, suc, ◌+◌, ◌-◌, ◌%◌, ◌^◌, Bool, true, false, ◌&&◌, ◌||◌, Option, none, some, List, ◌++◌,
  length, take, replicate, get_or, leb, ltb, ◌==◌, if◌then◌else◌,
}
use simpleflashfs.Fs.Memory.{window, overlay}
use simpleflashfs.Fs.Memory.Sim
use simpleflashfs.Fs.Memory.Sim.{SimFile}

-- `base` is the SimFlashFsFlashMemory; `mem_written` has 0 where the byte may be written.
pub record Stm32 : Type 0 where
  pub base : SimFile
  pub mem : List ℕ
  pub mem_written : List ℕ
  pub do_mem_mapping : Bool

-- The constructors behind that of the base.
unfoldable pub opened : SimFile → Bool → Stm32
opened base do_mem_mapping = record {
  base = base;
  mem = take base.file_size base.file ++ replicate (base.file_size - length base.file) 0;
  mem_written = replicate base.file_size 0;
  do_mem_mapping = do_mem_mapping;
}

-- The loop of `write` at i, with the rounds that are left: no byte is written already.
unfoldable pub may_write : List ℕ → ℕ → ℕ → ℕ → Bool
may_write mem_written address i zero = true
may_write mem_written address i (suc left) =
    (get_or mem_written (address + i) 0 == 0) && may_write mem_written address (i + 1) left

unfoldable pub write : Stm32 → ℕ → List ℕ → Option (Stm32 × ℕ)
unfolding may_write Sim.write
write m address bytes =
    if leb (length m.mem) address
    then none
    else (if ltb (length m.mem) ((address + length bytes) % 2 ^ 64)
        then none
        else (if may_write m.mem_written address 0 (length bytes)
            then some (
              record m {
                base = (Sim.write m.base address bytes).0;
                mem = overlay address bytes m.mem;
                mem_written = overlay address (replicate (length bytes) 0xFF) m.mem_written;
              },
              (Sim.write m.base address bytes).1,
            )
            else none))

unfoldable pub read : Stm32 → ℕ → ℕ → Option (List ℕ × ℕ)
read m address size =
    if leb (length m.mem) address || ltb (length m.mem) (address + size)
    then none
    else some (window address size m.mem, size)

unfoldable pub erase : Stm32 → ℕ → ℕ → Option Stm32
unfolding Sim.erase
erase m address size =
    if leb (length m.mem) address || ltb (length m.mem) (address + size)
    then none
    else some (record m {
      base = Sim.erase m.base address size;
      mem = overlay address (replicate size 0xFF) m.mem;
      mem_written = overlay address (replicate size 0) m.mem_written;
    })

-- The pointer that `map_read` gives, as the bytes behind it.
unfoldable pub map_read : Stm32 → ℕ → ℕ → Option (List ℕ)
map_read m address size =
    if leb (length m.mem) address then none else some (window address size m.mem)
