-- ===== src/Fs/Memory/Stm32/Tests.antt =====
-- Runs of src/sim_pc/SimSTM32InternalFlashPc.cc.
use simpleflashfs.Prelude.{◌≡◌, refl, arith, false, some, none, [], ◌∷◌, replicate}
use simpleflashfs.Fs.Memory.Stm32.{Stm32, opened, write, erase}
use simpleflashfs.Fs.Memory.Stm32.Once.{write-write}

abbrev eight_bytes : Stm32
unfolding opened
eight_bytes = opened (record { file = replicate 8 0xFF; file_size = 8 }) false

abbrev two_written : Stm32
two_written = record {
  base = record { file = 0xFF ∷ 0xFF ∷ 1 ∷ 2 ∷ 0xFF ∷ 0xFF ∷ 0xFF ∷ 0xFF ∷ []; file_size = 8 };
  mem = 0xFF ∷ 0xFF ∷ 1 ∷ 2 ∷ 0xFF ∷ 0xFF ∷ 0xFF ∷ 0xFF ∷ [];
  mem_written = 0 ∷ 0 ∷ 0xFF ∷ 0xFF ∷ 0 ∷ 0 ∷ 0 ∷ 0 ∷ [];
  do_mem_mapping = false;
}

write_two : write eight_bytes 2 (1 ∷ 2 ∷ []) ≡ some (two_written, 2)
unfolding write opened
write_two = refl

write-write_example : write two_written 3 (7 ∷ 8 ∷ []) ≡ none
unfolding opened
write-write_example =
    write-write eight_bytes two_written 2 2 3 3 (1 ∷ 2 ∷ []) (7 ∷ 8 ∷ []) refl write_two
      (omega arith) (omega arith) (omega arith) (omega arith)

abbrev erased : Stm32
erased = record two_written {
  base = record { file = replicate 8 0xFF; file_size = 8 };
  mem = replicate 8 0xFF;
  mem_written = replicate 8 0;
}

erase_two : erase two_written 2 2 ≡ some erased
unfolding erase
erase_two = refl
