-- ===== src/Fs/Write/ApartTests.antt =====
-- The theorem about copy on write, where a write goes over a stored page.
use simpleflashfs.Prelude.{ℕ, ◌<◌, ◌≡◌, refl, arith, true, false, List, [], ◌∷◌, replicate}
use simpleflashfs.PageSet.Members.{has}
use simpleflashfs.Fs.Types.{File, Fs, stored, empty_inode, new_file}
use simpleflashfs.Fs.Memory.Sim.{SimFile, sim_memory-IsMemory, sim_memory-fills}
use simpleflashfs.Fs.Samples.{small_config, small_header}
use simpleflashfs.Fs.Samples.Paged.{open_fs, held}
use simpleflashfs.Fs.Action.Keeps.{Keeps}
use simpleflashfs.Fs.Store.Claims.{IsApart, Apart}
use simpleflashfs.Fs.Flush.CleanUp.{bytes_of}
use simpleflashfs.Fs.Write.{write}
use simpleflashfs.Fs.Write.Total.{Buffered}
use simpleflashfs.Fs.Write.Apart.{write-Apart}

abbrev two_free : Fs SimFile
two_free = record open_fs {
  free_data_pages = record { entries = 3 ∷ 4 ∷ []; unsorted = false; unshrinked = false };
}

abbrev stored_file : File
stored_file = record new_file {
  inode = record empty_inode {
    file_len = 64;
    data_pages = record { page_id = 2; state = stored } ∷ [];
  };
  pos = 10;
}

buffered : Buffered small_config
buffered = sim_memory-fills

abbrev page_two : List ℕ
page_two = bytes_of small_config sim_memory-IsMemory small_header two_free.mem 2

free_below : (x : ℕ) → has two_free.free_data_pages x ≡ true → x < 5
free_below x u = ground arith

stored_file-IsApart :
    IsApart small_config sim_memory-IsMemory small_header 400 2 page_two
      stored_file.inode.data_pages two_free
stored_file-IsApart = record {
  header = refl;
  len = held;
  valid = record { distinct = ground arith; ordered = λ _. ground arith; full = λ _ _. refl };
  taken = refl;
  written = refl;
  free_stand = λ x h u. omega (arith, free_below x u);
  new_stand = λ x u. cc;
  same = refl;
}

write-Apart_example :
    Keeps
      (λ (n : ℕ). Apart small_config sim_memory-IsMemory small_header 400 2 page_two)
      (Apart small_config sim_memory-IsMemory small_header 400 2 page_two)
      (write small_config (replicate 20 7) stored_file two_free)
write-Apart_example =
    write-Apart small_config buffered sim_memory-IsMemory small_header 400 2 page_two (omega arith)
      (omega arith) (omega arith) (omega arith) (replicate 20 7) stored_file two_free
      stored_file-IsApart
