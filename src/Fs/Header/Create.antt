-- ===== src/Fs/Header/Create.antt =====
-- `create` of src/static/SimpleFlashFsStatic.h.
use simpleflashfs.Prelude.{
  ℕ, zero, suc, ◌+◌, ◌*◌, ◌%◌, ◌^◌, ◌≤◌, ◌<◌, ◌≡◌, sym, ap, ◌∙◌, arith, Bool, true, false, ◌||◌,
  Option, none, some, List, ◌++◌, length, take, drop, replicate, length-append, length-replicate,
  length-drop, length-take, ltb, ◌==◌,
}
use simpleflashfs.Fs.Types.{Header, Config, Fs}
use simpleflashfs.Fs.Memory.{IsMemory, overlay}
use simpleflashfs.Fs.Header.{write_header, init, create_sized, create}
use simpleflashfs.Fs.Header.RoundTrip.{IsHeader, write_header-init}

length-overlay :
    (address : ℕ) (bytes old : List ℕ)
    → address + length bytes ≤ length old
    → length (overlay address bytes old) ≡ length old
length-overlay address bytes old fits = omega (
  arith,
  length-append (take address old) (bytes ++ drop (address + length bytes) old),
  length-append bytes (drop (address + length bytes) old),
  length-take address old,
  length-drop (address + length bytes) old,
)

one_page : (n k : ℕ) → 4 ≤ k → n ≤ n * k
one_page n zero h = absurd (omega arith)
one_page n (suc k) h = omega arith

module _ {S : Type 0} (config : Config S) where
  mem_of : S → Option (Bool × Fs S) → S
  mem_of s none = s
  mem_of s (some r) = r.1.mem

  -- `write_header` and `init` of the same object, and of another one.
  write_header-then_init :
      (h : Header) (fs other : Fs S) (m : IsMemory config.memory)
      → IsHeader config.page_limit h
      → h.page_size ≤ length (m.contents fs.mem)
      → ((bytes : List ℕ) → config.crc32 bytes < 2 ^ 32)
      → (mem : S) × (write_header config h fs ≡ some (true, record fs { header = h; mem = mem }))
        × (init config (record fs { header = h; mem = mem })
            ≡ some (
              true,
              record fs {
                header = h;
                mem = mem;
                header_inode_range = record { max_page = h.max_inodes; current = 0 };
              },
            ))
        × (init config (record other { mem = mem })
            ≡ some (
              true,
              record other {
                mem = mem;
                header = h;
                header_inode_range = record { max_page = h.max_inodes; current = 0 };
              },
            ))
  unfolding mem_of
  write_header-then_init h fs other m good fits crc_word =
      let (a, writes_a, init_a) =
        write_header-init config h fs (record fs { header = h }) m good fits crc_word in
      let (b, writes_b, init_b) = write_header-init config h fs other m good fits crc_word in
      let same : b ≡ a = ap (mem_of fs.mem) (sym writes_b ∙ writes_a) in
      (a, writes_a, init_a, rw (← same) init_b)

  -- Creating a filesystem of at least four pages in a memory that holds it succeeds: the header is
  -- the given one and the range of inode pages starts anew; and any filesystem object on the memory
  -- that is left finds the same header.
  pub create_lem :
      (h : Header) (fs other : Fs S) (m : IsMemory config.memory)
      → IsHeader config.page_limit h
      → 4 ≤ h.filesystem_size
      → h.page_size * h.filesystem_size < 2 ^ 64
      → h.page_size * h.filesystem_size ≤ config.memory.size fs.mem
      → config.memory.size fs.mem ≤ length (m.contents fs.mem)
      → ((bytes : List ℕ) → config.crc32 bytes < 2 ^ 32)
      → (mem : S) × (create config h fs
          ≡ some (
            true,
            record fs {
              header = h;
              mem = mem;
              header_inode_range = record { max_page = h.max_inodes; current = 0 };
            },
          ))
        × (init config (record other { mem = mem })
            ≡ some (
              true,
              record other {
                mem = mem;
                header = h;
                header_inode_range = record { max_page = h.max_inodes; current = 0 };
              },
            ))
  unfolding create
  create_lem h fs other m good pages word fits inside crc_word =
      let room = good.room in
      let wrapped : h.page_size * h.filesystem_size % 2 ^ 64 ≡ h.page_size * h.filesystem_size =
        omega arith in
      let (mem, writes, first, second) =
        write_header-then_init h
          (record fs { mem = config.memory.erase fs.mem 0 (h.page_size * h.filesystem_size) }) other
          m good (omega (arith, one_page h.page_size h.filesystem_size pages, erased_size))
          crc_word in
      (mem, ap (λ (n : ℕ). create_sized config n h fs) wrapped ∙ runs mem writes first, second)
    where
      accepted :
          41 ≤ h.page_size
          → 4 ≤ h.filesystem_size
          → h.page_size * h.filesystem_size ≤ config.memory.size fs.mem
          → (ltb (config.memory.size fs.mem) (h.page_size * h.filesystem_size)
              || (h.page_size == 0)
              || (h.filesystem_size == 0)
              || ltb h.page_size 37
              || ltb h.filesystem_size 4)
            ≡ false
      accepted room pages fits = ground arith

      runs :
          (mem : S)
          → write_header config h
              (record fs { mem = config.memory.erase fs.mem 0 (h.page_size * h.filesystem_size) })
            ≡ some (true, record fs { header = h; mem = mem })
          → init config (record fs { header = h; mem = mem })
            ≡ some (
              true,
              record fs {
                header = h;
                mem = mem;
                header_inode_range = record { max_page = h.max_inodes; current = 0 };
              },
            )
          → create_sized config (h.page_size * h.filesystem_size) h fs
            ≡ some (
              true,
              record fs {
                header = h;
                mem = mem;
                header_inode_range = record { max_page = h.max_inodes; current = 0 };
              },
            )
      runs mem writes first = let room = good.room in rw (accepted room pages fits, writes) first

      erased_size :
          length (m.contents (config.memory.erase fs.mem 0 (h.page_size * h.filesystem_size)))
          ≡ length (m.contents fs.mem)
      erased_size =
          ap (λ (l : List ℕ). length l)
            (m.erase_law fs.mem 0 (h.page_size * h.filesystem_size) (omega arith))
          ∙ length-overlay 0 (replicate (h.page_size * h.filesystem_size) 0xFF) (m.contents fs.mem)
              (omega (arith, length-replicate {A = ℕ} (h.page_size * h.filesystem_size) 0xFF))
