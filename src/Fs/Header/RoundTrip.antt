-- ===== src/Fs/Header/RoundTrip.antt =====
-- What `write( Header )` of src/base/SimpleFlashFsBase.h writes, `init` reads.
use simpleflashfs.Prelude.{
  ℕ, ◌+◌, ◌-◌, ◌^◌, ◌≤◌, ◌<◌, ◌≡◌, ◌⊎◌, refl, sym, ap, ◌∙◌, arith, true, false, ◌&&◌, ◌||◌, some,
  List, [], ◌++◌, length, take, drop, length-append, length-replicate, append_assoc, take-append_ge,
  take-append_self, ltb, ◌==◌, ==_iff, append-nil,
}
use simpleflashfs.Bytes.{Endianness, le, be}
use simpleflashfs.Fs.Types.{Header, Config, Fs, ChecksumType, crc32_sum, empty_header, Transfer}
use simpleflashfs.Fs.Memory.{IsMemory, window}
use simpleflashfs.Fs.Page.{zero_page, check_page, ok, calc_page_checksum, get_page_checksum}
use simpleflashfs.Fs.Page.Checksum.{trailer, add_page_checksum_lem}
use simpleflashfs.Fs.Inode.RoundTrip.{read_int-field}
use simpleflashfs.Fs.Header.{
  magick_string, endianness_mark, checksum_code, header_page, write_header, read_endianness,
  read_fields, check_fields, init_fields, init,
}
use simpleflashfs.Fs.Header.Layout.{
  numbers, header_layout, length-header_layout, header_page-layout,
}

-- A header that a filesystem of the program can have: its numbers fit their types, and its page has
-- room for the fields and the checksum and is not above the limit of the configuration.
pub record IsHeader (limit : ℕ) (h : Header) : Type 0 where
  pub magic : h.magic_string ≡ magick_string
  pub version_word : h.version < 2 ^ 16
  pub page_word : h.page_size < 2 ^ 32
  pub filesystem_word : h.filesystem_size < 2 ^ 64
  pub inodes_word : h.max_inodes < 2 ^ 32
  pub path_word : h.max_path_len < 2 ^ 16
  pub room : 41 ≤ h.page_size
  pub allowed : limit ≡ 0 ⊎ h.page_size ≤ limit

crc32_only : (t : ChecksumType) → (checksum_code t ≡ 0) × (crc32_sum ≡ t)
crc32_only crc32_sum = (refl, refl)

read_endianness-mark : (e : Endianness) → read_endianness (endianness_mark e) ≡ some e
unfolding read_endianness
read_endianness-mark le = refl
read_endianness-mark be = refl

module _ {S : Type 0} (config : Config S) where
  abbrev blank : Header → Header
  blank h = record empty_header { magic_string = magick_string; endianness = h.endianness }

  blank-numbers :
      (limit : ℕ) (h : Header)
      → IsHeader limit h
      → record (blank h) {
        version = h.version;
        page_size = h.page_size;
        filesystem_size = h.filesystem_size;
        max_inodes = h.max_inodes;
        max_path_len = h.max_path_len;
      }
        ≡ h
  blank-numbers limit h good =
      ap (λ (m : List ℕ). record h { magic_string = m; crc_checksum_type = crc32_sum })
        (sym good.magic)
      ∙ ap (λ (t : ChecksumType). record h { crc_checksum_type = t })
          (crc32_only h.crc_checksum_type).1

  read_fields-numbers :
      (limit : ℕ) (h : Header) (rest : List ℕ)
      → IsHeader limit h
      → read_fields config (blank h) (numbers config h ++ rest)
        ≡ some (record { header = h; chktype = 0 })
  unfolding read_fields
  read_fields-numbers limit h rest good =
      rw
        (
          append_assoc,
          append_assoc,
          append_assoc,
          append_assoc,
          append_assoc,
          read_int-field config (blank h) 2 h.version _ good.version_word,
          read_int-field config (blank h) 4 h.page_size _ good.page_word,
          read_int-field config (blank h) 8 h.filesystem_size _ good.filesystem_word,
          read_int-field config (blank h) 4 h.max_inodes _ good.inodes_word,
          read_int-field config (blank h) 2 h.max_path_len _ good.path_word,
          read_int-field config (blank h) 2 (checksum_code h.crc_checksum_type) rest
              (code_word h.crc_checksum_type),
          (crc32_only h.crc_checksum_type).0,
        )
        (ap (λ (g : Header). some (record { header = g; chktype = 0 }))
          (blank-numbers limit h good))
    where
      code_word : (t : ChecksumType) → checksum_code t < 256 ^ 2
      code_word crc32_sum = omega arith

  behind :
      (front back t : List ℕ) (n size : ℕ)
      → length front ≡ 37
      → 41 ≤ n
      → size ≡ n
      → take (size - 4) (front ++ back) ++ t ≡ front ++ (take (n - 4 - 37) back ++ t)
  behind front back t n size e big same =
      rw (same, take-append_ge front back (n - 4) (omega arith), e) (append_assoc front _ t)

  -- The page that `write_header` writes: the layout, zeros, and the checksum.
  abbrev filler : Header → List ℕ
  filler h =
      let page = header_layout config h ++ zero_page (h.page_size - 37) in
      take (h.page_size - 4 - 37) (zero_page (h.page_size - 37)) ++ trailer config h page

  header_page_lem :
      (limit : ℕ) (h : Header)
      → IsHeader limit h
      → ((bytes : List ℕ) → config.crc32 bytes < 2 ^ 32)
      → (page : List ℕ) × (header_page config h ≡ some page)
        × (page ≡ header_layout config h ++ filler h)
        × (length page ≡ h.page_size)
        × (check_page config h true page ≡ ok page)
  header_page_lem limit h good crc_word =
      let room = good.room in
      let (page, adds, shape, size, passes) =
        add_page_checksum_lem config h (header_layout config h ++ zero_page (h.page_size - 37))
          (omega (arith, full room)) crc_word in
      (
        page,
        header_page-layout config h good.magic (omega arith) ∙ adds,
        shape
            ∙ behind (header_layout config h) _ _ h.page_size
                (length (header_layout config h ++ zero_page (h.page_size - 37)))
                (length-header_layout config h) room (full room),
        size ∙ full room,
        passes,
      )
    where
      full :
          41 ≤ h.page_size
          → length (header_layout config h ++ zero_page (h.page_size - 37)) ≡ h.page_size
      full room = omega (
        arith,
        length-append (header_layout config h) (zero_page (h.page_size - 37)),
        length-header_layout config h,
        length-replicate {A = ℕ} (h.page_size - 37) 0,
      )

  marks_lem :
      (e : Endianness) (ns : List ℕ)
      → let layout = magick_string ++ (endianness_mark e ++ ns) in
        (take 2 (drop 13 layout) ≡ endianness_mark e) × (drop 15 layout ≡ ns)
  marks_lem le ns = (refl, refl)
  marks_lem be ns = (refl, refl)

  checksum_holds :
      (h : Header) (page : List ℕ)
      → check_page config h true page ≡ ok page
      → calc_page_checksum config page ≡ get_page_checksum config h page
  unfolding check_page
  checksum_holds h page passes = ground (arith, passes)

  in_bounds :
      (h : Header)
      → IsHeader config.page_limit h
      → (ltb h.page_size 37 || (ltb 0 config.page_limit && ltb config.page_limit h.page_size))
        ≡ false
  in_bounds h good = let room = good.room in let allowed = good.allowed in ground arith

  check_fields-page :
      (h : Header) (fs : Fs S) (page : List ℕ)
      → IsHeader config.page_limit h
      → (config.memory.read fs.mem 0 h.page_size).buffer ≡ page
      → fs.header ≡ blank h
      → check_page config h true page ≡ ok page
      → check_fields config (record { header = h; chktype = 0 }) fs ≡ (
        true,
        record fs {
          header = h;
          header_inode_range = record { max_page = h.max_inodes; current = 0 };
        },
      )
  unfolding check_fields
  check_fields-page h fs page good reads at passes =
      let room = good.room in
      let holds : (calc_page_checksum config page == get_page_checksum config fs.header page)
          ≡ true =
        (==_iff (calc_page_checksum config page) (get_page_checksum config fs.header page)).1 (
          checksum_holds h page passes
          ∙ unfold get_page_checksum in
            ap (λ (g : Header). get_page_checksum config g page) (sym at)) in
      rw (in_bounds h good, reads, holds) refl

  window-front :
      (front back : List ℕ) (n : ℕ) → length front ≡ n → window 0 n (front ++ back) ≡ front
  window-front front back n e = take-append_self front back n e

  init-page :
      (h : Header) (fs : Fs S) (page rest : List ℕ) (m : IsMemory config.memory)
      → IsHeader config.page_limit h
      → m.contents fs.mem ≡ page ++ rest
      → page ≡ header_layout config h ++ filler h
      → length page ≡ h.page_size
      → check_page config h true page ≡ ok page
      → init config fs
        ≡ some (
          true,
          record fs {
            header = h;
            header_inode_range = record { max_page = h.max_inodes; current = 0 };
          },
        )
  unfolding init init_fields
  init-page h fs page rest m good held shape size passes =
      let room = good.room in
      let (mark, fields) = marks_lem h.endianness (numbers config h) in
      rw (first_read, mark, read_endianness-mark h.endianness, fields, read_fields-bare)
        (ap some (check_fields-page h _ page good (second_read page held size) refl passes))
    where
      first_read : (config.memory.read fs.mem 0 37).buffer ≡ header_layout config h
      first_read =
          ap (λ (t : Transfer). t.buffer) (m.read_law fs.mem 0 37 (omega (arith, held_size)))
          ∙ ap (window 0 37) (
              held
              ∙ ap (λ (p : List ℕ). p ++ rest) shape
              ∙ append_assoc (header_layout config h) (filler h) rest)
          ∙ window-front (header_layout config h) (filler h ++ rest) 37
              (length-header_layout config h)
        where
          held_size : 37 ≤ length (m.contents fs.mem)
          held_size =
              let room = good.room in
              omega (arith, ap (λ (l : List ℕ). length l) held, length-append page rest, size)

      second_read :
          (p : List ℕ)
          → m.contents fs.mem ≡ p ++ rest
          → length p ≡ h.page_size
          → (config.memory.read fs.mem 0 h.page_size).buffer ≡ p
      second_read p h' e =
          ap (λ (t : Transfer). t.buffer)
            (m.read_law fs.mem 0 h.page_size
              (omega (arith, ap (λ (l : List ℕ). length l) h', length-append p rest, e)))
          ∙ ap (window 0 h.page_size) h'
          ∙ window-front p rest h.page_size e

      read_fields-bare :
          read_fields config (blank h) (numbers config h)
          ≡ some (record { header = h; chktype = 0 })
      read_fields-bare =
          ap (read_fields config (blank h)) (sym (append-nil (numbers config h)))
          ∙ read_fields-numbers config.page_limit h [] good

  -- What `write( Header )` puts into a memory with room for its page, `init` of any filesystem object
  -- on that memory accepts: it returns true, its header is the one written, and its range of inode
  -- pages starts anew; all else of the object stays as it was.
  pub write_header-init :
      (h : Header) (fs other : Fs S) (m : IsMemory config.memory)
      → IsHeader config.page_limit h
      → h.page_size ≤ length (m.contents fs.mem)
      → ((bytes : List ℕ) → config.crc32 bytes < 2 ^ 32)
      → (mem : S) × (write_header config h fs ≡ some (true, record fs { header = h; mem = mem }))
        × (init config (record other { mem = mem })
            ≡ some (
              true,
              record other {
                mem = mem;
                header = h;
                header_inode_range = record { max_page = h.max_inodes; current = 0 };
              },
            ))
  unfolding write_header
  write_header-init h fs other m good fits crc_word =
      let (page, makes, shape, size, passes) = header_page_lem config.page_limit h good crc_word in
      let (_, keeps) = m.write_law fs.mem 0 page (omega (arith, size)) in
      (
        (config.memory.write fs.mem 0 page).0,
        rw makes refl,
        init-page h (record other { mem = (config.memory.write fs.mem 0 page).0 }) page
            (drop (0 + length page) (m.contents fs.mem)) m good keeps shape size passes,
      )
