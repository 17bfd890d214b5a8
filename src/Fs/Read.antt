-- ===== src/Fs/Read.antt =====
-- `read` of src/base/SimpleFlashFsBase.h. It changes nothing but the position of the handle; the
-- bytes that it returns are what it copies to the caller's buffer. `none` stands for a copy outside
-- of a buffer.
pub mod Pages
pub mod Rounds
pub mod Contents
pub mod Tests
use simpleflashfs.Prelude.{
  ℕ, zero, suc, ◌+◌, ◌-◌, ◌*◌, ◌/◌, ◌%◌, ◌^◌, min, Bool, true, false, not, ◌&&◌, Option, none, some,
  List, [], ◌∷◌, ◌++◌, if◌then◌else◌, ltb, leb, ◌==◌, length, take, drop, replicate,
}
use simpleflashfs.Fs.Types.{Config, Fs, File, Inode, DataPage, PageState, new, stored, deleted}
use simpleflashfs.Fs.Page.{◌>>=◌, zero_page, split, PageRead, ok, read_error, crc_error, read_page}
use simpleflashfs.Fs.Inode.{get_inode_data_space_size}

-- `data_pages.at(i)`.
unfoldable pub page_at : List DataPage → ℕ → Option DataPage
page_at [] i = none
page_at (p ∷ ps) zero = some p
page_at (p ∷ ps) (suc i) = page_at ps i

abbrev pub is_new : PageState → Bool
is_new new = true
is_new stored = false
is_new deleted = false

abbrev pub is_stored : PageState → Bool
is_stored new = false
is_stored stored = true
is_stored deleted = false

abbrev pub page_of : PageRead → Option (List ℕ)
page_of (ok page) = some page
page_of read_error = none
page_of (crc_error page) = none

-- The bytes that were read, and the handle.
pub record Got : Type 0 where
  pub bytes : List ℕ
  pub file : File

abbrev pub advance : Got → List ℕ → Got
advance g bytes = record {
  bytes = g.bytes ++ bytes;
  file = record g.file { pos = g.file.pos + length bytes };
}

module _ {S : Type 0} (config : Config S) (fs : Fs S) where
  unfoldable pub load : DataPage → Option (List ℕ)
  unfolding read_page
  load p = page_of (read_page config fs p.page_id fs.header.page_size false)

  -- The bytes of a page where the code asks for `New`, and where it asks for `Stored`.
  unfoldable pub load_unless_new : DataPage → Option (List ℕ)
  unfolding load
  load_unless_new p = if is_new p.state then some (zero_page fs.header.page_size) else load p

  unfoldable pub load_if_stored : DataPage → Option (List ℕ)
  unfolding load
  load_if_stored p = if is_stored p.state then load p else some (zero_page fs.header.page_size)

  -- One round of the loop: the bytes that it reads, or nothing where it returns early.
  unfoldable pub round : ℕ → Got → Option (List ℕ)
  unfolding page_at load_unless_new load_if_stored
  round size g = do
    p ← page_at g.file.inode.data_pages (g.file.pos / fs.header.page_size)
    if ltb size (length g.bytes + fs.header.page_size)
        then (do
          page ← load_if_stored p
          some (take (min ((size - length g.bytes) % 2 ^ 32) fs.header.page_size) page))
        else load_unless_new p

  -- The loop, with at most `left` rounds.
  unfoldable pub read_rounds : ℕ → ℕ → Got → Got
  read_rounds zero size g = g
  read_rounds (suc left) size g =
      if ltb (length g.bytes) size
      then (elim (round size g) [ none ↦ g | some bytes ↦ read_rounds left size (advance g bytes) ])
      else g

  -- The part before the loop: the rest of a page in which the position stands; `none` where it
  -- returns early.
  unfoldable pub read_unaligned : ℕ → File → Option (List ℕ)
  unfolding page_at load_unless_new
  read_unaligned size file =
      let start = file.pos % fs.header.page_size in
      if start == 0 then some [] else (do
        p ← page_at file.inode.data_pages (file.pos / fs.header.page_size)
        page ← load_unless_new p
        some (take (min size (fs.header.page_size - start)) (drop start page)))

  -- The loop behind that part. Every round reads a byte or more, so that `size` rounds are enough.
  unfoldable pub read_behind : ℕ → Got → Option (List ℕ) → Got
  unfolding read_rounds
  read_behind size g none = g
  read_behind size g (some bytes) = read_rounds size size (advance g bytes)

  unfoldable pub read_pages : ℕ → File → Got
  unfolding read_unaligned read_behind
  read_pages size file =
      read_behind size (record { bytes = []; file = file }) (read_unaligned size file)

  -- The data that stands in the inode.
  unfoldable pub read_inline : ℕ → File → Option Got
  unfolding split
  read_inline size file = do
    (bytes, _) ← split size (drop file.pos file.inode.inode_data)
    some (advance (record { bytes = []; file = file }) bytes)

  -- `read`, with `size` cut at the end of the file.
  unfoldable pub read_clamped : ℕ → File → Option Got
  unfolding read_pages read_inline get_inode_data_space_size
  read_clamped size file =
      let space = get_inode_data_space_size fs.header file.inode in
      if size == 0
      then some (record { bytes = []; file = file })
      else (if ltb ((file.pos + size) % 2 ^ 64) space
            && ltb file.inode.file_len space
            && not (length file.inode.inode_data == 0)
          then read_inline size file
          else some (read_pages size file))

  unfoldable pub read : ℕ → File → Option Got
  unfolding read_clamped
  read size file =
      let rest = (file.inode.file_len + 2 ^ 64 - file.pos % 2 ^ 64) % 2 ^ 64 in
      read_clamped (if ltb rest size then rest else size) file
