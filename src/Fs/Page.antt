-- ===== src/Fs/Page.antt =====
-- Pages of src/base/SimpleFlashFsBase.h: copies in and out, checksums, reading from the memory. A
-- copy that leaves its page is `none`: the code would write or read outside its buffer.
pub mod Copies
pub mod Checksum
use simpleflashfs.Prelude.{
  ℕ, zero, suc, ◌+◌, ◌-◌, ◌*◌, ◌^◌, Bool, true, false, not, ◌&&◌, Option, none, some, List, [], ◌∷◌,
  ◌++◌, if◌then◌else◌, ltb, leb, ◌==◌, length, take, drop, replicate,
}
use simpleflashfs.Bytes.{Endianness, to_page, of_page}
use simpleflashfs.Fs.Types.{Header, Config, Transfer, ChecksumType, crc32_sum, Fs}

infixl 5 ◌>>=◌
abbrev pub ◌>>=◌ {ℓ κ} : {A : Type ℓ} {B : Type κ} → Option A → (A → Option B) → Option B
none >>= f = none
some a >>= f = f a

-- `page_type(n)`.
abbrev pub zero_page : ℕ → List ℕ
zero_page n = replicate n 0

-- `memcpy( &page[pos], bytes, n )`.
unfoldable pub put : ℕ → List ℕ → List ℕ → Option (List ℕ)
put pos bytes page =
    if leb (pos + length bytes) (length page)
    then some (take pos page ++ (bytes ++ drop (pos + length bytes) page))
    else none

-- `memcpy( t, &page[pos], n )` that moves `pos` on: the bytes, and the page from the new `pos` on.
unfoldable pub split : ℕ → List ℕ → Option (List ℕ × List ℕ)
split n rest = if leb n (length rest) then some (take n rest, drop n rest) else none

abbrev pub checksum_size : ChecksumType → ℕ
checksum_size crc32_sum = 4

module _ {S : Type 0} (config : Config S) where
  -- `calc_page_checksum`: over all bytes but the last four. A page has at least four.
  unfoldable pub calc_page_checksum : List ℕ → ℕ
  calc_page_checksum page = config.crc32 (take (length page - 4) page)

  unfoldable pub get_page_checksum : Header → List ℕ → ℕ
  get_page_checksum h page = of_page config.host h.endianness 4 (drop (length page - 4) page)

  unfoldable pub add_page_checksum : Header → List ℕ → Option (List ℕ)
  unfolding calc_page_checksum put
  add_page_checksum h page =
      put (length page - 4) (to_page config.host h.endianness 4 (calc_page_checksum page)) page

-- `ReadPageReturn` and `ReadPageMappedReturn`.
pub data PageRead : Type 0 where
  ok : List ℕ → PageRead
  read_error : PageRead
  crc_error : List ℕ → PageRead

module _ {S : Type 0} (config : Config S) where
  unfoldable pub check_page : Header → Bool → List ℕ → PageRead
  unfolding calc_page_checksum get_page_checksum
  check_page h check_crc page =
      if check_crc && not (get_page_checksum config h page == calc_page_checksum config page)
      then crc_error page
      else ok page

  unfoldable pub read_page : Fs S → ℕ → ℕ → Bool → PageRead
  unfolding check_page
  read_page fs idx size check_crc =
      let offset = fs.header.page_size + idx * fs.header.page_size in
      let r = config.memory.read fs.mem offset size in
      if r.len_read == size then check_page fs.header check_crc r.buffer else read_error

  read_mapped : Header → Bool → Option (List ℕ) → PageRead
  unfolding check_page
  read_mapped h check_crc none = read_error
  read_mapped h check_crc (some page) = check_page h check_crc page

  unfoldable pub read_page_mapped : Fs S → ℕ → ℕ → Bool → PageRead
  unfolding read_mapped
  read_page_mapped fs idx size check_crc =
      let offset = fs.header.page_size + idx * fs.header.page_size in
      read_mapped fs.header check_crc (config.memory.map_read fs.mem offset size)
