-- ===== src/Bytes.antt =====
-- Integers as bytes: `swapByteOrder`, `auto_endianess` and the copies to and from a page of
-- src/base/SimpleFlashFsBase.h. `memcpy` of an integer is its memory image on the host.
pub mod Image
pub mod Order
pub mod Tests
use simpleflashfs.Prelude.{
  ℕ, zero, suc, ◌+◌, ◌-◌, ◌*◌, ◌/◌, ◌%◌, ◌^◌, bit_and, bit_or, Bool, true, false, List, [], ◌∷◌,
  if◌then◌else◌,
}
use mathlib.Core.List.{reverse}

-- `Header::ENDIANNESS`, and the order of the host.
pub data Endianness : Type 0 where
  le be : Endianness

-- The loop of `swapByteOrder` at `i`, with `totalBytes - i` rounds left.
unfoldable pub swap_from : ℕ → ℕ → ℕ → ℕ → ℕ
swap_from zero i val swapped = swapped
swap_from (suc left) i val swapped =
    swap_from left (i + 1) val (bit_or swapped (bit_and (val / 2 ^ (8 * left)) 0xFF * 2 ^ (8 * i)))

-- For a type of `total_bytes` bytes.
unfoldable pub swap_byte_order : ℕ → ℕ → ℕ
unfolding swap_from
swap_byte_order total_bytes val = swap_from total_bytes 0 val 0

-- `swap_endianess`, of the host and the header.
unfoldable pub swap_endianess : Endianness → Endianness → Bool
swap_endianess le le = false
swap_endianess le be = true
swap_endianess be le = true
swap_endianess be be = false

unfoldable pub auto_endianess : Endianness → Endianness → ℕ → ℕ → ℕ
unfolding swap_endianess swap_byte_order
auto_endianess host header width val =
    if swap_endianess host header then swap_byte_order width val else val

-- Little-endian digits.
unfoldable pub little : ℕ → ℕ → List ℕ
little zero val = []
little (suc width) val = (val % 256) ∷ little width (val / 256)

unfoldable pub from_little : List ℕ → ℕ
from_little [] = 0
from_little (b ∷ bs) = b + 256 * from_little bs

-- The memory image of an integer on the host, and the integer of an image.
unfoldable pub image : Endianness → ℕ → ℕ → List ℕ
unfolding little
image le width val = little width val
image be width val = reverse (little width val)

unfoldable pub value : Endianness → List ℕ → ℕ
unfolding from_little
value le bytes = from_little bytes
value be bytes = from_little (reverse bytes)

-- The bytes that an integer takes in a page, and the integer read back from them.
unfoldable pub to_page : Endianness → Endianness → ℕ → ℕ → List ℕ
unfolding image auto_endianess
to_page host header width val = image host width (auto_endianess host header width val)

unfoldable pub of_page : Endianness → Endianness → ℕ → List ℕ → ℕ
unfolding value auto_endianess
of_page host header width bytes = auto_endianess host header width (value host bytes)
