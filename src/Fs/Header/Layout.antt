-- ===== src/Fs/Header/Layout.antt =====
-- The header page that `write( Header )` of src/base/SimpleFlashFsBase.h makes.
use simpleflashfs.Prelude.{
  ℕ, ◌+◌, ◌-◌, ◌≤◌, ◌≡◌, refl, ap, ◌∙◌, arith, some, List, [], ◌++◌, length, length-append,
  append_assoc,
}
use simpleflashfs.Bytes.{Endianness, le, be, to_page}
use simpleflashfs.Bytes.Order.{length-to_page}
use simpleflashfs.Fs.Types.{Header, Config}
use simpleflashfs.Fs.Page.{zero_page, put, add_page_checksum}
use simpleflashfs.Fs.Page.Copies.{put-zeros}
use simpleflashfs.Fs.Inode.{Writer}
use simpleflashfs.Fs.Header.{
  magick_string, endianness_mark, checksum_code, add, add_numbers, header_page,
}

pub length-endianness_mark : (e : Endianness) → length (endianness_mark e) ≡ 2
length-endianness_mark le = refl
length-endianness_mark be = refl

module _ {S : Type 0} (config : Config S) (h : Header) where
  abbrev pub number : ℕ → ℕ → List ℕ
  number width val = to_page config.host h.endianness width val

  -- The number fields in the order of the Readme.
  abbrev pub numbers : List ℕ
  numbers =
      number 2 h.version
      ++ (number 4 h.page_size
          ++ (number 8 h.filesystem_size
              ++ (number 4 h.max_inodes
                  ++ (number 2 h.max_path_len ++ number 2 (checksum_code h.crc_checksum_type)))))

  abbrev pub header_layout : List ℕ
  header_layout = magick_string ++ (endianness_mark h.endianness ++ numbers)

  pub length-numbers : length numbers ≡ 22
  length-numbers =
      rw
        (
          length-append, length-append, length-append, length-append, length-append, length-to_page,
          length-to_page, length-to_page, length-to_page, length-to_page, length-to_page,
        )
        refl

  pub length-header_layout : length header_layout ≡ 37
  length-header_layout =
      rw
        (
          length-append magick_string (endianness_mark h.endianness ++ numbers),
          length-append (endianness_mark h.endianness) numbers,
          length-endianness_mark h.endianness,
          length-numbers,
        )
        refl

  abbrev at : List ℕ → ℕ → Writer
  at done room = record { page = done ++ zero_page room; pos = length done }

  add-at :
      (width val : ℕ) (done : List ℕ) (room : ℕ)
      → width ≤ room
      → add config h width val (at done room) ≡ some (at (done ++ number width val) (room - width))
  unfolding add
  add-at width val done room fits =
      rw
        (
          put-zeros done (number width val) room (length done) refl
              (omega (arith, length-to_page config.host h.endianness width val)),
          length-to_page config.host h.endianness width val,
          length-append done (number width val),
          length-to_page config.host h.endianness width val,
        )
        refl

  add_numbers-at :
      (done : List ℕ) (room : ℕ)
      → 22 ≤ room
      → add_numbers config h (at done room)
        ≡ some
            (record { page = done ++ (numbers ++ zero_page (room - 22)); pos = length done + 22 })
  unfolding add_numbers
  add_numbers-at done room big =
      rw
        (
          add-at 2 h.version done room (omega arith),
          add-at 4 h.page_size _ (room - 2) (omega arith),
          add-at 8 h.filesystem_size _ (room - 2 - 4) (omega arith),
          add-at 4 h.max_inodes _ (room - 2 - 4 - 8) (omega arith),
          add-at 2 h.max_path_len _ (room - 2 - 4 - 8 - 4) (omega arith),
          add-at 2 (checksum_code h.crc_checksum_type) _ (room - 2 - 4 - 8 - 4 - 2) (omega arith),
        )
        (ap some (ends (omega arith)))
    where
      all : List ℕ
      all =
          (((((done ++ number 2 h.version) ++ number 4 h.page_size) ++ number 8 h.filesystem_size)
              ++ number 4 h.max_inodes)
            ++ number 2 h.max_path_len)
          ++ number 2 (checksum_code h.crc_checksum_type)

      flat : all ≡ done ++ numbers
      flat = simp append_assoc

      ends :
          room - 2 - 4 - 8 - 4 - 2 - 2 ≡ room - 22
          → at all (room - 2 - 4 - 8 - 4 - 2 - 2)
            ≡ record { page = done ++ (numbers ++ zero_page (room - 22)); pos = length done + 22 }
      ends e =
          rw
            (
              e,
              flat,
              append_assoc done numbers (zero_page (room - 22)),
              length-append done numbers,
              length-numbers,
            )
            refl

  put-magic :
      h.magic_string ≡ magick_string
      → 13 ≤ h.page_size
      → put 0 h.magic_string (zero_page h.page_size)
        ≡ some (magick_string ++ zero_page (h.page_size - 13))
  put-magic magic big =
      ap (λ (m : List ℕ). put 0 m (zero_page h.page_size)) magic
      ∙ put-zeros [] magick_string h.page_size 0 refl (omega arith)

  put-mark :
      (room : ℕ)
      → 2 ≤ room
      → put 13 (endianness_mark h.endianness) (magick_string ++ zero_page room)
        ≡ some ((magick_string ++ endianness_mark h.endianness) ++ zero_page (room - 2))
  put-mark room big =
      put-zeros magick_string (endianness_mark h.endianness) room 13 refl
        (omega (arith, length-endianness_mark h.endianness))
      ∙ ap
          (λ (n : ℕ).
            some ((magick_string ++ endianness_mark h.endianness) ++ zero_page (room - n)))
          (length-endianness_mark h.endianness)

  marks_size : length (magick_string ++ endianness_mark h.endianness) ≡ 15
  marks_size =
      rw
        (
          length-append magick_string (endianness_mark h.endianness),
          length-endianness_mark h.endianness,
        )
        refl

  add_numbers-behind :
      (done : List ℕ) (room pos : ℕ)
      → 22 ≤ room
      → length done ≡ pos
      → add_numbers config h (record { page = done ++ zero_page room; pos = pos })
        ≡ some (record { page = done ++ (numbers ++ zero_page (room - 22)); pos = pos + 22 })
  add_numbers-behind done room pos big e = rw (← e) (add_numbers-at done room big)

  -- A header that fits its page is written in this layout, with zeros up to the checksum.
  pub header_page-layout :
      h.magic_string ≡ magick_string
      → 37 ≤ h.page_size
      → header_page config h
        ≡ add_page_checksum config h (header_layout ++ zero_page (h.page_size - 37))
  unfolding header_page
  header_page-layout magic big =
      rw
        (
          put-magic magic (omega arith),
          put-mark (h.page_size - 13) (omega arith),
          add_numbers-behind (magick_string ++ endianness_mark h.endianness) (h.page_size - 13 - 2)
              15 (omega arith) marks_size,
        )
        (ap (add_page_checksum config h) (whole (omega arith)))
    where
      whole :
          h.page_size - 13 - 2 - 22 ≡ h.page_size - 37
          → (magick_string ++ endianness_mark h.endianness)
              ++ (numbers ++ zero_page (h.page_size - 13 - 2 - 22))
            ≡ header_layout ++ zero_page (h.page_size - 37)
      whole e =
          rw (e, append_assoc (endianness_mark h.endianness) numbers (zero_page (h.page_size - 37)))
            refl
