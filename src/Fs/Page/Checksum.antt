-- ===== src/Fs/Page/Checksum.antt =====
-- The checksum trailer of a page in src/base/SimpleFlashFsBase.h.
use simpleflashfs.Prelude.{
  ℕ, ◌+◌, ◌-◌, ◌^◌, ◌≤◌, ◌<◌, ◌≡◌, refl, ap, ◌∙◌, arith, true, some, List, ◌++◌, ==_iff, length,
  take, drop, length-append, length-take, take-append_self, drop-append_self, append-nil, drop_all,
}
use simpleflashfs.Bytes.{to_page}
use simpleflashfs.Bytes.Order.{of_page-to_page, length-to_page}
use simpleflashfs.Fs.Types.{Header, Config}
use simpleflashfs.Fs.Page.{ok, calc_page_checksum, get_page_checksum, add_page_checksum, check_page}
use simpleflashfs.Fs.Page.Copies.{put_lem}

module _ {S : Type 0} (config : Config S) (h : Header) where
  abbrev pub trailer : List ℕ → List ℕ
  trailer page = to_page config.host h.endianness 4 (config.crc32 (take (length page - 4) page))

  abbrev pub sealed : List ℕ → List ℕ
  sealed front = front ++ to_page config.host h.endianness 4 (config.crc32 front)

  sealed_body : (front : List ℕ) → length (sealed front) - 4 ≡ length front
  sealed_body front = omega (
    arith,
    length-append front (to_page config.host h.endianness 4 (config.crc32 front)),
    length-to_page config.host h.endianness 4 (config.crc32 front),
  )

  calc-sealed : (front : List ℕ) → calc_page_checksum config (sealed front) ≡ config.crc32 front
  unfolding calc_page_checksum
  calc-sealed front = ap config.crc32 (
      ap (λ (n : ℕ). take n (sealed front)) (sealed_body front)
      ∙ take-append_self front _ (length front) refl)

  get-sealed :
      (front : List ℕ)
      → config.crc32 front < 2 ^ 32
      → get_page_checksum config h (sealed front) ≡ config.crc32 front
  unfolding get_page_checksum
  get-sealed front word =
      rw (sealed_body front, drop-append_self front _ (length front) refl)
        (of_page-to_page config.host h.endianness 4 (config.crc32 front) word)

  -- Bytes behind which their checksum stands pass the check.
  pub check_page-sealed :
      (front : List ℕ)
      → config.crc32 front < 2 ^ 32
      → check_page config h true (sealed front) ≡ ok (sealed front)
  unfolding check_page
  check_page-sealed front word =
      rw
        (
          get-sealed front word,
          calc-sealed front,
          (==_iff (config.crc32 front) (config.crc32 front)).1 refl,
        )
        refl

  -- A page of four bytes or more takes a checksum: its last four bytes are replaced, the others
  -- stay, and the page then passes the check that reading makes.
  pub add_page_checksum_lem :
      (page : List ℕ)
      → 4 ≤ length page
      → ((bytes : List ℕ) → config.crc32 bytes < 2 ^ 32)
      → (p : List ℕ) × (add_page_checksum config h page ≡ some p)
        × (p ≡ take (length page - 4) page ++ trailer page)
        × (length p ≡ length page)
        × (check_page config h true p ≡ ok p)
  unfolding add_page_checksum
  add_page_checksum_lem page big crc_word =
      let (p, puts, shape, size) = put_lem body (trailer page) page (omega (arith, trailer_size)) in
      (p, puts, shape ∙ ending, size, passes p (shape ∙ ending) size)
    where
      body : ℕ
      body = length page - 4

      trailer_size : length (trailer page) ≡ 4
      trailer_size = length-to_page config.host h.endianness 4 (config.crc32 (take body page))

      ending :
          take body page ++ (trailer page ++ drop (body + length (trailer page)) page)
          ≡ take body page ++ trailer page
      ending =
          rw
            (
              drop_all page (body + length (trailer page)) (omega (arith, trailer_size)),
              append-nil (trailer page),
            )
            refl

      body_size : length (take body page) ≡ body
      body_size = omega (arith, length-take body page)

      passes :
          (p : List ℕ)
          → p ≡ take body page ++ trailer page
          → length p ≡ length page
          → check_page config h true p ≡ ok p
      passes p shape size =
          rw shape (check_page-sealed (take body page) (crc_word (take body page)))
