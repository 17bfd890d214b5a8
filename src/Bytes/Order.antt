-- ===== src/Bytes/Order.antt =====
-- `swapByteOrder` of src/base/SimpleFlashFsBase.h reverses the bytes, for a type of any width, and
-- what it does to the integers in a page.
use mathlib.Core.List.{reverse, reverse-cons, reverse-reverse}
use native.Mathlib.Nat.{pow-suc, pow-succ', div-div-eq-div-mul, div-one}
use native.Mathlib.Numerals.{towards_suc}
use simpleflashfs.Prelude.{
  ℕ, zero, suc, ◌+◌, ◌*◌, ◌/◌, ◌%◌, ◌^◌, ◌<◌, ◌≤◌, ◌≡◌, refl, sym, ap, ◌∙◌, arith, List, [], ◌∷◌,
  length,
}
use simpleflashfs.Prelude.Mask.{bit_or_fields, bit_and_byte}
use simpleflashfs.Bytes.{
  Endianness, le, be, swap_from, swap_byte_order, swap_endianess, auto_endianess, little,
  from_little, image, value, to_page, of_page,
}
use simpleflashfs.Bytes.Image.{
  AllBytes, length-little, little-AllBytes, from_little-little, little-from_little, from_little-lt,
  AllBytes-reverse, length-reverse, from_little-append,
}

pow_eight : (n : ℕ) → 2 ^ (8 * suc n) ≡ 256 * 2 ^ (8 * n)
pow_eight n =
    let e : 8 * suc n ≡ 8 * n + 8 = omega arith in
    rw e (
      simp towards_suc (
        omega (
          arith,
          pow-suc 2 (suc (suc (suc (suc (suc (suc (suc (8 * n)))))))),
          pow-suc 2 (suc (suc (suc (suc (suc (suc (8 * n))))))),
          pow-suc 2 (suc (suc (suc (suc (suc (8 * n)))))),
          pow-suc 2 (suc (suc (suc (suc (8 * n))))),
          pow-suc 2 (suc (suc (suc (8 * n)))),
          pow-suc 2 (suc (suc (8 * n))),
          pow-suc 2 (suc (8 * n)),
          pow-suc 2 (8 * n),
        )))

pow_bytes : (n : ℕ) → 256 ^ n ≡ 2 ^ (8 * n)
pow_bytes zero = refl
pow_bytes (suc n) = rw (pow-succ' 256 n, pow_eight n, pow_bytes n)

div_eight : (v n : ℕ) → v / 2 ^ (8 * suc n) ≡ v / 256 / 2 ^ (8 * n)
div_eight v n = rw (pow_eight n) (sym (div-div-eq-div-mul v 256 (2 ^ (8 * n))))

-- The bytes of an integer, the highest one first.
big : ℕ → ℕ → ℕ
big zero v = 0
big (suc left) v = v / 2 ^ (8 * left) % 256 + 256 * big left v

swap_from-big :
    (left i v acc : ℕ) → acc < 2 ^ (8 * i) → swap_from left i v acc ≡ acc + 2 ^ (8 * i) * big left v
unfolding swap_from big
swap_from-big zero i v acc h = omega arith
swap_from-big (suc left) i v acc h =
    let x : ℕ = v / 2 ^ (8 * left) % 256 in
    let power : ℕ = 2 ^ (8 * i) in
    let e : i + 1 ≡ suc i = omega arith in
    let capped : x * power ≤ 255 * power = grind arith in
    rw (bit_and_byte (v / 2 ^ (8 * left)), bit_or_fields (8 * i) acc x h, e)
      (rw (swap_from-big left (suc i) v (acc + x * power) (omega (arith, pow_eight i)), pow_eight i)
        (omega arith))

-- The lowest byte, which is the last one.
big_low :
    (left v : ℕ)
    → v / 2 ^ (8 * left) % 256 + 256 * big left v ≡ big left (v / 256) + 256 ^ left * (v % 256)
unfolding big
big_low zero v = omega (arith, div-one v)
big_low (suc left) v = rw (div_eight v left, pow-succ' 256 left) (omega (arith, big_low left v))

big-reverse : (left v : ℕ) → big left v ≡ from_little (reverse (little left v))
unfolding big little from_little
big-reverse zero v = refl
big-reverse (suc left) v =
    rw
      (
        reverse-cons (v % 256) (little left (v / 256)),
        from_little-append (reverse (little left (v / 256))) (v % 256 ∷ []),
        ← big-reverse left (v / 256),
        length-reverse (little left (v / 256)),
        length-little left (v / 256),
      )
      (big_low left v ∙ omega arith)

swap_byte_order-value : (w v : ℕ) → swap_byte_order w v ≡ from_little (reverse (little w v))
unfolding swap_byte_order
swap_byte_order-value w v = swap_from-big w 0 v 0 (omega arith) ∙ omega (arith, big-reverse w v)

reversed-AllBytes : (w v : ℕ) → AllBytes (reverse (little w v))
reversed-AllBytes w v = AllBytes-reverse (little w v) (little-AllBytes w v)

reversed-length : (w v : ℕ) → length (reverse (little w v)) ≡ w
reversed-length w v = length-reverse (little w v) ∙ length-little w v

-- For a type of any width `swapByteOrder` reverses the bytes of its value.
pub little-swap_byte_order : (w v : ℕ) → little w (swap_byte_order w v) ≡ reverse (little w v)
little-swap_byte_order w v = rw (swap_byte_order-value w v) (
    ap (λ (n : ℕ). little n (from_little (reverse (little w v)))) (sym (reversed-length w v))
    ∙ little-from_little (reverse (little w v)) (reversed-AllBytes w v))

swap_byte_order-lt : (w v : ℕ) → swap_byte_order w v < 256 ^ w
swap_byte_order-lt w v = omega (
  arith,
  swap_byte_order-value w v,
  from_little-lt (reverse (little w v)) (reversed-AllBytes w v),
  ap (λ (n : ℕ). 256 ^ n) (reversed-length w v),
)

-- Swapping a value of the type twice gives it back.
pub swap_byte_order-twice : (w v : ℕ) → v < 256 ^ w → swap_byte_order w (swap_byte_order w v) ≡ v
swap_byte_order-twice w v h =
    swap_byte_order-value w (swap_byte_order w v)
    ∙ ap (λ (bs : List ℕ). from_little (reverse bs)) (little-swap_byte_order w v)
    ∙ ap from_little (reverse-reverse (little w v))
    ∙ from_little-little w v h

-- The order of the bytes that the header asks for.
abbrev pub stored : Endianness → ℕ → ℕ → List ℕ
stored le width v = little width v
stored be width v = reverse (little width v)

-- What is written to a page depends on the header's byte order alone, not on the host's.
to_page-stored :
    (host header : Endianness) (width v : ℕ) → to_page host header width v ≡ stored header width v
unfolding to_page image auto_endianess swap_endianess
to_page-stored le le width v = refl
to_page-stored le be width v = little-swap_byte_order width v
to_page-stored be le width v =
    ap reverse (little-swap_byte_order width v) ∙ reverse-reverse (little width v)
to_page-stored be be width v = refl

value-image :
    (host : Endianness) (width v : ℕ) → v < 256 ^ width → value host (image host width v) ≡ v
unfolding value image
value-image le width v h = from_little-little width v h
value-image be width v h =
    ap from_little (reverse-reverse (little width v)) ∙ from_little-little width v h

-- An integer that is written to a page is read back, on any host and for either byte order.
pub of_page-to_page :
    (host header : Endianness) (width v : ℕ)
    → v < 256 ^ width
    → of_page host header width (to_page host header width v) ≡ v
unfolding of_page to_page auto_endianess swap_endianess
of_page-to_page le le width v h = value-image le width v h
of_page-to_page le be width v h =
    ap (swap_byte_order width) (value-image le width _ (swap_byte_order-lt width v))
    ∙ swap_byte_order-twice width v h
of_page-to_page be le width v h =
    ap (swap_byte_order width) (value-image be width _ (swap_byte_order-lt width v))
    ∙ swap_byte_order-twice width v h
of_page-to_page be be width v h = value-image be width v h

pub length-to_page :
    (host header : Endianness) (width v : ℕ) → length (to_page host header width v) ≡ width
length-to_page host le width v = rw (to_page-stored host le width v) (length-little width v)
length-to_page host be width v = rw (to_page-stored host be width v) (reversed-length width v)
