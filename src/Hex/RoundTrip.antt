-- ===== src/Hex/RoundTrip.antt =====
-- Bytes survive the passage through hexadecimal text, and text up to the case of its letters.
use g_pay.Base.{
  ℕ, ◌+◌, ◌*◌, ◌/◌, ◌%◌, ◌<◌, ◌≡◌, refl, ap, sym, ◌∙◌, true, [], ◌∷◌, arith, Text, All, length, all,
}
use g_pay.Hex.{
  Bytes, is_hex_digit, parse_byte, hex_to_bytes, hex_char, bytes_to_hex, is_hex_32, lower_char,
  to_lower_case,
}
use g_pay.Hex.Digits.{
  IsByte, parse_byte-IsByte, is_hex_digit_iff, hex_digit-lt, hex_digit-hex_char, hex_char-hex_digit,
  parse_byte_lem, byte_to_hex_lem,
}

pub hex_to_bytes-cons :
    (c d : ℕ) (s : Text) → hex_to_bytes (c ∷ d ∷ s) ≡ parse_byte (c ∷ d ∷ []) ∷ hex_to_bytes s
unfolding hex_to_bytes
hex_to_bytes-cons c d s = refl

-- A byte is printed as two digits.
pub bytes_to_hex-cons :
    (x : ℕ) (bs : Bytes)
    → bytes_to_hex (x ∷ bs) ≡ hex_char (x / 16) ∷ hex_char (x % 16) ∷ bytes_to_hex bs
unfolding bytes_to_hex
bytes_to_hex-cons x bs = rw (byte_to_hex_lem x)

parse_byte-hex_char :
    (x : ℕ) → x < 256 → parse_byte (hex_char (x / 16) ∷ hex_char (x % 16) ∷ []) ≡ x
parse_byte-hex_char x h =
    parse_byte_lem _ _ (x / 16) (x % 16) (hex_digit-hex_char (x / 16) (omega arith))
      (hex_digit-hex_char (x % 16) (omega arith))
    ∙ omega arith

-- Decoding the hexadecimal print of bytes gives the bytes back.
pub hex_to_bytes-bytes_to_hex : (bs : Bytes) → All IsByte bs → hex_to_bytes (bytes_to_hex bs) ≡ bs
hex_to_bytes-bytes_to_hex [] h = unfold bytes_to_hex hex_to_bytes in refl
hex_to_bytes-bytes_to_hex (x ∷ bs) (hx, h) = rw (bytes_to_hex-cons x bs) (
    rw (hex_to_bytes-cons (hex_char (x / 16)) (hex_char (x % 16)) (bytes_to_hex bs))
      (cc (parse_byte-hex_char x hx, hex_to_bytes-bytes_to_hex bs h)))

-- So two byte strings with one print are equal.
pub bytes_to_hex-injective :
    (bs cs : Bytes) → All IsByte bs → All IsByte cs → bytes_to_hex bs ≡ bytes_to_hex cs → bs ≡ cs
bytes_to_hex-injective bs cs hb hc e =
    sym (hex_to_bytes-bytes_to_hex bs hb) ∙ ap hex_to_bytes e ∙ hex_to_bytes-bytes_to_hex cs hc

-- Every element that decoding stores is a byte.
pub hex_to_bytes-IsByte : (s : Text) → All IsByte (hex_to_bytes s)
hex_to_bytes-IsByte [] = unfold hex_to_bytes in tt
hex_to_bytes-IsByte (c ∷ []) = unfold hex_to_bytes in tt
hex_to_bytes-IsByte (c ∷ d ∷ s) =
    rw (hex_to_bytes-cons c d s) (parse_byte-IsByte (c ∷ d ∷ []), hex_to_bytes-IsByte s)

-- Decoding halves the length, rounded down.
pub length-hex_to_bytes : (s : Text) → length (hex_to_bytes s) ≡ length s / 2
length-hex_to_bytes [] = unfold hex_to_bytes in refl
length-hex_to_bytes (c ∷ []) = unfold hex_to_bytes in refl
length-hex_to_bytes (c ∷ d ∷ s) =
    rw (hex_to_bytes-cons c d s) (omega (arith, length-hex_to_bytes s))

-- A print has two characters for each byte.
pub length-bytes_to_hex : (bs : Bytes) → length (bytes_to_hex bs) ≡ 2 * length bs
length-bytes_to_hex [] = unfold bytes_to_hex in refl
length-bytes_to_hex (x ∷ bs) = rw (bytes_to_hex-cons x bs) (omega (arith, length-bytes_to_hex bs))

hex_char-parse_byte :
    (c d : ℕ)
    → is_hex_digit c ≡ true
    → is_hex_digit d ≡ true
    → let x = parse_byte (c ∷ d ∷ []) in
      (hex_char (x / 16) ≡ lower_char c) × (hex_char (x % 16) ≡ lower_char d)
hex_char-parse_byte c d hc hd =
    let (x, ex) = is_hex_digit_iff c hc in
    let (y, ey) = is_hex_digit_iff d hd in
    let small : y < 16 = hex_digit-lt d y ey in
    let hi : (x * 16 + y) / 16 ≡ x = omega arith in
    let lo : (x * 16 + y) % 16 ≡ y = omega arith in
    rw (parse_byte_lem c d x y ex ey)
      (rw (hi, lo) (hex_char-hex_digit c x ex, hex_char-hex_digit d y ey))

-- Printing what was decoded from an even number of hexadecimal digits gives them in lower case.
pub bytes_to_hex-hex_to_bytes :
    (s : Text)
    → all is_hex_digit s ≡ true
    → length s % 2 ≡ 0
    → bytes_to_hex (hex_to_bytes s) ≡ to_lower_case s
unfolding to_lower_case
bytes_to_hex-hex_to_bytes [] h e = unfold bytes_to_hex hex_to_bytes in refl
bytes_to_hex-hex_to_bytes (c ∷ []) h e = absurd (omega arith)
bytes_to_hex-hex_to_bytes (c ∷ d ∷ s) h e =
    let hc : is_hex_digit c ≡ true = ground arith in
    let hd : is_hex_digit d ≡ true = ground arith in
    let hs : all is_hex_digit s ≡ true = ground arith in
    let (p, q) = hex_char-parse_byte c d hc hd in
    rw (hex_to_bytes-cons c d s) (
      rw (bytes_to_hex-cons (parse_byte (c ∷ d ∷ [])) (hex_to_bytes s))
        (cc (p, q, bytes_to_hex-hex_to_bytes s hs (omega arith))))

-- What HEX_32 accepts decodes to 32 bytes, whose print is the text in lower case.
pub is_hex_32-hex_to_bytes :
    (s : Text)
    → is_hex_32 s ≡ true
    → (length (hex_to_bytes s) ≡ 32)
      × All IsByte (hex_to_bytes s)
      × (bytes_to_hex (hex_to_bytes s) ≡ to_lower_case s)
is_hex_32-hex_to_bytes s h =
    let long : length s ≡ 64 = unfold is_hex_32 in ground arith in
    let digits : all is_hex_digit s ≡ true = unfold is_hex_32 in ground arith in
    (
      omega (arith, length-hex_to_bytes s),
      hex_to_bytes-IsByte s,
      bytes_to_hex-hex_to_bytes s digits (omega arith),
    )
