-- ===== src/Hex/Print.antt =====
-- What the hexadecimal print of bytes looks like.
use g_pay.Base.{ℕ, ◌/◌, ◌%◌, ◌<◌, ◌≡◌, refl, true, [], ◌∷◌, arith, All, length, all}
use g_pay.Hex.{Bytes, is_hex_digit, hex_char, bytes_to_hex, is_hex_32}
use g_pay.Hex.Digits.{IsByte, hex_digit-hex_char}
use g_pay.Hex.RoundTrip.{bytes_to_hex-cons, length-bytes_to_hex}

is_hex_digit-hex_char : (d : ℕ) → d < 16 → is_hex_digit (hex_char d) ≡ true
unfolding is_hex_digit
is_hex_digit-hex_char d h = rw (hex_digit-hex_char d h, is_hex_digit) refl

pub all-is_hex_digit-bytes_to_hex :
    (bs : Bytes) → All IsByte bs → all is_hex_digit (bytes_to_hex bs) ≡ true
all-is_hex_digit-bytes_to_hex [] h = unfold bytes_to_hex in refl
all-is_hex_digit-bytes_to_hex (x ∷ bs) (hx, h) =
    let hi : is_hex_digit (hex_char (x / 16)) ≡ true =
      is_hex_digit-hex_char (x / 16) (omega arith) in
    let lo : is_hex_digit (hex_char (x % 16)) ≡ true =
      is_hex_digit-hex_char (x % 16) (omega arith) in
    rw (bytes_to_hex-cons x bs, hi, lo) (all-is_hex_digit-bytes_to_hex bs h)

-- The print of 32 bytes passes HEX_32.
pub is_hex_32-bytes_to_hex :
    (bs : Bytes) → All IsByte bs → length bs ≡ 32 → is_hex_32 (bytes_to_hex bs) ≡ true
unfolding is_hex_32
is_hex_32-bytes_to_hex bs h long =
    let size : length (bytes_to_hex bs) ≡ 64 = omega (arith, length-bytes_to_hex bs) in
    rw (size, all-is_hex_digit-bytes_to_hex bs h) refl
