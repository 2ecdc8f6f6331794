-- ===== src/Hex/Digits.antt =====
-- One byte as two hexadecimal digits.
use g_pay.Base.{ℕ, ◌+◌, ◌*◌, ◌/◌, ◌%◌, ◌<◌, ◌≡◌, Bool, true, false, some, [], ◌∷◌, arith, Text}
use g_pay.Hex.{
  hex_digit, is_hex_digit, is_white, strip_white, strip_0x, hex_prefix, to_uint8, signed,
  parse_byte, hex_char, byte_to_hex, lower_char,
}

abbrev pub IsByte : ℕ → Type 0
IsByte x = x < 256

to_uint8-IsByte : (n : Bool) (v : ℕ) → IsByte (to_uint8 n v)
unfolding to_uint8
to_uint8-IsByte n v = ground arith

signed-IsByte : (s : Text) → IsByte (signed s)
unfolding signed
signed-IsByte [] = omega arith
signed-IsByte (c ∷ s) = ground (
  arith,
  to_uint8-IsByte true (hex_prefix 0 (strip_0x s)),
  to_uint8-IsByte false (hex_prefix 0 (strip_0x s)),
  to_uint8-IsByte false (hex_prefix 0 (strip_0x (c ∷ s))),
)

-- Whatever the text, a byte is stored.
pub parse_byte-IsByte : (s : Text) → IsByte (parse_byte s)
unfolding parse_byte
parse_byte-IsByte s = signed-IsByte (strip_white s)

pub is_hex_digit_iff : (c : ℕ) → is_hex_digit c ≡ true → (d : ℕ) × (hex_digit c ≡ some d)
unfolding is_hex_digit
is_hex_digit_iff c h = ground arith

pub hex_digit-lt : (c d : ℕ) → hex_digit c ≡ some d → d < 16
unfolding hex_digit
hex_digit-lt c d h = ground arith

pub hex_digit-hex_char : (d : ℕ) → d < 16 → hex_digit (hex_char d) ≡ some d
unfolding hex_digit hex_char
hex_digit-hex_char d h = ground arith

pub hex_char-hex_digit : (c d : ℕ) → hex_digit c ≡ some d → hex_char d ≡ lower_char c
unfolding hex_digit hex_char lower_char
hex_char-hex_digit c d h = ground arith

-- A digit is neither white space nor a sign, and never the `x` of a prefix `0x`.
strip_white-hex_digit : (c x : ℕ) (s : Text) → hex_digit c ≡ some x → strip_white (c ∷ s) ≡ c ∷ s
unfolding strip_white is_white hex_digit
strip_white-hex_digit c x s h = ground arith

signed-hex_digit :
    (c x : ℕ) (s : Text)
    → hex_digit c ≡ some x
    → signed (c ∷ s) ≡ to_uint8 false (hex_prefix 0 (strip_0x (c ∷ s)))
unfolding signed hex_digit
signed-hex_digit c x s h = ground arith

strip_0x-hex_digit :
    (c d y : ℕ) (s : Text) → hex_digit d ≡ some y → strip_0x (c ∷ d ∷ s) ≡ c ∷ d ∷ s
unfolding strip_0x hex_digit
strip_0x-hex_digit c d y s h = ground arith

hex_prefix-pair :
    (c d x y : ℕ)
    → hex_digit c ≡ some x
    → hex_digit d ≡ some y
    → to_uint8 false (hex_prefix 0 (c ∷ d ∷ [])) ≡ x * 16 + y
unfolding hex_prefix to_uint8
hex_prefix-pair c d x y h k = ground (arith, hex_digit-lt c x h, hex_digit-lt d y k)

-- Two digits are read as the byte that they spell.
pub parse_byte_lem :
    (c d x y : ℕ)
    → hex_digit c ≡ some x
    → hex_digit d ≡ some y
    → parse_byte (c ∷ d ∷ []) ≡ x * 16 + y
parse_byte_lem c d x y h k =
    unfold parse_byte in
    rw (strip_white-hex_digit c x (d ∷ []) h) (
      rw (signed-hex_digit c x (d ∷ []) h)
        (rw (strip_0x-hex_digit c d y [] k) (hex_prefix-pair c d x y h k)))

pub byte_to_hex_lem : (x : ℕ) → byte_to_hex x ≡ hex_char (x / 16) ∷ hex_char (x % 16) ∷ []
unfolding byte_to_hex
byte_to_hex_lem x = ground arith
