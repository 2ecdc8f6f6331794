-- ===== src/Hex.antt =====
-- Bytes and hexadecimal text: `bytesToHex` and `hexToBytes`, which apps/api-gateway/src/routes.ts
-- declares and index.ts, routes/demo.ts, store/memory.ts and store/postgres.ts repeat, with the
-- regular expression `HEX_32`. The pieces of JavaScript that they call are written out:
-- `parseInt(s, 16)` stored into a `Uint8Array`, `toString(16)`, `padStart` and `toLowerCase`.
pub mod Digits
pub mod RoundTrip
pub mod Print
mod Tests
use g_pay.Base.{
  ℕ, ◌+◌, ◌-◌, ◌*◌, ◌/◌, ◌%◌, Bool, true, false, ◌&&◌, ◌||◌, Option, none, some, List, [], ◌∷◌,
  ◌++◌, map, Text, length, all, replicate, ltb, leb, ◌==◌, if◌then◌else◌,
}

abbrev pub Bytes : Type 0
Bytes = List ℕ

-- The value of a hexadecimal digit, of either case.
unfoldable pub hex_digit : ℕ → Option ℕ
hex_digit c =
    if leb b'0' c && leb c b'9'
    then some (c - b'0')
    else if leb b'a' c && leb c b'f'
    then some (c - 87)
    else if leb b'A' c && leb c b'F'
    then some (c - 55)
    else none

unfoldable pub is_hex_digit : ℕ → Bool
unfolding hex_digit
is_hex_digit c = elim (hex_digit c) [ some d ↦ true | none ↦ false ]

-- WhiteSpace and LineTerminator of the language.
unfoldable pub is_white : ℕ → Bool
is_white c =
    leb 9 c && leb c 13
    || c == 32
    || c == 160
    || c == 0x1680
    || leb 0x2000 c && leb c 0x200a
    || c == 0x2028
    || c == 0x2029
    || c == 0x202f
    || c == 0x205f
    || c == 0x3000
    || c == 0xfeff

-- The leading white space of `parseInt`'s argument is dropped.
strip_white : Text → Text
strip_white [] = []
strip_white (c ∷ s) = if is_white c then strip_white s else c ∷ s

strip_0x : Text → Text
strip_0x (c ∷ d ∷ s) = if c == b'0' && (d == b'x' || d == b'X') then s else c ∷ d ∷ s
strip_0x s = s

-- The longest prefix of hexadecimal digits, read behind `n`. An empty one is NaN, stored as 0.
hex_prefix : ℕ → Text → ℕ
hex_prefix n [] = n
hex_prefix n (c ∷ s) = elim (hex_digit c) [ none ↦ n | some d ↦ hex_prefix (n * 16 + d) s ]

to_uint8 : Bool → ℕ → ℕ
to_uint8 negative v = if negative then (256 - v % 256) % 256 else v % 256

signed : Text → ℕ
signed [] = 0
signed (c ∷ s) =
    if c == b'-'
    then to_uint8 true (hex_prefix 0 (strip_0x s))
    else if c == b'+'
    then to_uint8 false (hex_prefix 0 (strip_0x s))
    else to_uint8 false (hex_prefix 0 (strip_0x (c ∷ s)))

-- `out[i] = parseInt(s, 16)`: the byte that is stored.
unfoldable pub parse_byte : Text → ℕ
unfolding hex_digit is_white strip_white strip_0x hex_prefix to_uint8 signed
parse_byte s = signed (strip_white s)

-- One round for each pair of characters; an odd last one is not read, since the array's length is
-- `hex.length / 2` rounded down.
unfoldable pub hex_to_bytes : Text → Bytes
unfolding parse_byte
hex_to_bytes (c ∷ d ∷ s) = parse_byte (c ∷ d ∷ []) ∷ hex_to_bytes s
hex_to_bytes s = []

unfoldable pub hex_char : ℕ → ℕ
hex_char d = if ltb d 10 then b'0' + d else 87 + d

-- `x.toString(16)` of a byte.
to_string_16 : ℕ → Text
to_string_16 x = if ltb x 16 then hex_char x ∷ [] else hex_char (x / 16) ∷ hex_char (x % 16) ∷ []

-- `s.padStart(2, "0")`.
pad_start : Text → Text
pad_start s = replicate (2 - length s) b'0' ++ s

unfoldable pub byte_to_hex : ℕ → Text
unfolding hex_char to_string_16 pad_start
byte_to_hex x = pad_start (to_string_16 x)

unfoldable pub bytes_to_hex : Bytes → Text
unfolding byte_to_hex
bytes_to_hex [] = []
bytes_to_hex (x ∷ bs) = byte_to_hex x ++ bytes_to_hex bs

-- `/^[0-9a-f]{64}$/i.test(s)`.
unfoldable pub is_hex_32 : Text → Bool
unfolding is_hex_digit
is_hex_32 s = length s == 64 && all is_hex_digit s

unfoldable pub lower_char : ℕ → ℕ
lower_char c = if leb b'A' c && leb c b'Z' then c + 32 else c

-- `s.toLowerCase()`, which the program calls on ASCII text only.
unfoldable pub to_lower_case : Text → Text
unfolding lower_char
to_lower_case s = map lower_char s
