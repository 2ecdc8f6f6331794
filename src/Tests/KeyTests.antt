-- ===== src/Tests/KeyTests.antt =====
-- Texts that the gateway reads and prints keys and numbers in.
use g_pay.Base.{◌≡◌, refl, true, [], ◌∷◌, Text, codes, arith, All, replicate, returned}
use g_pay.Hex.{Bytes, bytes_to_hex, hex_to_bytes, is_hex_32}
use g_pay.Hex.Digits.{IsByte}
use g_pay.Radix.{to_string}
use g_pay.Radix.Laws.{value, value-to_string}
use g_pay.Base58.{base58_decode, base58_or_hex_to_hex}
use g_pay.Base58.Encode.{base58_encode}
use g_pay.Base58.RoundTrip.{base58_decode-encode}
use g_pay.Base58.Keys.{base58_or_hex_to_hex-hex}

abbrev zeros_first : Bytes
zeros_first = 0 ∷ 0 ∷ 57 ∷ 255 ∷ []

abbrev key_32 : Bytes
key_32 = 5 ∷ replicate 31 9

abbrev upper_key : Text
upper_key = codes "616E237719716e25ead63d831f9117f79b5aa05af8be30ff0eddb3dc43e8bdcf"

bytes_of_key : All IsByte key_32
bytes_of_key = omega arith

upper_key_accepted : is_hex_32 upper_key ≡ true
unfolding is_hex_32
upper_key_accepted = refl

base58_decode-encode_example : base58_decode (base58_encode zeros_first) ≡ returned zeros_first
base58_decode-encode_example = base58_decode-encode zeros_first (omega arith)

base58_or_hex_to_hex-hex_example :
    base58_or_hex_to_hex upper_key ≡ returned (bytes_to_hex (hex_to_bytes upper_key))
base58_or_hex_to_hex-hex_example = base58_or_hex_to_hex-hex upper_key upper_key_accepted

value-to_string_example : value 36 0 (to_string 36 46655) ≡ 46655
value-to_string_example = value-to_string 36 (omega arith) (omega arith) 46655
