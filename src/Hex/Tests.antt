-- ===== src/Hex/Tests.antt =====
-- Runs of the hexadecimal functions, and the theorems at concrete inputs.
use g_pay.Base.{◌≡◌, refl, [], ◌∷◌, true, Text, codes}
use g_pay.Hex.{Bytes, hex_to_bytes, bytes_to_hex, is_hex_32}

abbrev sample : Bytes
sample = 0 ∷ 10 ∷ 171 ∷ 255 ∷ []

abbrev key_text : Text
key_text = codes "616E237719716e25ead63d831f9117f79b5aa05af8be30ff0eddb3dc43e8bdcf"

prints : bytes_to_hex sample ≡ codes "000aabff"
unfolding bytes_to_hex
prints = refl

-- What `parseInt` makes of pairs that are no two digits.
odd_pairs : hex_to_bytes (codes "-1+5 70xg1z") ≡ 255 ∷ 5 ∷ 7 ∷ 0 ∷ 0 ∷ []
unfolding hex_to_bytes
odd_pairs = refl

key_text_accepted : is_hex_32 key_text ≡ true
unfolding is_hex_32
key_text_accepted = refl
