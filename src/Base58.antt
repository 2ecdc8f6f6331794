-- ===== src/Base58.antt =====
-- `base58Decode` and `base58OrHexToHex` of apps/api-gateway/src/routes.ts: the text forms of a
-- stealth key that the indexer may send.
pub mod Decode
pub mod Encode
pub mod RoundTrip
pub mod Keys
use g_pay.Base.{
  ℕ, zero, suc, ◌+◌, ◌*◌, ◌/◌, ◌%◌, Bool, Option, none, some, [], ◌∷◌, ◌++◌, reverse, Text, codes,
  ◌==◌, if◌then◌else◌, Outcome, returned, threw, ◌>>=◌, bad_base58_char,
}
use mathlib.Core.Option
use g_pay.Hex.{Bytes, bytes_to_hex, is_hex_32, to_lower_case}

abbrev pub b58_alphabet : Text
b58_alphabet = codes "123456789ABCDEFGHJKLMNPQRSTUVWXYZabcdefghijkmnopqrstuvwxyz"

-- `s.indexOf(ch)` of one character; none is -1.
unfoldable pub index_of : ℕ → Text → Option ℕ
index_of ch [] = none
index_of ch (c ∷ s) = if c == ch then some 0 else Option.map suc (index_of ch s)

-- The first loop: the number in base 58, behind `n`. (The loop goes over code points; what is not a
-- single code unit is not in the alphabet either way.)
unfoldable pub read_58 : ℕ → Text → Outcome ℕ
read_58 n [] = returned n
read_58 n (ch ∷ s) = elim (index_of ch b58_alphabet) [
  | none ↦ threw bad_base58_char
  | some idx ↦ read_58 (n * 58 + idx) s
]

-- The second loop: the bytes of `n`, the lowest first. Each round divides by 256, so `n` rounds are
-- enough, which Base58/Decode shows.
unfoldable pub push_bytes : ℕ → ℕ → Bytes
push_bytes zero n = []
push_bytes (suc fuel) n =
    let rest = push_bytes fuel (n / 256) in if n == 0 then [] else n % 256 ∷ rest

-- The third loop: a zero for each leading "1".
unfoldable pub leading_zeros : Text → Bytes
leading_zeros [] = []
leading_zeros (ch ∷ s) = let rest = leading_zeros s in if ch == b'1' then 0 ∷ rest else []

unfoldable pub base58_decode : Text → Outcome Bytes
base58_decode s = do n ← read_58 0 s; returned (reverse (push_bytes n n ++ leading_zeros s))

unfoldable pub base58_or_hex_to_hex : Text → Outcome Text
base58_or_hex_to_hex s =
    if is_hex_32 s
    then returned (to_lower_case s)
    else base58_decode s >>= λ decoded. returned (bytes_to_hex decoded)
