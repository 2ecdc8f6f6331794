-- ===== src/Base58/Keys.antt =====
-- A 32-byte key in base 58 is shorter than the 64 digits of the hexadecimal form, so the two forms
-- that `base58OrHexToHex` accepts cannot be confused.
use mathlib.Core.List.{reverse-cons}
use g_pay.Base.{
  ℕ, zero, suc, ◌+◌, ◌*◌, ◌/◌, ◌%◌, ◌<◌, ◌≤◌, ◌≡◌, refl, sym, ap, ◌∙◌, true, false, [], ◌∷◌,
  reverse, arith, Text, replicate, returned, All, All-reverse, length, length-append,
  length-replicate,
}
use g_pay.Hex.{Bytes, bytes_to_hex, is_hex_32, hex_to_bytes}
use g_pay.Hex.Digits.{IsByte}
use g_pay.Hex.RoundTrip.{is_hex_32-hex_to_bytes}
use g_pay.Stealth.Encoding.{value_le}
use g_pay.Base58.{base58_or_hex_to_hex}
use g_pay.Base58.Encode.{char_58, write_58, count_zeros, value_be, base58_encode, write_58-zero}
use g_pay.Base58.RoundTrip.{
  drop_zeros, split_zeros, drop_zeros-IsByte, value_be-drop_zeros, base58_decode-encode,
}

-- 65536 to the power of `m`.
bound : ℕ → ℕ
bound zero = 1
bound (suc m) = 65536 * bound m

-- One round writes at most one character.
length-write_58_round :
    (f n : ℕ) (acc : Text) (k : ℕ)
    → ((g : ℕ) (acc' : Text) → length (write_58 g (n / 58) acc') ≤ length acc' + k)
    → length (write_58 f n acc) ≤ length acc + suc k
unfolding write_58
length-write_58_round zero n acc k h = omega arith
length-write_58_round (suc f) n acc k h = ground (arith, h f (char_58 (n % 58) ∷ acc))

-- Three base-58 digits hold more than two bytes.
length-write_58 :
    (m f n : ℕ) (acc : Text) → n < bound m → length (write_58 f n acc) ≤ length acc + 3 * m
unfolding bound
length-write_58 zero f n acc h =
    let z : n ≡ 0 = omega arith in rw (z, write_58-zero f acc) (omega arith)
length-write_58 (suc m) f n acc h =
    let third = λ (g : ℕ) (a : Text). length-write_58 m g (n / 58 / 58 / 58) a (omega arith) in
    let two = λ (g : ℕ) (a : Text). length-write_58_round g (n / 58 / 58) a (3 * m) third in
    let one = λ (g : ℕ) (a : Text). length-write_58_round g (n / 58) a (suc (3 * m)) two in
    omega (arith, length-write_58_round f n acc (suc (suc (3 * m))) one)

value_le-lt-bound : (bs : Bytes) → All IsByte bs → value_le bs < bound ((length bs + 1) / 2)
unfolding bound
value_le-lt-bound [] h = omega arith
value_le-lt-bound (b ∷ []) h = omega arith
value_le-lt-bound (b ∷ c ∷ bs) (hb, (hc, h)) =
    let e : (suc (suc (length bs)) + 1) / 2 ≡ suc ((length bs + 1) / 2) = omega arith in
    rw e (omega (arith, value_le-lt-bound bs h))

length-reverse : (bs : Bytes) → length (reverse bs) ≡ length bs
length-reverse [] = refl
length-reverse (b ∷ bs) =
    rw (reverse-cons b bs, length-append (reverse bs) (b ∷ [])) (omega (arith, length-reverse bs))

length-split_zeros : (bs : Bytes) → count_zeros bs + length (drop_zeros bs) ≡ length bs
length-split_zeros bs =
    sym (
      length-append (replicate (count_zeros bs) 0) (drop_zeros bs)
      ∙ ap (λ n. n + length (drop_zeros bs)) (length-replicate (count_zeros bs) 0))
    ∙ ap length (split_zeros bs)

-- The base-58 text of a 32-byte key has fewer than 64 characters.
length-base58_encode :
    (bs : Bytes) → All IsByte bs → length bs ≡ 32 → length (base58_encode bs) < 64
unfolding base58_encode
length-base58_encode bs h e =
    let rest = drop_zeros bs in
    let v = value_be bs in
    let low : v < bound ((length (reverse rest) + 1) / 2) =
      rw (value_be-drop_zeros bs)
        (value_le-lt-bound (reverse rest) (All-reverse IsByte rest (drop_zeros-IsByte bs h))) in
    let digits = length-write_58 ((length (reverse rest) + 1) / 2) v v [] low in
    omega (
      arith,
      digits,
      length-append (replicate (count_zeros bs) b'1') (write_58 v v []),
      length-replicate {A = ℕ} (count_zeros bs) b'1',
      length-reverse rest,
      length-split_zeros bs,
    )

-- A 32-byte stealth key that is reported in base 58 is looked up under the hexadecimal print of its
-- bytes.
pub base58_or_hex_to_hex-base58 :
    (bs : Bytes)
    → All IsByte bs
    → length bs ≡ 32
    → base58_or_hex_to_hex (base58_encode bs) ≡ returned (bytes_to_hex bs)
unfolding base58_or_hex_to_hex
base58_or_hex_to_hex-base58 bs h e =
    let short = length-base58_encode bs h e in
    let not_hex : is_hex_32 (base58_encode bs) ≡ false = unfold is_hex_32 in ground arith in
    rw (not_hex, base58_decode-encode bs h)

-- One that it reports in hexadecimal, in either case, is looked up under its lower case.
pub base58_or_hex_to_hex-hex :
    (s : Text)
    → is_hex_32 s ≡ true
    → base58_or_hex_to_hex s ≡ returned (bytes_to_hex (hex_to_bytes s))
unfolding base58_or_hex_to_hex
base58_or_hex_to_hex-hex s h = rw h (ap returned (sym (is_hex_32-hex_to_bytes s h).2))
