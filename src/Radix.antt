-- ===== src/Radix.antt =====
-- `n.toString(radix)` and `String(n)` on natural numbers, as the gateway uses them for ids, labels
-- and amounts.
pub mod Laws
pub mod Decimal
use g_pay.Base.{
  ℕ, zero, suc, ◌+◌, ◌-◌, ◌*◌, ◌/◌, ◌%◌, Bool, [], ◌∷◌, Text, false, all, ◌&&◌, ltb, leb,
  if◌then◌else◌,
}

unfoldable pub digit_char : ℕ → ℕ
digit_char d = if ltb d 10 then b'0' + d else 87 + d

-- The digits of `n` in front of `acc`. Each round divides by the radix, so `n + 1` rounds are
-- enough; `Radix.Laws` reads the result back.
radix_digits : ℕ → ℕ → ℕ → Text → Text
radix_digits zero r n acc = acc
radix_digits (suc f) r n acc =
    let rest = radix_digits f r (n / r) (digit_char (n % r) ∷ acc) in
    if ltb n r then digit_char n ∷ acc else rest

unfoldable pub to_string : ℕ → ℕ → Text
unfolding digit_char radix_digits
to_string r n = radix_digits (suc n) r n []

-- `BigInt(s)` of a text of decimal digits, read behind `n`.
unfoldable pub big_int : ℕ → Text → ℕ
big_int n [] = n
big_int n (c ∷ s) = big_int (n * 10 + (c - b'0')) s

-- `/^\d+$/.test(s)`
unfoldable pub is_digits : Text → Bool
is_digits [] = false
is_digits (c ∷ s) = all (λ d. leb b'0' d && leb d b'9') (c ∷ s)
