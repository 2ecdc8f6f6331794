-- ===== src/Radix/Decimal.antt =====
-- `BigInt` reads back what `toString` prints in radix ten.
use native.Mathlib.Nat.{div-add-mod', mod-lt, div-lt_self}
use g_pay.Base.{
  ℕ, zero, suc, ◌+◌, ◌-◌, ◌*◌, ◌/◌, ◌%◌, ◌≤◌, ◌<◌, ◌≡◌, ap, ◌∙◌, inl, inr, [], ◌∷◌, arith, Text,
  ltb, Bool-cases,
}
use g_pay.Radix.{digit_char, radix_digits, to_string, big_int}

digit_char-sub : (d : ℕ) → d < 10 → digit_char d - b'0' ≡ d
unfolding digit_char
digit_char-sub d h = ground arith

big_int-radix_digits :
    (f n : ℕ) (acc : Text) → n < f → big_int 0 (radix_digits f 10 n acc) ≡ big_int n acc
unfolding radix_digits big_int
big_int-radix_digits zero n acc h = elim h [ ]
big_int-radix_digits (suc f) n acc h = elim (Bool-cases (ltb n 10)) [
  | inl last ↦
      let small : n < 10 = ground arith in
      rw last (ap (λ v. big_int v acc) (omega (arith, digit_char-sub n small)))
  | inr more ↦
      let large : 10 ≤ n = ground arith in
      let shrinks : n / 10 < n = div-lt_self (omega arith) (omega arith) in
      let low : n % 10 < 10 = mod-lt n (omega arith) in
      rw more (
        big_int-radix_digits f (n / 10) (digit_char (n % 10) ∷ acc) (omega arith)
        ∙ ap (λ v. big_int v acc)
            (ap (λ (d : ℕ). n / 10 * 10 + d) (digit_char-sub (n % 10) low) ∙ div-add-mod' n 10))
]

-- Reading a number's decimal text gives the number.
pub big_int-to_string : (n : ℕ) → big_int 0 (to_string 10 n) ≡ n
unfolding to_string big_int
big_int-to_string n = big_int-radix_digits (suc n) n [] (omega arith)
