-- ===== src/Radix/Laws.antt =====
-- A print in a radix from 2 to 36 is read back as the number, so distinct numbers print apart.
use native.Mathlib.Nat.{div-add-mod', mod-lt, div-lt_self}
use g_pay.Base.{
  ℕ, zero, suc, ◌+◌, ◌-◌, ◌*◌, ◌/◌, ◌%◌, ◌≤◌, ◌<◌, ◌≡◌, sym, ap, ◌∙◌, inl, inr, [], ◌∷◌, arith,
  Text, ltb, leb, if◌then◌else◌, Bool-cases,
}
use g_pay.Radix.{digit_char, radix_digits, to_string}

unfoldable pub digit_value : ℕ → ℕ
digit_value c = if leb c b'9' then c - b'0' else c - 87

-- The number that a text spells behind `v`.
abbrev pub value : ℕ → ℕ → Text → ℕ
value r v [] = v
value r v (c ∷ s) = value r (v * r + digit_value c) s

digit_value-digit_char : (d : ℕ) → d < 36 → digit_value (digit_char d) ≡ d
unfolding digit_char digit_value
digit_value-digit_char d h = ground arith

module _ (r : ℕ) (low : 2 ≤ r) (high : r ≤ 36) where
  value-radix_digits :
      (f n : ℕ) (acc : Text) → n < f → value r 0 (radix_digits f r n acc) ≡ value r n acc
  unfolding radix_digits
  value-radix_digits zero n acc h = elim h [ ]
  value-radix_digits (suc f) n acc h = elim (Bool-cases (ltb n r)) [
    | inl last ↦
        let small : n < r = ground arith in
        rw last (ap (λ v. value r v acc) (omega (arith, digit_value-digit_char n (omega arith))))
    | inr more ↦
        let large : r ≤ n = ground arith in
        let shrinks : n / r < n = div-lt_self (omega arith) (omega arith) in
        let small : n % r < r = mod-lt n (omega arith) in
        rw more (
          value-radix_digits f (n / r) (digit_char (n % r) ∷ acc) (omega arith)
          ∙ ap (λ v. value r v acc)
              (ap (λ (d : ℕ). n / r * r + d) (digit_value-digit_char (n % r) (omega arith))
                ∙ div-add-mod' n r))
  ]

  -- Reading a print back gives the number.
  pub value-to_string : (n : ℕ) → value r 0 (to_string r n) ≡ n
  unfolding to_string
  value-to_string n = value-radix_digits (suc n) n [] (omega arith)

  pub to_string-injective : (n m : ℕ) → to_string r n ≡ to_string r m → n ≡ m
  to_string-injective n m e = sym (value-to_string n) ∙ ap (value r 0) e ∙ value-to_string m
