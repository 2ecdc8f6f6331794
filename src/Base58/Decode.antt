-- ===== src/Base58/Decode.antt =====
-- What `base58Decode` computes: the bytes of a number, the highest first, behind a zero for each
-- leading "1".
use mathlib.Core.List.{reverse-cons}
use g_pay.Base.{
  ℕ, zero, suc, ◌+◌, ◌*◌, ◌/◌, ◌%◌, ◌<◌, ◌≤◌, ◌≡◌, ◌≢◌, refl, ap, ◌∙◌, false, [], ◌∷◌, ◌++◌,
  reverse, arith, ◌==◌, replicate, inl, inr, Bool-cases, All,
}
use g_pay.Hex.{Bytes}
use g_pay.Hex.Digits.{IsByte}
use g_pay.Stealth.Encoding.{value_le}
use g_pay.Base58.{push_bytes}

-- With at least `n` rounds the bytes of the second loop spell `n`: the fuel does not run out.
pub value_le-push_bytes : (f n : ℕ) → n ≤ f → value_le (push_bytes f n) ≡ n
unfolding push_bytes
value_le-push_bytes zero n h = omega arith
value_le-push_bytes (suc f) n h = elim (Bool-cases (n == 0)) [
  | inl done ↦ ground arith
  | inr more ↦
      let ih = value_le-push_bytes f (n / 256) (ground arith) in rw more (omega (arith, ih))
]

pub push_bytes-IsByte : (f n : ℕ) → All IsByte (push_bytes f n)
unfolding push_bytes
push_bytes-IsByte zero n = tt
push_bytes-IsByte (suc f) n = elim (Bool-cases (n == 0)) [
  | inl done ↦ rw done tt
  | inr more ↦ rw more (omega arith, push_bytes-IsByte f (n / 256))
]

-- The highest byte is not 0.
abbrev pub IsCanonical : Bytes → Type 0
IsCanonical [] = Unit
IsCanonical (b ∷ bs) = (bs ≡ [] → b ≢ 0) × IsCanonical bs

value_le-pos : (b : ℕ) (bs : Bytes) → IsCanonical (b ∷ bs) → 0 < value_le (b ∷ bs)
value_le-pos b [] (p, _) = let q : b ≢ 0 = p refl in omega arith
value_le-pos b (c ∷ bs) (_, h) = omega (arith, value_le-pos c bs h)

-- Bytes without a highest zero are the ones that the loop finds for their number.
pub push_bytes-value_le :
    (f : ℕ) (bs : Bytes)
    → All IsByte bs
    → IsCanonical bs
    → value_le bs ≤ f
    → push_bytes f (value_le bs) ≡ bs
unfolding push_bytes
push_bytes-value_le zero [] hb hc h = refl
push_bytes-value_le (suc f) [] hb hc h = refl
push_bytes-value_le zero (b ∷ bs) hb hc h = absurd (omega (arith, value_le-pos b bs hc))
push_bytes-value_le (suc f) (b ∷ bs) (hb, hbs) hc h =
    let pos : 0 < b + 256 * value_le bs = value_le-pos b bs hc in
    let more : (b + 256 * value_le bs == 0) ≡ false = ground arith in
    let low : (b + 256 * value_le bs) % 256 ≡ b = omega arith in
    let high : (b + 256 * value_le bs) / 256 ≡ value_le bs = omega arith in
    rw (more, low, high) (ap (λ q. b ∷ q) (push_bytes-value_le f bs hbs hc.1 (omega arith)))

pub value_le-append_zeros : (bs : Bytes) (k : ℕ) → value_le (bs ++ replicate k 0) ≡ value_le bs
value_le-append_zeros [] zero = refl
value_le-append_zeros [] (suc k) = omega (arith, value_le-append_zeros [] k)
value_le-append_zeros (b ∷ bs) k = omega (arith, value_le-append_zeros bs k)

pub IsCanonical-append : (bs : Bytes) (x : ℕ) → x ≢ 0 → IsCanonical (bs ++ x ∷ [])
IsCanonical-append [] x h = ((λ _. h), tt)
IsCanonical-append (b ∷ []) x h = ((λ e. cc), ((λ _. h), tt))
IsCanonical-append (b ∷ c ∷ bs) x h = ((λ e. cc), IsCanonical-append (c ∷ bs) x h)

pub replicate-append : (k : ℕ) → replicate k 0 ++ 0 ∷ [] ≡ replicate {A = ℕ} (suc k) 0
replicate-append zero = refl
replicate-append (suc k) = ap (λ q. 0 ∷ q) (replicate-append k)

pub reverse-replicate : (k : ℕ) → reverse (replicate k 0) ≡ replicate {A = ℕ} k 0
reverse-replicate zero = refl
reverse-replicate (suc k) =
    reverse-cons 0 (replicate k 0)
    ∙ ap (λ q. q ++ 0 ∷ []) (reverse-replicate k)
    ∙ replicate-append k
