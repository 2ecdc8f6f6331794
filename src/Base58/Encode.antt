-- ===== src/Base58/Encode.antt =====
-- Base 58 text of bytes, as the Bitcoin alphabet's encoders write it (`bs58.encode`, and
-- `Pubkey::to_string` in the indexer): the reference that `base58Decode` is proved to invert.
use mathlib.Core.Path.{subst}
use g_pay.Base.{
  ℕ, zero, suc, ◌+◌, ◌/◌, ◌%◌, ◌<◌, ◌≤◌, ◌≡◌, ◌≢◌, refl, sym, ap, ◌∙◌, Bool, true, false, ◌&&◌,
  Option, some, none, [], ◌∷◌, ◌++◌, reverse, arith, Text, ◌==◌, if◌then◌else◌, replicate, inl, inr,
  ==_iff, Bool-cases,
}
use g_pay.Hex.{Bytes}
use g_pay.Stealth.Encoding.{value_le}
use g_pay.Base58.{b58_alphabet, index_of, read_58, leading_zeros}

-- The character at an index of the alphabet.
unfoldable pub char_at : Text → ℕ → ℕ
char_at [] i = 0
char_at (c ∷ s) zero = c
char_at (c ∷ s) (suc i) = char_at s i

unfoldable pub char_58 : ℕ → ℕ
char_58 d = char_at b58_alphabet d

-- The base-58 digits of `n` in front of `acc`; none for 0.
unfoldable pub write_58 : ℕ → ℕ → Text → Text
write_58 zero n acc = acc
write_58 (suc fuel) n acc =
    let rest = write_58 fuel (n / 58) (char_58 (n % 58) ∷ acc) in if n == 0 then acc else rest

unfoldable pub count_zeros : Bytes → ℕ
count_zeros [] = 0
count_zeros (b ∷ bs) = let rest = suc (count_zeros bs) in if b == 0 then rest else 0

-- The number that the bytes spell, the highest first.
abbrev pub value_be : Bytes → ℕ
value_be bs = value_le (reverse bs)

unfoldable pub base58_encode : Bytes → Text
base58_encode bs = replicate (count_zeros bs) b'1' ++ write_58 (value_be bs) (value_be bs) []

is_at : ℕ → Option ℕ → Bool
is_at d none = false
is_at d (some i) = i == d

is_at-some : (d : ℕ) (o : Option ℕ) → is_at d o ≡ true → o ≡ some d
unfolding is_at
is_at-some d none h = cc
is_at-some d (some i) h = ground arith

-- Are the `k` characters from index `i` on found where they stand?
stand_apart : ℕ → ℕ → Bool
stand_apart zero i = true
stand_apart (suc k) i = is_at i (index_of (char_58 i) b58_alphabet) && stand_apart k (i + 1)

stand_apart-index_of :
    (k i d : ℕ)
    → stand_apart k i ≡ true
    → i ≤ d
    → d < i + k
    → index_of (char_58 d) b58_alphabet ≡ some d
unfolding stand_apart
stand_apart-index_of zero i d table low high = absurd (omega arith)
stand_apart-index_of (suc k) i d table low high = elim (Bool-cases (i == d)) [
  | inl here ↦
      let same : i ≡ d = ground arith in
      is_at-some d _
        (subst (λ j. is_at j (index_of (char_58 j) b58_alphabet) ≡ true) same (ground arith))
  | inr later ↦ stand_apart-index_of k (i + 1) d (ground arith) (ground arith) (omega arith)
]

alphabet_table : stand_apart 58 0 ≡ true
unfolding stand_apart is_at char_58 char_at index_of
alphabet_table = refl

-- The characters of the alphabet are distinct: each is found at its own index.
pub index_of-char_58 : (d : ℕ) → d < 58 → index_of (char_58 d) b58_alphabet ≡ some d
index_of-char_58 d h = stand_apart-index_of 58 0 d alphabet_table (omega arith) (omega arith)

-- Reading what was written behind 0 is reading behind the number.
pub read_58-write_58 : (f n : ℕ) (acc : Text) → n ≤ f → read_58 0 (write_58 f n acc) ≡ read_58 n acc
unfolding write_58 read_58
read_58-write_58 zero n acc h = ap (λ m. read_58 m acc) (omega arith)
read_58-write_58 (suc f) n acc h = elim (Bool-cases (n == 0)) [
  | inl done ↦ let z : 0 ≡ n = ground arith in rw done (ap (λ m. read_58 m acc) z)
  | inr more ↦
      let le : n / 58 ≤ f = ground arith in
      rw more (
        read_58-write_58 f (n / 58) (char_58 (n % 58) ∷ acc) le
        ∙ rw (index_of-char_58 (n % 58) (omega arith), read_58)
            (ap (λ m. read_58 m acc) (omega arith)))
]

pub write_58-zero : (f : ℕ) (acc : Text) → write_58 f 0 acc ≡ acc
unfolding write_58
write_58-zero zero acc = refl
write_58-zero (suc f) acc = refl

-- Only the digit 0 is written "1".
char_58-one : (d : ℕ) → d < 58 → d ≢ 0 → (char_58 d == b'1') ≡ false
char_58-one d h p = elim (Bool-cases (char_58 d == b'1')) [
  | inl same ↦
      let e : char_58 d ≡ b'1' = (==_iff (char_58 d) b'1').0 same in
      let first : index_of b'1' b58_alphabet ≡ some 0 = unfold index_of in refl in
      let clash : some d ≡ some 0 =
        sym (index_of-char_58 d h) ∙ ap (λ c. index_of c b58_alphabet) e ∙ first in
      absurd (p (ground arith))
  | inr other ↦ other
]

-- A positive number is not written with a leading "1".
pub leading_zeros-write_58 :
    (f n : ℕ) (acc : Text) → n ≤ f → n ≢ 0 → leading_zeros (write_58 f n acc) ≡ []
unfolding write_58
leading_zeros-write_58 zero n acc h p = absurd (omega arith)
leading_zeros-write_58 (suc f) n acc h p =
    let more : (n == 0) ≡ false = ground arith in
    elim (Bool-cases (n / 58 == 0)) [
      | inl last ↦
          let z : n / 58 ≡ 0 = ground arith in
          let small : n % 58 ≢ 0 = omega arith in
          rw more (
            rw (z, write_58-zero f (char_58 (n % 58) ∷ acc))
              (unfold leading_zeros in rw (char_58-one (n % 58) (omega arith) small)))
      | inr rest ↦
          rw more (
            leading_zeros-write_58 f (n / 58) (char_58 (n % 58) ∷ acc) (ground arith)
              (ground arith))
    ]
