-- ===== src/Base58/RoundTrip.antt =====
-- `base58Decode` inverts the encoders that write stealth keys, and a key reaches the store in the
-- same hexadecimal form whether it is sent in base 58 or in hexadecimal.
use mathlib.Core.List.{reverse-cons, reverse-append, reverse-reverse}
use g_pay.Base.{
  ℕ, zero, suc, ◌≡◌, ◌≢◌, refl, sym, ap, ◌∙◌, [], ◌∷◌, ◌++◌, reverse, arith, Text, ◌==◌,
  if◌then◌else◌, replicate, returned, inl, inr, Bool-cases, append-nil, All, All-reverse,
}
use g_pay.Hex.{Bytes}
use g_pay.Hex.Digits.{IsByte}
use g_pay.Stealth.Encoding.{value_le}
use g_pay.Base58.{index_of, read_58, push_bytes, leading_zeros, base58_decode}
use g_pay.Base58.Decode.{
  push_bytes-value_le, value_le-append_zeros, IsCanonical, IsCanonical-append, reverse-replicate,
}
use g_pay.Base58.Encode.{
  write_58, count_zeros, value_be, base58_encode, read_58-write_58, leading_zeros-write_58,
}

read_58-ones : (k : ℕ) (s : Text) → read_58 0 (replicate k b'1' ++ s) ≡ read_58 0 s
unfolding read_58 index_of
read_58-ones zero s = refl
read_58-ones (suc k) s = read_58-ones k s

leading_zeros-ones :
    (k : ℕ) (s : Text) → leading_zeros (replicate k b'1' ++ s) ≡ replicate k 0 ++ leading_zeros s
unfolding leading_zeros
leading_zeros-ones zero s = refl
leading_zeros-ones (suc k) s = ap (λ q. 0 ∷ q) (leading_zeros-ones k s)

-- Bytes behind their leading zeros.
pub drop_zeros : Bytes → Bytes
drop_zeros [] = []
drop_zeros (b ∷ bs) = let rest = drop_zeros bs in if b == 0 then rest else b ∷ bs

pub split_zeros : (bs : Bytes) → replicate (count_zeros bs) 0 ++ drop_zeros bs ≡ bs
unfolding count_zeros drop_zeros
split_zeros [] = refl
split_zeros (b ∷ bs) = elim (Bool-cases (b == 0)) [
  | inl zeroed ↦
      let e : 0 ≡ b = ground arith in
      rw zeroed (ap (λ q. 0 ∷ q) (split_zeros bs) ∙ ap (λ c. c ∷ bs) e)
  | inr other ↦ rw other
]

pub drop_zeros-IsByte : (bs : Bytes) → All IsByte bs → All IsByte (drop_zeros bs)
unfolding drop_zeros
drop_zeros-IsByte [] h = tt
drop_zeros-IsByte (b ∷ bs) h = ground (arith, drop_zeros-IsByte bs h.1)

drop_zeros-IsCanonical : (bs : Bytes) → IsCanonical (reverse (drop_zeros bs))
unfolding drop_zeros
drop_zeros-IsCanonical [] = tt
drop_zeros-IsCanonical (b ∷ bs) = elim (Bool-cases (b == 0)) [
  | inl zeroed ↦ rw zeroed (drop_zeros-IsCanonical bs)
  | inr other ↦
      let p : b ≢ 0 = ground arith in
      rw (other, reverse-cons b bs) (IsCanonical-append (reverse bs) b p)
]

-- The reversed bytes are those behind the zeros, then the zeros.
reverse_split : (bs : Bytes) → reverse bs ≡ reverse (drop_zeros bs) ++ replicate (count_zeros bs) 0
reverse_split bs =
    ap reverse (sym (split_zeros bs))
    ∙ reverse-append (replicate (count_zeros bs) 0) (drop_zeros bs)
    ∙ ap (λ q. reverse (drop_zeros bs) ++ q) (reverse-replicate (count_zeros bs))

pub value_be-drop_zeros : (bs : Bytes) → value_be bs ≡ value_le (reverse (drop_zeros bs))
value_be-drop_zeros bs =
    ap value_le (reverse_split bs)
    ∙ value_le-append_zeros (reverse (drop_zeros bs)) (count_zeros bs)

push_bytes-value_be :
    (bs : Bytes) → All IsByte bs → push_bytes (value_be bs) (value_be bs) ≡ reverse (drop_zeros bs)
push_bytes-value_be bs h = rw (value_be-drop_zeros bs) (
    push_bytes-value_le (value_le (reverse (drop_zeros bs))) (reverse (drop_zeros bs))
      (All-reverse IsByte (drop_zeros bs) (drop_zeros-IsByte bs h)) (drop_zeros-IsCanonical bs)
      (omega arith))

leading_zeros-write_be : (n : ℕ) → leading_zeros (write_58 n n []) ≡ []
leading_zeros-write_be zero = unfold leading_zeros write_58 in refl
leading_zeros-write_be (suc n) =
    leading_zeros-write_58 (suc n) (suc n) [] (omega arith) (omega arith)

-- Decoding the base-58 text of any bytes gives the bytes back, leading zeros included.
pub base58_decode-encode :
    (bs : Bytes) → All IsByte bs → base58_decode (base58_encode bs) ≡ returned bs
unfolding base58_decode base58_encode
base58_decode-encode bs h =
    let k = count_zeros bs in
    let v = value_be bs in
    let number : read_58 0 (write_58 v v []) ≡ returned v =
      read_58-write_58 v v [] (omega arith) ∙ unfold read_58 in refl in
    rw
      (
        read_58-ones k (write_58 v v []),
        number,
        leading_zeros-ones k (write_58 v v []),
        leading_zeros-write_be v,
        append-nil {A = ℕ} (replicate k 0),
        push_bytes-value_be bs h,
      )
      (rw (← reverse_split bs, reverse-reverse bs))
