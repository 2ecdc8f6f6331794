-- ===== src/Stealth/Encoding.antt =====
-- `concat` joins its parts, and the scalar loops read bytes as little-endian numbers.
use native.Mathlib.Nat.{zero-add}
use mathlib.Core.List.{reverse-cons}
use g_pay.Base.{
  ℕ, suc, ◌+◌, ◌*◌, ◌%◌, ◌^◌, ◌≡◌, ◌≢◌, refl, sym, ap, ◌∙◌, List, [], ◌∷◌, ◌++◌, append_assoc,
  reverse, arith, length, replicate, length-append, returned, threw, bad_length,
}
use g_pay.Hex.{Bytes}
use g_pay.Stealth.{
  total_length, overwrite, set_at, write_parts, concat, shift_in, scalar_from_bytes_wide,
}
use g_pay.Stealth.Primitives.{Curve}

-- The parts one behind the other.
abbrev pub join : List Bytes → Bytes
join [] = []
join (p ∷ ps) = p ++ join ps

total_length-add : (sum : ℕ) (ps : List Bytes) → total_length sum ps ≡ sum + length (join ps)
unfolding total_length
total_length-add sum [] = omega arith
total_length-add sum (p ∷ ps) =
    omega (arith, total_length-add (sum + length p) ps, length-append p (join ps))

-- `out` is what is written so far, then zeros: writing the next part behind `done` moves the border.
overwrite-replicate :
    (p : Bytes) (n : ℕ) → overwrite p (replicate (length p + n) 0) ≡ p ++ replicate n 0
unfolding overwrite
overwrite-replicate [] n = ap (λ k. replicate k 0) (omega arith)
overwrite-replicate (b ∷ p) n =
    let e : length (b ∷ p) + n ≡ suc (length p + n) = omega arith in
    rw e (ap (λ q. b ∷ q) (overwrite-replicate p n))

set_at-append :
    (done p rest : Bytes) → set_at (length done) p (done ++ rest) ≡ done ++ overwrite p rest
unfolding set_at
set_at-append [] p rest = refl
set_at-append (d ∷ done) p rest = ap (λ q. d ∷ q) (set_at-append done p rest)

write_parts-append :
    (done : Bytes) (ps : List Bytes)
    → write_parts (length done) ps (done ++ replicate (length (join ps)) 0) ≡ done ++ join ps
unfolding write_parts
write_parts-append done [] = refl
write_parts-append done (p ∷ ps) =
    let grows : length done + length p ≡ length (done ++ p) = sym (length-append done p) in
    let zeros : length (join (p ∷ ps)) ≡ length p + length (join ps) = length-append p (join ps) in
    rw (set_at-append done p, zeros, overwrite-replicate p, grows, ← append_assoc)
      (write_parts-append (done ++ p) ps ∙ append_assoc done p (join ps))

-- The copying loop with its running offset gives the parts one behind the other.
pub concat-eq-join : (ps : List Bytes) → concat ps ≡ join ps
unfolding concat
concat-eq-join ps =
    ap (λ n. write_parts 0 ps (replicate n 0)) (total_length-add 0 ps ∙ zero-add (length (join ps)))
    ∙ write_parts-append [] ps

-- The number whose base-256 digits are the bytes, the lowest first.
abbrev pub value_le : Bytes → ℕ
value_le [] = 0
value_le (b ∷ bs) = b + 256 * value_le bs

shift_in-append : (n : ℕ) (xs ys : Bytes) → shift_in n (xs ++ ys) ≡ shift_in (shift_in n xs) ys
unfolding shift_in
shift_in-append n [] ys = refl
shift_in-append n (x ∷ xs) ys = shift_in-append (n * 2 ^ 8 + x) xs ys

-- Shifting the bytes in from the last to the first gives their little-endian number.
pub shift_in-reverse : (bs : Bytes) → shift_in 0 (reverse bs) ≡ value_le bs
unfolding shift_in
shift_in-reverse [] = refl
shift_in-reverse (b ∷ bs) =
    rw (reverse-cons b bs, shift_in-append 0 (reverse bs) (b ∷ []))
      (omega (arith, shift_in-reverse bs))

module _ (c : Curve) where
  -- A wide scalar is the little-endian number of exactly 64 bytes, modulo the group's order; any
  -- other length throws.
  pub scalar_from_bytes_wide_lem :
      (bs : Bytes)
      → (length bs ≡ 64 → scalar_from_bytes_wide c bs ≡ returned (value_le bs % c.order))
        × (length bs ≢ 64 → scalar_from_bytes_wide c bs ≡ threw bad_length)
  unfolding scalar_from_bytes_wide
  scalar_from_bytes_wide_lem bs = (λ e. rw (shift_in-reverse bs) (ground arith), λ n. ground arith)
