-- ===== src/Stealth/Totality.antt =====
-- When a derivation of stealth.ts returns, and the shape of what it returns.
use native.Mathlib.Nat.{mod-lt}
use g_pay.Base.{ℕ, ◌*◌, ◌%◌, ◌<◌, ◌≡◌, ◌≢◌, ap, ◌∙◌, some, [], ◌∷◌, arith, returned, length, All}
use g_pay.Hex.{Bytes}
use g_pay.Hex.Digits.{IsByte}
use g_pay.Stealth.{
  domain_shared, domain_offset, StealthAddress, hash_point, scalar_from_hash, view_tag_of,
  first_byte, derive_stealth_address_deterministic,
}
use g_pay.Stealth.Encoding.{value_le, scalar_from_bytes_wide_lem}
use g_pay.Stealth.Primitives.{Curve, CurveLaws}

first_byte-IsByte : (bs : Bytes) → All IsByte bs → IsByte (first_byte bs)
unfolding first_byte
first_byte-IsByte [] h = omega arith
first_byte-IsByte (b ∷ bs) h = h.0

module _ (c : Curve) (laws : CurveLaws c) where
  open c use {Point, order, base, multiply, from_hex, to_raw_bytes}
  open laws use {times}

  -- The offset that a hash gives: always one, since a digest has 64 bytes.
  scalar_from_hash-returned :
      (domain shared : Bytes) (nonce : ℕ)
      → (n : ℕ) × (scalar_from_hash c domain shared nonce ≡ returned n) × (n < order)
  unfolding scalar_from_hash
  scalar_from_hash-returned domain shared nonce = (
    _,
    (scalar_from_bytes_wide_lem c _).0 (laws.length-sha512 _),
    mod-lt _ (omega (arith, laws.order_big)),
  )

  multiply-nonzero : (p : Point) (n : ℕ) → n ≢ 0 → n < order → multiply p n ≡ some (times p n)
  multiply-nonzero p n h lt = laws.multiply-some p n (omega arith) lt

  view_tag_of-IsByte : (shared : Bytes) → IsByte (view_tag_of c shared)
  unfolding view_tag_of
  view_tag_of-IsByte shared = first_byte-IsByte _ (laws.sha512-IsByte _)

  -- Over a curve with the group laws, with a 64-byte seed whose scalar is not 0 modulo the order,
  -- and with two keys that are encodings of multiples of the base point, the derivation throws only
  -- if the offset is 0; what it returns are two 32-byte points and a byte.
  pub derive_returns :
      (s v : ℕ) (seed : Bytes) (nonce : ℕ)
      → length seed ≡ 64
      → value_le seed % order ≢ 0
      → scalar_from_hash c domain_offset
          (hash_point c domain_shared (to_raw_bytes (times base (v * (value_le seed % order)))))
          nonce
        ≢ returned 0
      → (a : StealthAddress) × (derive_stealth_address_deterministic c
            (to_raw_bytes (times base s))
            (to_raw_bytes (times base v))
            seed
            nonce
          ≡ returned a)
        × (length a.stealth_pubkey ≡ 32)
        × (length a.ephemeral_r ≡ 32)
        × IsByte a.view_tag
  unfolding derive_stealth_address_deterministic
  derive_returns s v seed nonce long live offset_live =
      let r = value_le seed % order in
      let lt : r < order = mod-lt (value_le seed) (omega (arith, laws.order_big)) in
      let shared = hash_point c domain_shared (to_raw_bytes (times base (v * r))) in
      let (offset, eo, offset_lt) = scalar_from_hash-returned domain_offset shared nonce in
      let nonzero : offset ≢ 0 = λ z. offset_live (eo ∙ ap returned z) in
      (
        record {
          stealth_pubkey = to_raw_bytes (c.add (times base s) (times base offset));
          ephemeral_r = to_raw_bytes (times base r);
          view_tag = view_tag_of c shared;
        },
        rw (
          (scalar_from_bytes_wide_lem c seed).0 long,
          multiply-nonzero base r live lt,
          laws.from_hex-to_raw_bytes (times base v),
          multiply-nonzero (times base v) r live lt,
          laws.times-times v r,
          eo,
          multiply-nonzero base offset nonzero offset_lt,
          laws.from_hex-to_raw_bytes (times base s),
        ),
        laws.length-to_raw_bytes _,
        laws.length-to_raw_bytes _,
        view_tag_of-IsByte shared,
      )
