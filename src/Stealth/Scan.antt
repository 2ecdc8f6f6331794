-- ===== src/Stealth/Scan.antt =====
-- The receiver's side, crates/stealth-core/src/{scan,stealth}.rs: with the view key it finds the
-- deposits that stealth.ts addressed to it, and with the spend key it can sign for them.
use native.Mathlib.Nat.{mod-lt, mul_comm}
use mathlib.Core.Path.{subst, ap₂}
use g_pay.Base.{
  zero, suc, inl, inr, reverse, Bool-cases, sym, ap, ◌∙◌, ℕ, ◌+◌, ◌*◌, ◌%◌, ◌<◌, ◌≡◌, Bool, true,
  false, arith, ◌==◌, Outcome, returned, ◌>>=◌, or_throw, bad_point, bad_scalar, text_eq,
  text_eq_refl, if◌then◌else◌, >>=-eq-returned, returned-injective, eq_refl, length, All,
}
use g_pay.Hex.{Bytes}
use g_pay.Hex.Digits.{IsByte}
use g_pay.Stealth.{
  shift_in, domain_shared, domain_offset, StealthAddress, hash_point, scalar_from_hash, view_tag_of,
  scalar_from_bytes_wide, derive_stealth_address_deterministic,
}
use g_pay.Stealth.Primitives.{Curve, CurveLaws}

module _ (c : Curve) (laws : CurveLaws c) where
  open c use {Point, order, base, add, from_hex, to_raw_bytes}
  open laws use {times}

  -- `shared_secret`
  unfoldable pub shared_secret : ℕ → Bytes → Outcome Bytes
  shared_secret view ephemeral_r = do
    r_point ← or_throw (from_hex ephemeral_r) bad_point
    returned (hash_point c domain_shared (to_raw_bytes (times r_point view)))

  -- `derive_for_recipient`
  unfoldable pub derive_for_recipient : Point → Bytes → ℕ → Outcome Bytes
  derive_for_recipient spend_pub shared nonce = do
    offset ← scalar_from_hash c domain_offset shared nonce
    returned (to_raw_bytes (add spend_pub (times base offset)))

  -- `scan_deposit`, its `matched`.
  unfoldable pub scan_deposit : ℕ → Point → Bytes → Bytes → ℕ → ℕ → Outcome Bool
  unfolding shared_secret derive_for_recipient
  scan_deposit view spend_pub candidate ephemeral_r chain_view_tag nonce = do
    shared ← shared_secret view ephemeral_r
    derived ← derive_for_recipient spend_pub shared nonce
    returned (if view_tag_of c shared == chain_view_tag then text_eq derived candidate else false)

  -- `reconstruct_spend_scalar`
  unfoldable pub reconstruct_spend_scalar : ℕ → ℕ → Bytes → ℕ → Outcome ℕ
  unfolding shared_secret
  reconstruct_spend_scalar spend view ephemeral_r nonce = do
    shared ← shared_secret view ephemeral_r
    offset ← scalar_from_hash c domain_offset shared nonce
    returned ((spend + offset) % order)

  -- A scalar that the gateway computes is below the order.
  scalar_from_bytes_wide-lt :
      (bs : Bytes) (n : ℕ) → scalar_from_bytes_wide c bs ≡ returned n → n < order
  unfolding scalar_from_bytes_wide
  scalar_from_bytes_wide-lt bs n h = elim (Bool-cases (length bs == 64)) [
    | inl long ↦
        let e : shift_in 0 (reverse bs) % order ≡ n = ground arith in
        subst (λ k. k < order) e (mod-lt (shift_in 0 (reverse bs)) (omega (arith, laws.order_big)))
    | inr short ↦ absurd (ground arith)
  ]

  -- A product that does not throw is the multiple.
  multiply-eq-times :
      (p q : Point) (n : ℕ)
      → n < order
      → or_throw (c.multiply p n) bad_scalar ≡ returned q
      → q ≡ times p n
  multiply-eq-times p q zero h e = cc (laws.multiply-zero p)
  multiply-eq-times p q (suc n) h e = cc (laws.multiply-some p (suc n) (omega arith) h)

  from_hex-eq : (p q : Point) → or_throw (from_hex (to_raw_bytes p)) bad_point ≡ returned q → q ≡ p
  from_hex-eq p q e = cc (laws.from_hex-to_raw_bytes p)

  -- The shared bytes for a sender's scalar and the receiver's view scalar.
  abbrev shared_bytes : ℕ → ℕ → Bytes
  shared_bytes v r = hash_point c domain_shared (to_raw_bytes (times base (v * r)))

  -- What a derivation that returns has computed.
  record IsDerived (s v nonce : ℕ) (a : StealthAddress) : Type 0 where
    r : ℕ
    offset : ℕ
    offset_eq : scalar_from_hash c domain_offset (shared_bytes v r) nonce ≡ returned offset
    ephemeral_eq : a.ephemeral_r ≡ to_raw_bytes (times base r)
    stealth_eq : a.stealth_pubkey ≡ to_raw_bytes (times base (s + offset))
    tag_eq : a.view_tag ≡ view_tag_of c (shared_bytes v r)

  scalar_from_hash-lt :
      (domain shared : Bytes) (nonce n : ℕ)
      → scalar_from_hash c domain shared nonce ≡ returned n
      → n < order
  unfolding scalar_from_hash
  scalar_from_hash-lt domain shared nonce n h = scalar_from_bytes_wide-lt _ n h

  IsDerived-of_steps :
      (s v nonce r offset : ℕ) (a : StealthAddress)
      (r_pub view_point shared_point offset_point spend_point : Point)
      → r < order
      → offset < order
      → or_throw (c.multiply base r) bad_scalar ≡ returned r_pub
      → or_throw (from_hex (to_raw_bytes (times base v))) bad_point ≡ returned view_point
      → or_throw (c.multiply view_point r) bad_scalar ≡ returned shared_point
      → scalar_from_hash c domain_offset
          (hash_point c domain_shared (to_raw_bytes shared_point))
          nonce
        ≡ returned offset
      → or_throw (c.multiply base offset) bad_scalar ≡ returned offset_point
      → or_throw (from_hex (to_raw_bytes (times base s))) bad_point ≡ returned spend_point
      → record {
        stealth_pubkey = to_raw_bytes (add spend_point offset_point);
        ephemeral_r = to_raw_bytes r_pub;
        view_tag = view_tag_of c (hash_point c domain_shared (to_raw_bytes shared_point));
      }
        ≡ a
      → IsDerived s v nonce a
  IsDerived-of_steps s v nonce r offset a r_pub view_point shared_point offset_point spend_point hr
        ho e₁ e₂ e₃ eo e₄ e₅ e =
      let shared_eq : shared_point ≡ times base (v * r) =
        multiply-eq-times view_point shared_point r hr e₃
        ∙ ap (λ p. times p r) (from_hex-eq (times base v) view_point e₂)
        ∙ laws.times-times v r in
      let stealth_point : add spend_point offset_point ≡ times base (s + offset) =
        ap₂ add (from_hex-eq (times base s) spend_point e₅)
          (multiply-eq-times base offset_point offset ho e₄)
        ∙ laws.add-times s offset in
      record {
        r = r;
        offset = offset;
        offset_eq = rw shared_eq at eo;
        ephemeral_eq =
            sym (ap (λ a. a.ephemeral_r) e)
            ∙ ap to_raw_bytes (multiply-eq-times base r_pub r hr e₁);
        stealth_eq = sym (ap (λ a. a.stealth_pubkey) e) ∙ ap to_raw_bytes stealth_point;
        tag_eq =
            sym (ap (λ a. a.view_tag) e)
            ∙ ap (λ p. view_tag_of c (hash_point c domain_shared (to_raw_bytes p))) shared_eq;
      }

  derive-IsDerived :
      (s v : ℕ) (seed : Bytes) (nonce : ℕ) (a : StealthAddress)
      → derive_stealth_address_deterministic c
          (to_raw_bytes (times base s))
          (to_raw_bytes (times base v))
          seed
          nonce
        ≡ returned a
      → IsDerived s v nonce a
  unfolding derive_stealth_address_deterministic
  derive-IsDerived s v seed nonce a h =
      let (r, er, h₁) = >>=-eq-returned (scalar_from_bytes_wide c seed) _ h in
      let (r_pub, e₁, h₂) = >>=-eq-returned (or_throw (c.multiply base r) bad_scalar) _ h₁ in
      let (view_point, e₂, h₃) =
        >>=-eq-returned (or_throw (from_hex (to_raw_bytes (times base v))) bad_point) _ h₂ in
      let (shared_point, e₃, h₄) =
        >>=-eq-returned (or_throw (c.multiply view_point r) bad_scalar) _ h₃ in
      let shared = hash_point c domain_shared (to_raw_bytes shared_point) in
      let (offset, eo, h₅) = >>=-eq-returned (scalar_from_hash c domain_offset shared nonce) _ h₄ in
      let (offset_point, e₄, h₆) =
        >>=-eq-returned (or_throw (c.multiply base offset) bad_scalar) _ h₅ in
      let (spend_point, e₅, h₇) =
        >>=-eq-returned (or_throw (from_hex (to_raw_bytes (times base s))) bad_point) _ h₆ in
      IsDerived-of_steps s v nonce r offset a r_pub view_point shared_point offset_point spend_point
        (scalar_from_bytes_wide-lt seed r er)
        (scalar_from_hash-lt domain_offset shared nonce offset eo) e₁ e₂ e₃ eo e₄ e₅
        (returned-injective h₇)

  -- The receiver's shared bytes are the sender's: v(rG) = r(vG).
  shared_secret-IsDerived :
      (s v nonce : ℕ) (a : StealthAddress) (d : IsDerived s v nonce a)
      → shared_secret v a.ephemeral_r ≡ returned (shared_bytes v d.r)
  unfolding shared_secret
  shared_secret-IsDerived s v nonce a d = rw (
    d.ephemeral_eq,
    laws.from_hex-to_raw_bytes (times base d.r),
    laws.times-times d.r v,
    mul_comm d.r v,
  )

  derive_for_recipient-IsDerived :
      (s v nonce : ℕ) (a : StealthAddress) (d : IsDerived s v nonce a)
      → derive_for_recipient (times base s) (shared_bytes v d.r) nonce ≡ returned a.stealth_pubkey
  unfolding derive_for_recipient
  derive_for_recipient-IsDerived s v nonce a d =
      rw (d.offset_eq, laws.add-times s d.offset, d.stealth_eq)

  -- Over a curve with the group laws, for an institution with view scalar v and spend scalar s,
  -- every address that the gateway derives from the two public keys, whatever the seed and nonce,
  -- is recognised by the scan with v.
  pub scan_deposit-derive :
      (s v : ℕ) (seed : Bytes) (nonce : ℕ) (a : StealthAddress)
      → derive_stealth_address_deterministic c
          (to_raw_bytes (times base s))
          (to_raw_bytes (times base v))
          seed
          nonce
        ≡ returned a
      → scan_deposit v (times base s) a.stealth_pubkey a.ephemeral_r a.view_tag nonce
        ≡ returned true
  unfolding scan_deposit
  scan_deposit-derive s v seed nonce a h =
      let d = derive-IsDerived s v seed nonce a h in
      rw (
        shared_secret-IsDerived s v nonce a d,
        derive_for_recipient-IsDerived s v nonce a d,
        d.tag_eq,
        eq_refl (view_tag_of c (shared_bytes v d.r)),
        text_eq_refl a.stealth_pubkey,
      )

  -- Over a curve with the group laws, the scalar that the receiver reconstructs from s, v and the
  -- published point is the private key of the derived address: its public key is the address's.
  pub reconstruct_spend_scalar-derive :
      (s v : ℕ) (seed : Bytes) (nonce : ℕ) (a : StealthAddress)
      → derive_stealth_address_deterministic c
          (to_raw_bytes (times base s))
          (to_raw_bytes (times base v))
          seed
          nonce
        ≡ returned a
      → (x : ℕ) × (reconstruct_spend_scalar s v a.ephemeral_r nonce ≡ returned x)
        × (to_raw_bytes (times base x) ≡ a.stealth_pubkey)
  unfolding reconstruct_spend_scalar
  reconstruct_spend_scalar-derive s v seed nonce a h =
      let d = derive-IsDerived s v seed nonce a h in
      (
        (s + d.offset) % order,
        rw (shared_secret-IsDerived s v nonce a d, d.offset_eq),
        ap to_raw_bytes (laws.times-mod (s + d.offset)) ∙ sym d.stealth_eq,
      )

  -- The keys of a derived address are encodings of points, so their elements are bytes.
  pub derive-IsByte :
      (s v : ℕ) (seed : Bytes) (nonce : ℕ) (a : StealthAddress)
      → derive_stealth_address_deterministic c
          (to_raw_bytes (times base s))
          (to_raw_bytes (times base v))
          seed
          nonce
        ≡ returned a
      → All IsByte a.stealth_pubkey × All IsByte a.ephemeral_r
  derive-IsByte s v seed nonce a h =
      let d = derive-IsDerived s v seed nonce a h in
      (rw d.stealth_eq (laws.to_raw_bytes-IsByte _), rw d.ephemeral_eq (laws.to_raw_bytes-IsByte _))
