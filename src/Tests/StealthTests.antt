-- ===== src/Tests/StealthTests.antt =====
-- One-time addresses over the toy curve.
use g_pay.Base.{ℕ, ◌*◌, ◌%◌, ◌≡◌, ◌≢◌, refl, true, false, ◌∷◌, arith, length, replicate, returned}
use g_pay.Hex.{Bytes}
use g_pay.Hex.Digits.{IsByte}
use g_pay.Stealth.{
  StealthAddress, derive_stealth_address_deterministic, scalar_from_bytes_wide, scalar_from_hash,
  hash_point, shift_in, concat, total_length, write_parts, set_at, overwrite, view_tag_of,
  first_byte, little_endian, domain_shared, domain_offset,
}
use g_pay.Stealth.Encoding.{value_le}
use g_pay.Stealth.Scan.{
  scan_deposit, reconstruct_spend_scalar, scan_deposit-derive, reconstruct_spend_scalar-derive,
}
use g_pay.Stealth.Totality.{derive_returns}
use g_pay.Tests.CurveModel.{toy, toy_laws, base_once, encode}

abbrev seed : Bytes
seed = 1 ∷ replicate 63 0

abbrev address : StealthAddress
address = record { stealth_pubkey = encode false; ephemeral_r = encode true; view_tag = 1 }

derived :
    derive_stealth_address_deterministic toy (encode true) (encode true) seed 0 ≡ returned address
unfolding derive_stealth_address_deterministic scalar_from_bytes_wide scalar_from_hash hash_point
    shift_in concat total_length write_parts set_at overwrite view_tag_of first_byte little_endian
derived = refl

derived_of_scalars :
    derive_stealth_address_deterministic toy
      (toy.to_raw_bytes (toy_laws.times toy.base 1))
      (toy.to_raw_bytes (toy_laws.times toy.base 1))
      seed
      0
    ≡ returned address
derived_of_scalars = rw base_once derived

scan_deposit-derive_example :
    scan_deposit toy toy_laws 1
      (toy_laws.times toy.base 1)
      address.stealth_pubkey
      address.ephemeral_r
      address.view_tag
      0
    ≡ returned true
scan_deposit-derive_example = scan_deposit-derive toy toy_laws 1 1 seed 0 address derived_of_scalars

reconstruct_spend_scalar-derive_example :
    (x : ℕ) × (reconstruct_spend_scalar toy toy_laws 1 1 address.ephemeral_r 0 ≡ returned x)
    × (toy.to_raw_bytes (toy_laws.times toy.base x) ≡ address.stealth_pubkey)
reconstruct_spend_scalar-derive_example =
    reconstruct_spend_scalar-derive toy toy_laws 1 1 seed 0 address derived_of_scalars

seed_odd : value_le seed % 2 ≢ 0
seed_odd = omega arith

offset_odd :
    scalar_from_hash toy domain_offset
      (hash_point toy domain_shared
        (toy.to_raw_bytes (toy_laws.times toy.base (1 * (value_le seed % 2)))))
      0
    ≢ returned 0
unfolding scalar_from_hash scalar_from_bytes_wide shift_in
offset_odd = cc

derive_returns_example :
    (a : StealthAddress) × (derive_stealth_address_deterministic toy
        (toy.to_raw_bytes (toy_laws.times toy.base 1))
        (toy.to_raw_bytes (toy_laws.times toy.base 1))
        seed
        0
      ≡ returned a)
    × (length a.stealth_pubkey ≡ 32)
    × (length a.ephemeral_r ≡ 32)
    × IsByte a.view_tag
derive_returns_example = derive_returns toy toy_laws 1 1 seed 0 refl seed_odd offset_odd
