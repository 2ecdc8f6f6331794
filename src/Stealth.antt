-- ===== src/Stealth.antt =====
-- apps/api-gateway/src/stealth.ts: one-time receiving addresses. The curve and the hash come from
-- `@noble/curves` and `@noble/hashes`, so they are the parameter `Curve`.
pub mod Primitives
pub mod Encoding
pub mod Scan
pub mod Totality
use g_pay.Base.{
  ℕ, zero, suc, ◌+◌, ◌*◌, ◌/◌, ◌%◌, ◌^◌, Option, none, some, List, [], ◌∷◌, ◌++◌, reverse, Text,
  codes, length, take, replicate, ◌==◌, Outcome, returned, ◌>>=◌, ◌>>◌, or_throw, require,
  bad_length, bad_scalar, bad_point,
}
use g_pay.Hex.{Bytes}
use g_pay.Stealth.Primitives.{Curve}

-- `enc.encode(…)`; the texts are ASCII.
abbrev pub domain_shared : Bytes
domain_shared = codes "g-pay/stealth/shared/v1"

abbrev pub domain_offset : Bytes
domain_offset = codes "g-pay/stealth/offset/v1"

abbrev pub domain_view_tag : Bytes
domain_view_tag = codes "g-pay/stealth/view-tag/v1"

pub record StealthAddress : Type 0 where
  pub stealth_pubkey : Bytes
  pub ephemeral_r : Bytes
  pub view_tag : ℕ

-- `parts.reduce((sum, p) => sum + p.length, 0)`
unfoldable pub total_length : ℕ → List Bytes → ℕ
total_length sum [] = sum
total_length sum (p ∷ ps) = total_length (sum + length p) ps

-- `out.set(p, off)` where `p` fits.
unfoldable pub overwrite : Bytes → Bytes → Bytes
overwrite [] out = out
overwrite (b ∷ p) [] = []
overwrite (b ∷ p) (x ∷ out) = b ∷ overwrite p out

unfoldable pub set_at : ℕ → Bytes → Bytes → Bytes
unfolding overwrite
set_at zero p out = overwrite p out
set_at (suc off) p [] = []
set_at (suc off) p (x ∷ out) = x ∷ set_at off p out

-- The loop of `concat`.
unfoldable pub write_parts : ℕ → List Bytes → Bytes → Bytes
unfolding set_at
write_parts off [] out = out
write_parts off (p ∷ ps) out = write_parts (off + length p) ps (set_at off p out)

unfoldable pub concat : List Bytes → Bytes
unfolding total_length write_parts
concat parts = write_parts 0 parts (replicate (total_length 0 parts) 0)

-- `for (i = length - 1; i >= 0; i--) n = (n << 8n) | BigInt(bytes[i])`, over the bytes from the
-- last to the first; the low eight bits of the shifted number are free, so `|` adds.
unfoldable pub shift_in : ℕ → Bytes → ℕ
shift_in n [] = n
shift_in n (b ∷ bs) = shift_in (n * 2 ^ 8 + b) bs

-- `setBigUint64(0, nonce, true)`: eight bytes, the lowest first.
unfoldable pub little_endian : ℕ → ℕ → Bytes
little_endian zero n = []
little_endian (suc k) n = n % 256 ∷ little_endian k (n / 256)

-- `bytes[0]`
unfoldable pub first_byte : Bytes → ℕ
first_byte [] = 0
first_byte (b ∷ bs) = b

module _ (c : Curve) where
  open c use {Point, order, base, multiply, add, from_hex, to_raw_bytes, sha512}

  unfoldable pub scalar_from_bytes_wide : Bytes → Outcome ℕ
  scalar_from_bytes_wide bytes = do
    require (length bytes == 64) bad_length
    returned (shift_in 0 (reverse bytes) % order)

  unfoldable pub hash_point : Bytes → Bytes → Bytes
  hash_point domain point = take 32 (sha512 (concat (domain ∷ point ∷ [])))

  unfoldable pub scalar_from_hash : Bytes → Bytes → ℕ → Outcome ℕ
  scalar_from_hash domain shared nonce =
      scalar_from_bytes_wide
        (sha512 (concat (domain ∷ shared ∷ little_endian 8 (nonce % 2 ^ 64) ∷ [])))

  unfoldable pub view_tag_of : Bytes → ℕ
  view_tag_of shared = first_byte (sha512 (concat (domain_view_tag ∷ shared ∷ [])))

  unfoldable pub derive_stealth_address_deterministic :
      Bytes → Bytes → Bytes → ℕ → Outcome StealthAddress
  derive_stealth_address_deterministic spend_pub view_pub r_seed nonce = do
    r ← scalar_from_bytes_wide r_seed
    r_pub ← or_throw (multiply base r) bad_scalar
    view_point ← or_throw (from_hex view_pub) bad_point
    shared_point ← or_throw (multiply view_point r) bad_scalar
    let shared = hash_point domain_shared (to_raw_bytes shared_point)
    offset ← scalar_from_hash domain_offset shared nonce
    offset_point ← or_throw (multiply base offset) bad_scalar
    spend_point ← or_throw (from_hex spend_pub) bad_point
    let stealth_point = add spend_point offset_point
    returned (record {
      stealth_pubkey = to_raw_bytes stealth_point;
      ephemeral_r = to_raw_bytes r_pub;
      view_tag = view_tag_of shared;
    })

  -- `seed` is what `crypto.getRandomValues` puts into the 64 bytes; the nonce is 0n by default.
  unfoldable pub derive_stealth_address : Bytes → Bytes → Bytes → Outcome StealthAddress
  derive_stealth_address seed spend_pub view_pub =
      derive_stealth_address_deterministic spend_pub view_pub seed 0

  unfoldable pub public_key_from_scalar : Bytes → Outcome Bytes
  public_key_from_scalar priv = do
    require (length priv == 32) bad_length
    let reduced = shift_in 0 (reverse priv) % order
    point ← or_throw (multiply base reduced) bad_scalar
    returned (to_raw_bytes point)
