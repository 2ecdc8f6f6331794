-- ===== src/Stealth/Primitives.antt =====
-- What stealth.ts uses of `@noble/curves/ed25519` and `@noble/hashes/sha512`, and what it relies on.
use g_pay.Base.{ℕ, ◌+◌, ◌*◌, ◌%◌, ◌<◌, ◌≡◌, Option, none, some, length, All}
use g_pay.Hex.{Bytes}
use g_pay.Hex.Digits.{IsByte}

-- `none` is a call that throws: `multiply` outside 0 < n < order, `fromHex` on no encoding.
pub record Curve : Type 1 where
  pub Point : Type 0
  pub order : ℕ
  pub base : Point
  pub multiply : Point → ℕ → Option Point
  pub add : Point → Point → Point
  pub from_hex : Bytes → Option Point
  pub to_raw_bytes : Point → Bytes
  pub sha512 : Bytes → Bytes

-- The group laws, for the multiples of the base point, and the sizes of encodings and digests.
pub record CurveLaws (c : Curve) : Type 0 where
  pub times : c.Point → ℕ → c.Point
  pub order_big : 1 < c.order
  pub multiply-some :
      (p : c.Point) (n : ℕ) → 0 < n → n < c.order → c.multiply p n ≡ some (times p n)
  pub multiply-zero : (p : c.Point) → c.multiply p 0 ≡ none
  pub times-times : (n m : ℕ) → times (times c.base n) m ≡ times c.base (n * m)
  pub add-times : (n m : ℕ) → c.add (times c.base n) (times c.base m) ≡ times c.base (n + m)
  pub times-mod : (n : ℕ) → times c.base (n % c.order) ≡ times c.base n
  pub from_hex-to_raw_bytes : (p : c.Point) → c.from_hex (c.to_raw_bytes p) ≡ some p
  pub length-to_raw_bytes : (p : c.Point) → length (c.to_raw_bytes p) ≡ 32
  pub to_raw_bytes-IsByte : (p : c.Point) → All IsByte (c.to_raw_bytes p)
  pub length-sha512 : (m : Bytes) → length (c.sha512 m) ≡ 64
  pub sha512-IsByte : (m : Bytes) → All IsByte (c.sha512 m)
