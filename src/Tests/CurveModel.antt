-- ===== src/Tests/CurveModel.antt =====
-- A group of two elements with encodings of 32 bytes, and a constant digest: it meets the laws that
-- the theorems ask of the curve and of the hash, and nothing is hidden by it.
use g_pay.Base.{
  ℕ, suc, ◌+◌, ◌*◌, ◌%◌, ◌<◌, ◌≡◌, refl, sym, Bool, true, false, ◌&&◌, not, Option, none, some, [],
  ◌∷◌, arith, ◌==◌, replicate, All, if◌then◌else◌,
}
use g_pay.Hex.{Bytes}
use g_pay.Hex.Digits.{IsByte}
use g_pay.Stealth.Primitives.{Curve, CurveLaws}

-- The base point is `true`, the neutral element `false`.
abbrev pub xor : Bool → Bool → Bool
xor true b = not b
xor false b = b

abbrev pub is_odd : ℕ → Bool
is_odd n = n % 2 == 1

abbrev pub toy_times : Bool → ℕ → Bool
toy_times p n = p && is_odd n

abbrev pub toy_multiply : Bool → ℕ → Option Bool
toy_multiply p n = if n == 1 then some (toy_times p n) else none

abbrev pub encode : Bool → Bytes
encode b = (if b then 1 else 0) ∷ replicate 31 0

abbrev pub decode : Bytes → Option Bool
decode [] = none
decode (x ∷ bs) = some (x == 1)

abbrev pub toy_digest : Bytes → Bytes
toy_digest m = 1 ∷ replicate 63 0

abbrev pub toy : Curve
toy = record {
  Point = Bool;
  order = 2;
  base = true;
  multiply = toy_multiply;
  add = xor;
  from_hex = decode;
  to_raw_bytes = encode;
  sha512 = toy_digest;
}

odd_product : (n m : ℕ) → is_odd (n * m) ≡ (is_odd n && is_odd m)
odd_product n ℕ.zero = ground arith
odd_product n (suc m) =
    let rest = odd_product n m in
    let step : n * suc m ≡ n * m + n = omega arith in rw step (ground arith)

zeros-IsByte : (k : ℕ) → All IsByte (replicate k 0)
zeros-IsByte ℕ.zero = tt
zeros-IsByte (suc k) = (omega arith, zeros-IsByte k)

odd_times : (n m : ℕ) → toy_times (toy_times true n) m ≡ toy_times true (n * m)
odd_times n m = sym (odd_product n m)

odd_add : (n m : ℕ) → xor (toy_times true n) (toy_times true m) ≡ toy_times true (n + m)
odd_add n m = ground arith

odd_mod : (n : ℕ) → toy_times true (n % 2) ≡ toy_times true n
odd_mod n = ground arith

multiplies : (p : Bool) (n : ℕ) → 0 < n → n < 2 → toy_multiply p n ≡ some (toy_times p n)
multiplies p n low high = ground arith

decode-encode : (p : Bool) → decode (encode p) ≡ some p
decode-encode true = refl
decode-encode false = refl

encode-IsByte : (p : Bool) → All IsByte (encode p)
encode-IsByte true = (omega arith, zeros-IsByte 31)
encode-IsByte false = (omega arith, zeros-IsByte 31)

pub toy_laws : CurveLaws toy
toy_laws = record {
  times = toy_times;
  order_big = omega arith;
  multiply-some = multiplies;
  multiply-zero = λ p. refl;
  times-times = odd_times;
  add-times = odd_add;
  times-mod = odd_mod;
  from_hex-to_raw_bytes = decode-encode;
  length-to_raw_bytes = λ p. refl;
  to_raw_bytes-IsByte = encode-IsByte;
  length-sha512 = λ m. refl;
  sha512-IsByte = λ m. (omega arith, zeros-IsByte 63);
}

pub base_once : toy_laws.times true 1 ≡ true
unfolding toy_laws
base_once = refl
