-- ===== src/Base/Throws.antt =====
-- Code that returns or throws. The exception's value is not inspected by any caller but to be
-- printed, so the kinds of exception that the program can meet are an enumeration.
use mathlib.Core.Path.{◌≡◌, refl}
use mathlib.Core.Bool.{Bool, true, false}
use mathlib.Core.Option.{Option, none, some}

pub data Failure : Type 0 where
  bad_length bad_base58_char bad_scalar bad_point bad_json store_failure wallet_failure
        no_institution :
      Failure

pub data Outcome {ℓ} (A : Type ℓ) : Type ℓ where
  returned : A → Outcome A
  threw : Failure → Outcome A

infixl 5 ◌>>=◌
abbrev pub ◌>>=◌ {ℓ κ} : {A : Type ℓ} {B : Type κ} → Outcome A → (A → Outcome B) → Outcome B
returned a >>= f = f a
threw e >>= f = threw e

abbrev pub or_throw {ℓ} : {A : Type ℓ} → Option A → Failure → Outcome A
or_throw (some a) e = returned a
or_throw none e = threw e

-- `if (!ok) throw …`
abbrev pub require : Bool → Failure → Outcome (Unit {0})
require true e = returned tt
require false e = threw e

infixl 5 ◌>>◌
abbrev pub ◌>>◌ {ℓ} : {B : Type ℓ} → Outcome (Unit {0}) → Outcome B → Outcome B
m >> k = m >>= λ _. k

-- A chain that returns has returned at its first step.
pub >>=-eq-returned {ℓ κ} :
    {A : Type ℓ} {B : Type κ} (m : Outcome A) (f : A → Outcome B) {b : B}
    → (m >>= f) ≡ returned b
    → (a : A) × (m ≡ returned a) × (f a ≡ returned b)
>>=-eq-returned (returned a) f h = (a, refl, h)
>>=-eq-returned (threw e) f h = cc

pub returned-injective {ℓ} : {A : Type ℓ} {a b : A} → returned a ≡ returned b → a ≡ b
returned-injective h = cc

pub some-injective {ℓ} : {A : Type ℓ} {a b : A} → some a ≡ some b → a ≡ b
some-injective h = cc
