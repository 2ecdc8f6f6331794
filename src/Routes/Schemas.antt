-- ===== src/Routes/Schemas.antt =====
-- The bodies that routes.ts accepts: `ReceivingAddressBody`, `ReleaseBody`, `RefundBody` and
-- `InternalMatchBody`, as the schemas check them one property after the other.
pub mod Laws
use g_pay.Base.{ℕ, ◌*◌, Bool, true, false, Option, none, some, [], ◌∷◌, Text, codes}
use g_pay.Hex.{is_hex_32}
use g_pay.Radix.{is_digits}
use g_pay.Store.JsMap.{get}
use g_pay.Http.{Value, Body}
use g_pay.Http.Zod.{Zod}

-- A check that fails fails the body.
infixl 5 ◌>>=◌
abbrev pub ◌>>=◌ {ℓ κ} : {A : Type ℓ} {B : Type κ} → Option A → (A → Option B) → Option B
none >>= f = none
some a >>= f = f a

abbrev pub check : Bool → Option (Unit {0})
check true = some tt
check false = none

infixl 5 ◌>>◌
abbrev pub ◌>>◌ {ℓ} : {B : Type ℓ} → Option (Unit {0}) → Option B → Option B
m >> k = m >>= λ _. k

pub record ReceivingAddressBody : Type 0 where
  pub customer_id : Text
  pub amount_hint : Text
  pub mint : Text
  pub expire_seconds : ℕ
  pub refund_addr_hex : Text

pub record ReleaseBody : Type 0 where
  pub deposit_id : Text
  pub target_addr_hex : Text

pub record RefundBody : Type 0 where
  pub deposit_id : Text

pub record InternalMatchBody : Type 0 where
  pub deposit_pubkey : Text
  pub stealth_pubkey : Text
  pub amount : ℕ
  pub state : Text

module _ (z : Zod) where
  unfoldable pub receiving_address_body : Body → Option ReceivingAddressBody
  receiving_address_body b = do
    customer ← z.property (codes "customer_id") b
    customer_id ← z.string_min 1 customer
    hint ← z.property (codes "amount_hint") b
    amount_hint ← z.string_regex is_digits hint
    token ← z.property (codes "mint") b
    mint ← z.string_min 1 token
    seconds ← z.property (codes "expire_seconds") b
    expire_seconds ← z.int_between 60 (60 * 60 * 24 * 30) seconds
    address ← z.property (codes "refund_addr_hex") b
    refund_addr_hex ← z.string_regex is_hex_32 address
    some (record {
      customer_id = customer_id;
      amount_hint = amount_hint;
      mint = mint;
      expire_seconds = expire_seconds;
      refund_addr_hex = refund_addr_hex;
    })

  unfoldable pub release_body : Body → Option ReleaseBody
  release_body b = do
    id ← z.property (codes "deposit_id") b
    deposit_id ← z.string_min 1 id
    address ← z.property (codes "target_addr_hex") b
    target_addr_hex ← z.string_regex is_hex_32 address
    some (record { deposit_id = deposit_id; target_addr_hex = target_addr_hex })

  unfoldable pub refund_body : Body → Option RefundBody
  refund_body b = do
    id ← z.property (codes "deposit_id") b
    deposit_id ← z.string_min 1 id
    some (record { deposit_id = deposit_id })

  unfoldable pub internal_match_body : Body → Option InternalMatchBody
  internal_match_body b = do
    slice ← z.property (codes "slice_id") b
    check (z.is_number slice)
    account ← z.property (codes "deposit_pubkey") b
    deposit_pubkey ← z.string_min 0 account
    key ← z.property (codes "stealth_pubkey") b
    stealth_pubkey ← z.string_min 0 key
    sum ← z.property (codes "amount") b
    amount ← z.int_nonnegative sum
    named ← z.property (codes "state") b
    state ←
        z.one_of
          (codes "pending"
            ∷ codes "approved"
            ∷ codes "rejected"
            ∷ codes "released"
            ∷ codes "refunded"
            ∷ codes "expired"
            ∷ [])
          named
    some (record {
      deposit_pubkey = deposit_pubkey;
      stealth_pubkey = stealth_pubkey;
      amount = amount;
      state = state;
    })
