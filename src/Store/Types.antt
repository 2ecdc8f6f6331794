-- ===== src/Store/Types.antt =====
-- store/types.ts: the records that every store keeps. Times are milliseconds, amounts are `bigint`s
-- (never negative, since they come from digits or from a checked body), `null` is `none`.
use g_pay.Base.{
  ℕ, zero, suc, ◌-◌, ltb, Bool, true, false, Option, none, some, List, [], ◌∷◌, All, ◌≢◌, Text,
  codes, length, take, text_eq, leb, if◌then◌else◌,
}
use g_pay.Hex.{Bytes}

pub record Institution : Type 0 where
  pub id : Text
  pub api_key : Text
  pub spend_pub : Bytes
  pub view_pub : Bytes
  pub release_authority : Bytes
  pub webhook_url : Option Text

pub data DepositState : Type 0 where
  pending approved rejected released refunded expired : DepositState

pub record DepositRecord : Type 0 where
  pub id : Text
  pub institution_id : Text
  pub customer_id : Text
  pub amount_hint : ℕ
  pub mint : Text
  pub stealth_pubkey : Bytes
  pub ephemeral_r : Bytes
  pub view_tag : ℕ
  pub refund_addr : Bytes
  pub created_at : ℕ
  pub expires_at : ℕ
  pub state : DepositState
  pub on_chain_address : Option Text
  pub on_chain_amount : Option ℕ
  pub on_chain_state : Option Text
  pub on_chain_observed_at : Option ℕ

pub record DepositCreate : Type 0 where
  pub institution_id : Text
  pub customer_id : Text
  pub amount_hint : ℕ
  pub mint : Text
  pub stealth_pubkey : Bytes
  pub ephemeral_r : Bytes
  pub view_tag : ℕ
  pub refund_addr : Bytes
  pub expires_at : ℕ

-- The union's members are string literals.
abbrev pub state_name : DepositState → Text
state_name pending = codes "pending"
state_name approved = codes "approved"
state_name rejected = codes "rejected"
state_name released = codes "released"
state_name refunded = codes "refunded"
state_name expired = codes "expired"

-- `s === t` on states.
abbrev pub state_eq : DepositState → DepositState → Bool
state_eq pending pending = true
state_eq approved approved = true
state_eq rejected rejected = true
state_eq released released = true
state_eq refunded refunded = true
state_eq expired expired = true
state_eq _ _ = false

-- The literal comparisons of `applyOnChainMatch`: the states that it copies into `state`.
unfoldable pub terminal : Text → Option DepositState
unfolding text_eq
terminal s =
    if text_eq s (codes "approved")
    then some approved
    else if text_eq s (codes "rejected")
    then some rejected
    else if text_eq s (codes "released")
    then some released
    else if text_eq s (codes "refunded")
    then some refunded
    else if text_eq s (codes "expired")
    then some expired
    else none

-- The record that `createDeposit` builds: the caller's fields, an id, the time, and no sign of the
-- chain yet.
abbrev pub fresh_deposit : Text → ℕ → DepositCreate → DepositRecord
fresh_deposit id now r = record {
  id = id;
  institution_id = r.institution_id;
  customer_id = r.customer_id;
  amount_hint = r.amount_hint;
  mint = r.mint;
  stealth_pubkey = r.stealth_pubkey;
  ephemeral_r = r.ephemeral_r;
  view_tag = r.view_tag;
  refund_addr = r.refund_addr;
  created_at = now;
  expires_at = r.expires_at;
  state = pending;
  on_chain_address = none;
  on_chain_amount = none;
  on_chain_state = none;
  on_chain_observed_at = none;
}

abbrev pub with_state : DepositState → DepositRecord → DepositRecord
with_state st d = record d { state = st }

-- No two of the deposits were created in one millisecond.
abbrev pub HasDistinctTimes : List DepositRecord → Type 0
HasDistinctTimes [] = Unit {0}
HasDistinctTimes (d ∷ ds) = All (λ e. e.created_at ≢ d.created_at) ds × HasDistinctTimes ds

-- A JavaScript number. `neg n` is -(n + 1); `above n` is a fraction between n and n + 1, and
-- `below n` one between -(n + 1) and -n.
pub data Num : Type 0 where
  nan infinity neg_infinity : Num
  nonneg neg above below : ℕ → Num

-- `xs.slice(0, -n)` for a positive n, and no entry for -0.
abbrev pub slice_back {ℓ} : {A : Type ℓ} → ℕ → List A → List A
slice_back zero xs = take 0 xs
slice_back (suc n) xs = take (length xs - suc n) xs

-- `xs.slice(0, end)`, which takes a fraction for its integer part.
unfoldable pub slice_to {ℓ} : {A : Type ℓ} → Num → List A → List A
slice_to nan xs = take 0 xs
slice_to infinity xs = xs
slice_to neg_infinity xs = take 0 xs
slice_to (nonneg n) xs = take n xs
slice_to (neg n) xs = slice_back (suc n) xs
slice_to (above n) xs = take n xs
slice_to (below n) xs = slice_back n xs

-- `Math.min(n, most)`.
unfoldable pub min_num : Num → ℕ → Num
min_num nan most = nan
min_num infinity most = nonneg most
min_num neg_infinity most = neg_infinity
min_num (nonneg n) most = nonneg (if leb n most then n else most)
min_num (neg n) most = neg n
min_num (above n) most = if ltb n most then above n else nonneg most
min_num (below n) most = below n
