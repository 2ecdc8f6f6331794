-- ===== src/Routes/Public.antt =====
-- The handlers of `buildRouter`, over any store. A handler is given the institution that the
-- middleware has put into the context.
pub mod Settle
pub mod Release
pub mod Refund
pub mod Creation
pub mod Treasury
pub mod Calls
pub mod Isolation
pub mod Runs
pub mod Stores
pub mod Limits
pub mod Overlap
use mathlib.Core.Option
use g_pay.Base.{
  ℕ, suc, ◌+◌, ◌*◌, Bool, true, false, ◌&&◌, ◌||◌, Option, none, some, List, [], ◌∷◌, map, Text,
  codes, text_eq, leb, length, if◌then◌else◌, Outcome, returned, ◌>>=◌,
}
use g_pay.Hex.{hex_to_bytes, bytes_to_hex}
use g_pay.Radix.{to_string, big_int}
use g_pay.Stealth.{StealthAddress, derive_stealth_address}
use g_pay.Stealth.Primitives.{Curve}
use g_pay.Store.Types.{
  Institution, DepositState, pending, approved, rejected, released, refunded, expired,
  DepositRecord, DepositCreate, state_name, state_eq, Num, nonneg, min_num,
}
use g_pay.Store.Interface.{Store}
use g_pay.Store.JsMap.{JsMap, get, set}
use g_pay.Http.{Body, Env, json}
use g_pay.Http.Zod.{Zod}
use g_pay.Http.Reply.{
  PaymentStatusReply, DepositItem, error_in_state, receiving_address, payment_status, released_to,
  refunded_to, summary, listing, Response, ok, not_found, when_valid,
}
use g_pay.Routes.Schemas.{
  ReceivingAddressBody, ReleaseBody, RefundBody, receiving_address_body, release_body, refund_body,
}

-- The record that `POST /v1/receiving-address` asks the store to create.
abbrev pub deposit_request :
    Env → Institution → ReceivingAddressBody → StealthAddress → DepositCreate
deposit_request env inst body addr = record {
  institution_id = inst.id;
  customer_id = body.customer_id;
  amount_hint = big_int 0 body.amount_hint;
  mint = body.mint;
  stealth_pubkey = addr.stealth_pubkey;
  ephemeral_r = addr.ephemeral_r;
  view_tag = addr.view_tag;
  refund_addr = hex_to_bytes body.refund_addr_hex;
  expires_at = env.now + body.expire_seconds * 1000;
}

unfoldable pub payment_status_reply : DepositRecord → PaymentStatusReply
payment_status_reply dep = record {
  deposit_id = dep.id;
  state = dep.state;
  amount_hint = to_string 10 dep.amount_hint;
  stealth_pubkey_hex = bytes_to_hex dep.stealth_pubkey;
  view_tag = dep.view_tag;
  expires_at = dep.expires_at;
  on_chain_address = dep.on_chain_address;
  on_chain_amount = Option.map (to_string 10) dep.on_chain_amount;
  on_chain_state = dep.on_chain_state;
}

unfoldable pub deposit_item : DepositRecord → DepositItem
deposit_item d = record {
  deposit_id = d.id;
  customer_id = d.customer_id;
  amount_hint = to_string 10 d.amount_hint;
  mint = d.mint;
  stealth_pubkey_hex = bytes_to_hex d.stealth_pubkey;
  view_tag = d.view_tag;
  state = d.state;
  created_at = d.created_at;
  expires_at = d.expires_at;
  on_chain_address = d.on_chain_address;
  on_chain_amount = Option.map (to_string 10) d.on_chain_amount;
  on_chain_state = d.on_chain_state;
  on_chain_observed_at = d.on_chain_observed_at;
}

-- `acc[d.state] = (acc[d.state] ?? 0) + 1`, over the deposits.
abbrev pub or_zero : Option ℕ → ℕ
or_zero none = 0
or_zero (some n) = n

unfoldable pub by_state : JsMap ℕ → List DepositRecord → JsMap ℕ
by_state acc [] = acc
by_state acc (d ∷ ds) =
    by_state (set (state_name d.state) (or_zero (get (state_name d.state) acc) + 1) acc) ds

-- `allowed` of `POST /v1/refund`.
unfoldable pub refundable : ℕ → DepositRecord → Bool
refundable now dep =
    state_eq dep.state rejected
    || state_eq dep.state expired
    || state_eq dep.state pending && leb dep.expires_at now

-- `Number(c.req.query("limit") ?? 100)`, at most 500.
abbrev pub list_limit : Option Num → Num
list_limit none = min_num (nonneg 100) 500
list_limit (some n) = min_num n 500

module _ (I : Store) where
  -- The deposit under an id, if there is one and it is the institution's:
  -- `!dep || dep.institutionId !== inst.id` is the test that it is none.
  unfoldable pub own_deposit : Institution → Text → I.S → Option DepositRecord
  own_deposit inst id s = elim (I.get_deposit id s) [
    | none ↦ none
    | some dep ↦ if text_eq dep.institution_id inst.id then some dep else none
  ]

  -- The end of a release and of a refund: the state is set, then the answer sent.
  abbrev pub settle : Text → DepositState → Response → I.S → Outcome (Response × I.S)
  settle id st answer s = I.set_deposit_state id st s >>= λ r. returned (answer, r.1)

  unfoldable pub get_payment_status : Text → Institution → I.S → Outcome (Response × I.S)
  get_payment_status id inst s = elim (own_deposit inst id s) [
    | none ↦ returned (not_found, s)
    | some dep ↦ returned (ok (payment_status (payment_status_reply dep)), s)
  ]

  unfoldable pub release_deposit : ReleaseBody → Institution → I.S → Outcome (Response × I.S)
  release_deposit body inst s = elim (own_deposit inst body.deposit_id s) [
    | none ↦ returned (not_found, s)
    | some dep ↦
        if state_eq dep.state approved
        then settle dep.id released (ok (released_to dep.id body.target_addr_hex)) s
        else returned
            (record { status = 409; reply = error_in_state (codes "not_approved") dep.state }, s)
  ]

  unfoldable pub refund_deposit : ℕ → RefundBody → Institution → I.S → Outcome (Response × I.S)
  refund_deposit now body inst s = elim (own_deposit inst body.deposit_id s) [
    | none ↦ returned (not_found, s)
    | some dep ↦
        if refundable now dep
        then settle dep.id refunded (ok (refunded_to dep.id (bytes_to_hex dep.refund_addr))) s
        else returned
            (record { status = 409; reply = error_in_state (codes "not_refundable") dep.state }, s)
  ]

  unfoldable pub get_treasury_deposits : Institution → I.S → Outcome (Response × I.S)
  get_treasury_deposits inst s = do
    deposits ← I.list_institution_deposits inst.id none s
    returned (ok (summary (length deposits) (by_state [] deposits)), s)

  unfoldable pub get_treasury_list : Option Num → Institution → I.S → Outcome (Response × I.S)
  get_treasury_list limit inst s = do
    deposits ← I.list_institution_deposits inst.id (some (list_limit limit)) s
    returned (ok (listing (length deposits) (map deposit_item deposits)), s)

  module _ (z : Zod) where
    unfoldable pub post_release : Option Body → Institution → I.S → Outcome (Response × I.S)
    post_release body inst s = do
      b ← json body
      when_valid (release_body z b) (λ accepted. release_deposit accepted inst) s

    unfoldable pub post_refund : Env → Option Body → Institution → I.S → Outcome (Response × I.S)
    post_refund env body inst s = do
      b ← json body
      when_valid (refund_body z b) (λ accepted. refund_deposit env.now accepted inst) s

    module _ (c : Curve) where
      unfoldable pub create_receiving_address :
          Env → ReceivingAddressBody → Institution → I.S → Outcome (Response × I.S)
      create_receiving_address env body inst s = do
        addr ← derive_stealth_address c env.seed inst.spend_pub inst.view_pub
        (deposit, s') ← I.create_deposit env.draw (deposit_request env inst body addr) s
        returned (
          ok (
              receiving_address (record {
                deposit_id = deposit.id;
                stealth_pubkey_hex = bytes_to_hex addr.stealth_pubkey;
                ephemeral_r_hex = bytes_to_hex addr.ephemeral_r;
                view_tag = addr.view_tag;
                expires_at = env.now + body.expire_seconds * 1000;
              })),
          s',
        )

      unfoldable pub post_receiving_address :
          Env → Option Body → Institution → I.S → Outcome (Response × I.S)
      post_receiving_address env body inst s = do
        b ← json body
        when_valid (receiving_address_body z b)
            (λ accepted. create_receiving_address env accepted inst) s
