-- ===== src/Http/Reply.antt =====
-- The bodies of the gateway's replies, as routes.ts builds them. The `detail` of an invalid body,
-- which is zod's own report, is left out.
use g_pay.Base.{ℕ, Option, none, some, List, Text, codes, Outcome, returned}
use g_pay.Store.JsMap.{JsMap}
use g_pay.Store.Types.{DepositState}

pub record ReceivingAddressReply : Type 0 where
  pub deposit_id : Text
  pub stealth_pubkey_hex : Text
  pub ephemeral_r_hex : Text
  pub view_tag : ℕ
  pub expires_at : ℕ

pub record PaymentStatusReply : Type 0 where
  pub deposit_id : Text
  pub state : DepositState
  pub amount_hint : Text
  pub stealth_pubkey_hex : Text
  pub view_tag : ℕ
  pub expires_at : ℕ
  pub on_chain_address : Option Text
  pub on_chain_amount : Option Text
  pub on_chain_state : Option Text

pub record DepositItem : Type 0 where
  pub deposit_id : Text
  pub customer_id : Text
  pub amount_hint : Text
  pub mint : Text
  pub stealth_pubkey_hex : Text
  pub view_tag : ℕ
  pub state : DepositState
  pub created_at : ℕ
  pub expires_at : ℕ
  pub on_chain_address : Option Text
  pub on_chain_amount : Option Text
  pub on_chain_state : Option Text
  pub on_chain_observed_at : Option ℕ

pub record DemoAddressReply : Type 0 where
  pub deposit_id : Text
  pub stealth_pubkey_hex : Text
  pub ephemeral_r_hex : Text
  pub view_tag : ℕ
  pub refund_pubkey : Text
  pub expires_at : ℕ

pub data Reply : Type 0 where
  -- `{ error }`, and with the deposit's state, or with the stealth key.
  error : Text → Reply
  error_in_state : Text → DepositState → Reply
  error_at_key : Text → Text → Reply
  -- `{ error, hint }`
  error_with_hint : Text → Text → Reply
  receiving_address : ReceivingAddressReply → Reply
  payment_status : PaymentStatusReply → Reply
  -- `deposit_id`, `state: "released"`, `target_addr_hex`; the `note` is a constant.
  released_to : Text → Text → Reply
  -- `deposit_id`, `state: "refunded"`, `refund_addr_hex`.
  refunded_to : Text → Text → Reply
  -- `total`, `by_state`.
  summary : ℕ → JsMap ℕ → Reply
  -- `total`, `items`.
  listing : ℕ → List DepositItem → Reply
  -- `deposit_id`, `institution_id`, `gateway_state`.
  observation : Text → Text → DepositState → Reply
  -- `{ name, version }` and `{ ok: true }`.
  service : Text → Text → Reply
  healthy : Reply
  -- The replies of the demo's handlers: the step, with the oracle and the error where the command
  -- failed, with further properties where it did not; and the two oracles' signatures.
  demo_address : DemoAddressReply → Reply
  demo_failure : (stage : Text) → (oracle : Option Text) → (error : Text) → Reply
  demo_step : (stage : Text) → JsMap (Option Text) → Reply
  demo_attested : (verdict : Text) → (signatures explorer_txs : List Text) → Reply

pub record Response : Type 0 where
  pub status : ℕ
  pub reply : Reply

-- `c.json(body)` and `c.json({ error }, status)`
abbrev pub ok : Reply → Response
ok r = record { status = 200; reply = r }

abbrev pub failure : ℕ → Text → Response
failure code e = record { status = code; reply = error e }

abbrev pub not_found : Response
not_found = failure 404 (codes "not_found")

abbrev pub invalid_body : Response
invalid_body = failure 400 (codes "invalid_body")

-- `if (!parsed.success) return …400`, and the rest of the handler with `parsed.data` otherwise.
abbrev pub when_valid :
    {A S : Type 0} → Option A → (A → S → Outcome (Response × S)) → S → Outcome (Response × S)
when_valid none rest s = returned (invalid_body, s)
when_valid (some parsed) rest s = rest parsed s
