-- ===== src/Playground/Sent.antt =====
-- The requests that the playground makes by itself, without the client library: those of its
-- actions, and the poll. The payment is the wallet's transaction and sends no request.
use g_pay.Base.{Option, none, some, [], ◌∷◌, ◌++◌, Text, codes}
use g_pay.Http.{text, natural, Body, object}
use g_pay.Client.{Sent, CreateAddressBody}
use g_pay.Playground.Texts.{Wallet, issue_body}
use g_pay.Playground.Actions.{Action, issue, pay, release, refund, attest, Verdict, verdict_name}

-- `${API_BASE_PUBLIC}…`
abbrev pub api_base_public : Text
api_base_public = codes "/api"

-- What `JSON.stringify` makes of the first step's body.
unfoldable pub issue_object : CreateAddressBody → Body
issue_object b = object (
    (codes "customer_id", text b.customer_id)
    ∷ (codes "amount_hint", text b.amount_hint)
    ∷ (codes "mint", text b.mint)
    ∷ (codes "expire_seconds", natural b.expire_seconds)
    ∷ (codes "refund_addr_hex", text b.refund_addr_hex)
    ∷ [])

abbrev pub posted : (api_key path : Text) → Body → Sent
posted api_key path body = record {
  url = api_base_public ++ path;
  method = codes "POST";
  api_key = api_key;
  content_type = some (codes "application/json");
  cache = none;
  body = some body;
}

abbrev pub issue_sent : (api_key : Text) → Option Wallet → Sent
issue_sent key wallet =
    record (posted key (codes "/v1/receiving-address") (issue_object (issue_body wallet))) {
      cache = some (codes "no-store");
    }

abbrev pub attest_sent : (api_key deposit_id : Text) → Verdict → Sent
attest_sent key id v =
    posted key (codes "/v1/demo/attest")
      (object ((codes "deposit_id", text id) ∷ (codes "verdict", text (verdict_name v)) ∷ []))

abbrev pub release_sent : (api_key deposit_id : Text) → Sent
release_sent key id =
    posted key (codes "/v1/demo/release") (object ((codes "deposit_id", text id) ∷ []))

abbrev pub refund_sent : (api_key deposit_id : Text) → Sent
refund_sent key id =
    posted key (codes "/v1/demo/refund") (object ((codes "deposit_id", text id) ∷ []))

-- What an action fetches once it has started; an action other than the first has an address then.
unfoldable pub sent_by :
    (api_key : Text) → Option Wallet → (deposit_id : Text) → Action → Option Sent
sent_by key wallet id issue = some (issue_sent key wallet)
sent_by key wallet id pay = none
sent_by key wallet id (attest v) = some (attest_sent key id v)
sent_by key wallet id release = some (release_sent key id)
sent_by key wallet id refund = some (refund_sent key id)

unfoldable pub poll_sent : (api_key deposit_id : Text) → Sent
poll_sent key id = record {
  url = api_base_public ++ codes "/v1/payment-status/" ++ id;
  method = codes "GET";
  api_key = key;
  content_type = none;
  cache = some (codes "no-store");
  body = none;
}
