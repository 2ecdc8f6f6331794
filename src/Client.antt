-- ===== src/Client.antt =====
-- apps/dashboard/src/lib/api.ts: the dashboard's typed client. The browser's `fetch`, and JSON, are
-- the two ends of a request: what `JSON.stringify` writes the gateway's `c.req.json()` reads.
pub mod Requests
use g_pay.Base.{
  ℕ, Bool, true, false, ◌&&◌, ◌||◌, Option, none, some, [], ◌∷◌, ◌++◌, Text, codes, text_eq, leb,
  ◌==◌, if◌then◌else◌,
}
use g_pay.Http.{Value, text, natural, Body, object, Request}

-- Where the code runs: on a server, or in a browser at a host name.
pub data Place : Type 0 where
  server : Place
  browser : (hostname : Text) → Place

-- `api_url` is `process.env.NEXT_PUBLIC_API_URL`.
unfoldable pub resolve_base : Option Text → Place → Text
resolve_base api_url server = codes "/api"
resolve_base api_url (browser host) =
    if text_eq host (codes "localhost") || text_eq host (codes "127.0.0.1")
    then (elim api_url [ none ↦ codes "http://localhost:3000" | some url ↦ url ])
    else codes "/api"

-- What is handed to `fetch`; a missing method is GET.
pub record Sent : Type 0 where
  pub url : Text
  pub method : Text
  pub api_key : Text
  pub content_type : Option Text
  pub cache : Option Text
  pub body : Option Body

pub record CreateAddressBody : Type 0 where
  pub customer_id : Text
  pub amount_hint : Text
  pub mint : Text
  pub expire_seconds : ℕ
  pub refund_addr_hex : Text

-- What `request` makes of the answer: the body, or an `ApiError` with the status and the message,
-- which is the body's `error`, or else the status text.
pub data Answer (A : Type 0) : Type 0 where
  success : A → Answer A
  api_error : (status : ℕ) (message : Text) → Answer A

unfoldable pub read_answer : {A : Type 0} → ℕ → Text → Option Text → A → Answer A
read_answer status status_text error body =
    if leb 200 status && leb status 299
    then success body
    else api_error status (elim error [ none ↦ status_text | some e ↦ e ])

module _ (base : Text) where
  -- `request`
  abbrev pub get_of : Text → Text → Sent
  get_of key path = record {
    url = base ++ path;
    method = codes "GET";
    api_key = key;
    content_type = some (codes "application/json");
    cache = some (codes "no-store");
    body = none;
  }

  abbrev pub post_of : Text → Text → Body → Sent
  post_of key path body = record {
    url = base ++ path;
    method = codes "POST";
    api_key = key;
    content_type = some (codes "application/json");
    cache = some (codes "no-store");
    body = some body;
  }

  unfoldable pub create_receiving_address : Text → CreateAddressBody → Sent
  create_receiving_address key b = post_of key (codes "/v1/receiving-address") (
      object (
        (codes "customer_id", text b.customer_id)
        ∷ (codes "amount_hint", text b.amount_hint)
        ∷ (codes "mint", text b.mint)
        ∷ (codes "expire_seconds", natural b.expire_seconds)
        ∷ (codes "refund_addr_hex", text b.refund_addr_hex)
        ∷ []))

  unfoldable pub payment_status : Text → Text → Sent
  payment_status key id = get_of key (codes "/v1/payment-status/" ++ id)

  unfoldable pub release : Text → Text → Text → Sent
  release key deposit_id target =
      post_of key (codes "/v1/release") (
        object
          ((codes "deposit_id", text deposit_id) ∷ (codes "target_addr_hex", text target) ∷ []))

  unfoldable pub refund : Text → Text → Sent
  refund key deposit_id =
      post_of key (codes "/v1/refund") (object ((codes "deposit_id", text deposit_id) ∷ []))

  unfoldable pub treasury_summary : Text → Sent
  treasury_summary key = get_of key (codes "/v1/treasury/deposits")

  unfoldable pub demo_simulate : Text → Text → Sent
  demo_simulate key deposit_id =
      post_of key (codes "/v1/demo/simulate-payment")
        (object ((codes "deposit_id", text deposit_id) ∷ []))

  unfoldable pub demo_attest : Text → Text → Text → Sent
  demo_attest key deposit_id verdict =
      post_of key (codes "/v1/demo/attest")
        (object ((codes "deposit_id", text deposit_id) ∷ (codes "verdict", text verdict) ∷ []))

  unfoldable pub demo_release : Text → Text → Sent
  demo_release key deposit_id =
      post_of key (codes "/v1/demo/release") (object ((codes "deposit_id", text deposit_id) ∷ []))

  unfoldable pub demo_refund : Text → Text → Sent
  demo_refund key deposit_id =
      post_of key (codes "/v1/demo/refund") (object ((codes "deposit_id", text deposit_id) ∷ []))

-- The part of a URL behind a base that it begins with.
unfoldable pub behind : (base url : Text) → Text
behind [] url = url
behind (b ∷ base) [] = []
behind (b ∷ base) (c ∷ url) = let rest = behind base url in if b == c then rest else c ∷ url

-- The request as it reaches the gateway, whose own address is the base, or the proxy takes the base
-- off. The gateway reads neither the content type nor the cache mode.
abbrev pub arrives : (base : Text) → Sent → Request
arrives base sent = record {
  method = sent.method;
  path = behind base sent.url;
  api_key = some sent.api_key;
  internal_secret = none;
  body = sent.body;
  limit = none;
}
