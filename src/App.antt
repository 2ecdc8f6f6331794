-- ===== src/App.antt =====
-- apps/api-gateway/src/index.ts: `buildApp`, which composes the three routers, and what the
-- framework does when no route matches and when a handler throws.
pub mod Paths
pub mod Served
pub mod Guards
pub mod Safety
pub mod Start
use g_pay.Base.{
  ℕ, Bool, true, false, ◌&&◌, not, Option, none, some, List, [], ◌∷◌, Text, codes, text_eq,
  if◌then◌else◌, Outcome, returned, threw, no_institution,
}
use g_pay.Stealth.Primitives.{Curve}
use g_pay.Store.Types.{Institution}
use g_pay.Store.Interface.{Store}
use g_pay.Http.{Request, Body, Env}
use g_pay.Http.Zod.{Zod}
use g_pay.Http.Hono.{Hono, starts_with}
use g_pay.Http.Reply.{Response, ok, failure, service, healthy}
use g_pay.Auth.{Access, denied, allowed, api_key_auth}
use g_pay.Routes.Public.Calls.{
  Call, receiving_address, release, refund, payment_status, treasury, treasury_list, serve,
}
use g_pay.Routes.Internal.{forbidden, secret_matches, post_deposit_detected}
use g_pay.Demo.{Tools}
use g_pay.Demo.Handlers.{DemoCall, init, simulate_payment, attest, demo_serve}

-- What the framework answers when nothing matches, and when a handler throws.
abbrev pub no_route : Response
no_route = failure 404 (codes "404 Not Found")

abbrev pub server_error : Response
server_error = failure 500 (codes "Internal Server Error")

-- `c.get("institution")`: none where no middleware has set it, and then the first use of the
-- institution throws.
abbrev pub with_institution :
    {A : Type 0} → Option Institution → (Institution → Outcome A) → Outcome A
with_institution none rest = threw no_institution
with_institution (some inst) rest = rest inst

-- `apiKeyAuth(store)`, in front of what follows.
abbrev pub with_key :
    (I : Store)
    → Request
    → I.S
    → (Institution → Outcome (Response × I.S))
    → Outcome (Response × I.S)
with_key I req s rest = elim (api_key_auth I req.api_key s) [
  | denied answer ↦ returned (answer, s)
  | allowed inst ↦ rest inst
]

-- What the server sends, and the store after it. No handler writes to the store before it throws,
-- since each calls one operation that writes, and that last.
abbrev pub answered : {S : Type 0} → Outcome (Response × S) → S → Response × S
answered (returned answer) s = answer
answered (threw _) s = (server_error, s)

module _ (h : Hono) where
  -- `app.get(pattern, …)` and `app.post(pattern, …)`: does the route take the request?
  abbrev pub takes : Text → Text → Request → Bool
  takes method pattern req = text_eq req.method method && h.matches pattern req.path

  -- The routes of `buildRouter`, in their order.
  unfoldable pub public_call : Request → Option Call
  public_call req =
      if takes (codes "POST") (codes "/v1/receiving-address") req
      then some (receiving_address req.body)
      else if takes (codes "GET") (codes "/v1/payment-status/:id") req
      then some (payment_status (h.param (codes "/v1/payment-status/:id") req.path))
      else if takes (codes "POST") (codes "/v1/release") req
      then some (release req.body)
      else if takes (codes "POST") (codes "/v1/refund") req
      then some (refund req.body)
      else if takes (codes "GET") (codes "/v1/treasury/deposits") req
      then some treasury
      else if takes (codes "GET") (codes "/v1/treasury/deposits/list") req
      then some (treasury_list req.limit)
      else none

  -- The routes of `buildDemoRouter`.
  unfoldable pub demo_call : Request → Option DemoCall
  demo_call req =
      if takes (codes "POST") (codes "/v1/demo/init") req
      then some init
      else if takes (codes "POST") (codes "/v1/demo/simulate-payment") req
      then some (simulate_payment req.body)
      else if takes (codes "POST") (codes "/v1/demo/attest") req
      then some (attest req.body)
      else if takes (codes "POST") (codes "/v1/demo/release") req
      then some (DemoCall.release req.body)
      else if takes (codes "POST") (codes "/v1/demo/refund") req
      then some (DemoCall.refund req.body)
      else none

  -- Does the key's middleware of `buildRouter` look at the request?
  unfoldable pub key_required : Request → Bool
  key_required req =
      h.matches (codes "/v1/*") req.path && not (starts_with req.path (codes "/v1/internal/"))

  module _ (I : Store) (z : Zod) (t : Tools) (c : Curve) (secret : Text) (env : Env) where
    -- A router is its routes behind its middleware; what its routes do not take goes to the next
    -- router, with the institution that the context then holds.
    unfoldable pub demo_routes : Request → I.S → Option Institution → Outcome (Response × I.S)
    demo_routes req s inst = elim (demo_call req) [
      | none ↦ returned (no_route, s)
      | some call ↦ with_institution inst (λ i. demo_serve I z t c env call i s)
    ]

    unfoldable pub demo_router : Request → I.S → Option Institution → Outcome (Response × I.S)
    demo_router req s inst =
        if h.matches (codes "/v1/demo/*") req.path
        then with_key I req s (λ i. demo_routes req s (some i))
        else demo_routes req s inst

    unfoldable pub internal_routes : Request → I.S → Option Institution → Outcome (Response × I.S)
    internal_routes req s inst =
        if takes (codes "POST") (codes "/v1/internal/deposit-detected") req
        then post_deposit_detected I z env req.body s
        else demo_router req s inst

    unfoldable pub internal_router : Request → I.S → Option Institution → Outcome (Response × I.S)
    internal_router req s inst =
        if h.matches (codes "/v1/internal/*") req.path
          && not (secret_matches secret req.internal_secret)
        then returned (forbidden, s)
        else internal_routes req s inst

    unfoldable pub public_routes : Request → I.S → Option Institution → Outcome (Response × I.S)
    public_routes req s inst = elim (public_call req) [
      | none ↦ internal_router req s inst
      | some call ↦ with_institution inst (λ i. serve I z c env call i s)
    ]

    unfoldable pub public_router : Request → I.S → Outcome (Response × I.S)
    public_router req s =
        if key_required req
        then with_key I req s (λ i. public_routes req s (some i))
        else public_routes req s none

    unfoldable pub handle : Request → I.S → Outcome (Response × I.S)
    handle req s =
        if takes (codes "GET") (codes "/") req
        then returned (ok (service (codes "g-pay api-gateway") (codes "0.1.0")), s)
        else if takes (codes "GET") (codes "/healthz") req
        then returned (ok healthy, s)
        else public_router req s

    -- The server's answer to a request, and the store after it.
    unfoldable pub app : Request → I.S → Response × I.S
    app req s = answered (handle req s) s
