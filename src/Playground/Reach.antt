-- ===== src/Playground/Reach.antt =====
-- Where the requests of the playground's actions arrive.
use g_pay.Base.{◌≡◌, Option, none, some, [], ◌∷◌, Text, codes}
use g_pay.Http.{text, natural, Body, object, Request}
use g_pay.Http.Hono.{Hono}
use g_pay.Routes.Public.Calls.{Call}
use g_pay.Demo.Handlers.{DemoCall}
use g_pay.App.{public_call, demo_call}
use g_pay.Client.{Sent, CreateAddressBody}
use g_pay.Playground.Texts.{Wallet, issue_body}
use g_pay.Playground.Actions.{Action, issue, pay, release, refund, attest, clean, dirty}

abbrev named : Text → Body
named id = object ((codes "deposit_id", text id) ∷ [])

abbrev judged : Text → Text → Body
judged id verdict = object ((codes "deposit_id", text id) ∷ (codes "verdict", text verdict) ∷ [])

abbrev asked : CreateAddressBody → Body
asked b = object (
    (codes "customer_id", text b.customer_id)
    ∷ (codes "amount_hint", text b.amount_hint)
    ∷ (codes "mint", text b.mint)
    ∷ (codes "expire_seconds", natural b.expire_seconds)
    ∷ (codes "refund_addr_hex", text b.refund_addr_hex)
    ∷ [])

module _ (h : Hono) where
  -- No route of the public router takes the request, and the demo router takes it as a call.
  abbrev pub DemoOnly : Request → DemoCall → Type 0
  DemoOnly req call = (public_call h req ≡ none) × (demo_call h req ≡ some call)

  -- The handler that a request of the action is meant for, and the body that it is to read.
  abbrev pub Reaches : Option Wallet → Text → Action → Request → Type 0
  Reaches wallet id issue req =
      public_call h req ≡ some (Call.receiving_address (some (asked (issue_body wallet))))
  Reaches wallet id pay req = ⊥
  Reaches wallet id (attest clean) req =
      DemoOnly req (DemoCall.attest (some (judged id (codes "clean"))))
  Reaches wallet id (attest dirty) req =
      DemoOnly req (DemoCall.attest (some (judged id (codes "dirty"))))
  Reaches wallet id release req = DemoOnly req (DemoCall.release (some (named id)))
  Reaches wallet id refund req = DemoOnly req (DemoCall.refund (some (named id)))
