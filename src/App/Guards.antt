-- ===== src/App/Guards.antt =====
-- What the two middlewares keep out.
use g_pay.Base.{◌≡◌, ◌≢◌, ◌⊎◌, refl, true, false, none, Text, codes}
use g_pay.Stealth.Primitives.{Curve}
use g_pay.Store.Types.{Institution}
use g_pay.Store.Interface.{Store}
use g_pay.Http.{Request, Env}
use g_pay.Http.Zod.{Zod}
use g_pay.Http.Hono.{Hono, HonoLaws, starts_with}
use g_pay.Http.Reply.{Response}
use g_pay.Auth.{allowed, api_key_auth, missing_key, invalid_key}
use g_pay.Auth.Laws.{api_key_auth_denied}
use g_pay.Routes.Internal.{forbidden, secret_matches}
use g_pay.Demo.{Tools}
use g_pay.App.{
  takes, public_call, key_required, with_key, internal_router, public_routes, public_router, handle,
  app,
}
use g_pay.App.Paths.{
  is_literal, clash, takes-other, takes-other_param, starts_with-append, no_and, matches-below,
}
use g_pay.App.Served.{idle, broke, by_key, by_demo_key, by_secret, handle-Served}

module _ (h : Hono) (laws : HonoLaws h) where
  -- The routes at `/` and `/healthz` take no request below `/v1/`.
  pub not_top :
      (req : Request)
      → starts_with req.path (codes "/v1/") ≡ true
      → (takes h (codes "GET") (codes "/") req ≡ false)
        × (takes h (codes "GET") (codes "/healthz") req ≡ false)
  unfolding starts_with is_literal
  not_top req below = (
    takes-other h laws (codes "GET") (codes "/") (codes "/v1/") req refl refl below,
    takes-other h laws (codes "GET") (codes "/healthz") (codes "/v1/") req refl refl below,
  )

  -- No public route takes a request below `/v1/internal/`.
  not_public :
      (req : Request)
      → starts_with req.path (codes "/v1/internal/") ≡ true
      → public_call h req ≡ none
  unfolding starts_with is_literal clash public_call
  not_public req below =
      let q = codes "/v1/internal/" in
      let post = codes "POST" in
      let got = codes "GET" in
      rw
        (
          takes-other h laws post (codes "/v1/receiving-address") q req refl refl below,
          public_call,
          takes-other_param h laws got (codes "/v1/payment-status/") (codes "id") q req refl refl
              below,
          takes-other h laws post (codes "/v1/release") q req refl refl below,
          takes-other h laws post (codes "/v1/refund") q req refl refl below,
          takes-other h laws got (codes "/v1/treasury/deposits") q req refl refl below,
          takes-other h laws got (codes "/v1/treasury/deposits/list") q req refl refl below,
        )
        refl

  module _ (I : Store) (z : Zod) (t : Tools) (c : Curve) (secret : Text) (env : Env) where
    -- With the documented matching of hono, whatever its method, a request below /v1/ but not below
    -- /v1/internal/ whose header is not the key of any institution is answered with 401 and one of
    -- the two messages of the middleware, and changes nothing.
    pub app_unauthorised :
        (req : Request) (s : I.S)
        → starts_with req.path (codes "/v1/") ≡ true
        → starts_with req.path (codes "/v1/internal/") ≡ false
        → ((inst : Institution) → api_key_auth I req.api_key s ≢ allowed inst)
        → (answer : Response) × ((answer ≡ missing_key) ⊎ (answer ≡ invalid_key))
          × (app h I z t c secret env req s ≡ (answer, s))
    unfolding app handle public_router key_required starts_with is_literal
    app_unauthorised req s below outside no_key =
        let (not_root, not_health) = not_top req below in
        let guarded : h.matches (codes "/v1/*") req.path ≡ true =
          matches-below h laws (codes "/v1") req.path refl below in
        let required : key_required h req ≡ true = rw (guarded, outside) refl in
        let (answer, which, denial) = api_key_auth_denied I req.api_key s no_key in
        (
          answer,
          which,
          rw (app, not_root, handle, not_health, required, public_router, denial, with_key) refl,
        )

    -- With the documented matching of hono, whatever its method and its key, a request below
    -- /v1/internal/ without the secret is answered with 403, and changes nothing.
    pub app-forbidden :
        (req : Request) (s : I.S)
        → starts_with req.path (codes "/v1/internal/") ≡ true
        → secret_matches secret req.internal_secret ≡ false
        → app h I z t c secret env req s ≡ (forbidden, s)
    unfolding app handle public_router public_routes internal_router key_required starts_with
        is_literal
    app-forbidden req s below no_secret =
        let (not_root, not_health) =
          not_top req (starts_with-append req.path (codes "/v1/") (codes "internal/") below) in
        let guarded : h.matches (codes "/v1/internal/*") req.path ≡ true =
          matches-below h laws (codes "/v1/internal") req.path refl below in
        let free : key_required h req ≡ false =
          rw (below, key_required) (no_and (h.matches (codes "/v1/*") req.path)) in
        rw
          (
            app,
            not_root,
            handle,
            not_health,
            free,
            public_router,
            not_public req below,
            public_routes,
            guarded,
            internal_router,
            no_secret,
          )
          refl

    -- With the documented matching of hono, on any path, a request with neither the key of an
    -- institution nor the internal secret changes nothing in the store.
    pub app_anonymous :
        (req : Request) (s : I.S)
        → ((inst : Institution) → api_key_auth I req.api_key s ≢ allowed inst)
        → secret_matches secret req.internal_secret ≡ false
        → (app h I z t c secret env req s).1 ≡ s
    unfolding app
    app_anonymous req s no_key no_secret = elim (handle-Served I z t c secret env h laws req s) [
      | idle answer e ↦ rw (e, app) refl
      | broke x e ↦ rw (e, app) refl
      | by_key inst call known e ↦ absurd (no_key inst known)
      | by_demo_key inst call known e ↦ absurd (no_key inst known)
      | by_secret given e ↦ absurd cc
    ]
