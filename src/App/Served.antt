-- ===== src/App/Served.antt =====
-- Who serves a request: the cases of `buildApp`, each with what let the request through.
use mathlib.Core.Path.{subst}
use g_pay.Base.{
  ◌≡◌, ◌⊎◌, inl, inr, refl, sym, ap, ◌∙◌, true, false, ◌&&◌, not, Option, none, some, arith, Text,
  codes, text_eq, Bool-cases, Option-cases, Outcome, returned, threw, Failure, no_institution,
  some-injective,
}
use g_pay.Stealth.Primitives.{Curve}
use g_pay.Store.Types.{Institution}
use g_pay.Store.Interface.{Store}
use g_pay.Http.{Request, Env}
use g_pay.Http.Zod.{Zod}
use g_pay.Http.Hono.{Hono, HonoLaws, starts_with}
use g_pay.Http.Reply.{Response}
use g_pay.Auth.{Access, denied, allowed, api_key_auth}
use g_pay.Routes.Public.Calls.{Call, serve}
use g_pay.Routes.Internal.{forbidden, secret_matches, post_deposit_detected}
use g_pay.Demo.{Tools}
use g_pay.Demo.Handlers.{DemoCall, demo_serve}
use g_pay.App.{
  takes, public_call, demo_call, key_required, with_key, demo_routes, demo_router, internal_routes,
  internal_router, public_routes, public_router, handle, no_route,
}
use g_pay.App.Paths.{is_literal, matches-exact, matches-below}

-- A report that reaches its route has passed the secret's middleware.
secret_given :
    (h : Hono) (laws : HonoLaws h) (secret : Text) (req : Request)
    → (h.matches (codes "/v1/internal/*") req.path
        && not (secret_matches secret req.internal_secret))
      ≡ false
    → takes h (codes "POST") (codes "/v1/internal/deposit-detected") req ≡ true
    → secret_matches secret req.internal_secret ≡ true
unfolding starts_with is_literal text_eq
secret_given h laws secret req passed taken =
    let is : h.matches (codes "/v1/internal/deposit-detected") req.path ≡ true = ground arith in
    let path = matches-exact h laws (codes "/v1/internal/deposit-detected") req.path refl is in
    let guarded : h.matches (codes "/v1/internal/*") req.path ≡ true =
      matches-below h laws (codes "/v1/internal") req.path refl
        (subst (λ p. starts_with p (codes "/v1/internal/") ≡ true) (sym path) refl) in
    ground arith

module _ (I : Store) (z : Zod) (t : Tools) (c : Curve) (secret : Text) (env : Env) where
  -- A request was answered by no handler that touches the store; or the exception of a handler
  -- without an institution; or it carried an institution's key to one of the handlers that need one;
  -- or the secret to the internal one.
  pub data Served (req : Request) (s : I.S) (out : Outcome (Response × I.S)) : Type 0 where
    idle : (answer : Response) → out ≡ returned (answer, s) → Served req s out
    broke : (e : Failure) → out ≡ threw e → Served req s out
    by_key :
        (inst : Institution) (call : Call)
        → api_key_auth I req.api_key s ≡ allowed inst
        → out ≡ serve I z c env call inst s
        → Served req s out
    by_demo_key :
        (inst : Institution) (call : DemoCall)
        → api_key_auth I req.api_key s ≡ allowed inst
        → out ≡ demo_serve I z t c env call inst s
        → Served req s out
    by_secret :
        secret_matches secret req.internal_secret ≡ true
        → out ≡ post_deposit_detected I z env req.body s
        → Served req s out

  -- An institution in the context came from the request's key.
  abbrev pub IsFromKey : Request → I.S → Option Institution → Type 0
  IsFromKey req s before =
      (i : Institution) → before ≡ some i → api_key_auth I req.api_key s ≡ allowed i

  from_key :
      (req : Request) (s : I.S) (i : Institution)
      → api_key_auth I req.api_key s ≡ allowed i
      → IsFromKey req s (some i)
  from_key req s i is j same = is ∙ ap allowed (some-injective same)

  access-cases :
      (a : Access) → ((r : Response) × (a ≡ denied r)) ⊎ ((i : Institution) × (a ≡ allowed i))
  access-cases (denied r) = inl (r, refl)
  access-cases (allowed i) = inr (i, refl)

  -- Behind the key's middleware.
  with_key-Served :
      (req : Request) (s : I.S) (rest : Institution → Outcome (Response × I.S))
      → ((i : Institution) → api_key_auth I req.api_key s ≡ allowed i → Served req s (rest i))
      → Served req s (with_key I req s rest)
  with_key-Served req s rest each = elim (access-cases (api_key_auth I req.api_key s)) [
    | inl (r, refused) ↦ rw (refused, with_key) (idle r refl)
    | inr (i, known) ↦ rw (known, with_key) (each i known)
  ]

  module _ (h : Hono) (laws : HonoLaws h) where
    demo_routes-Served :
        (req : Request) (s : I.S) (inst : Option Institution)
        → IsFromKey req s inst
        → Served req s (demo_routes h I z t c secret env req s inst)
    unfolding demo_routes
    demo_routes-Served req s inst from = elim (Option-cases (demo_call h req)) [
      | inl missing ↦ idle no_route (rw (missing, demo_routes) refl)
      | inr (call, is) ↦ elim (Option-cases inst) [
        | inl nobody ↦ broke no_institution (rw (is, demo_routes, nobody) refl)
        | inr (i, somebody) ↦
            by_demo_key i call (from i somebody) (rw (is, demo_routes, somebody) refl)
      ]
    ]

    demo_router-Served :
        (req : Request) (s : I.S) (inst : Option Institution)
        → IsFromKey req s inst
        → Served req s (demo_router h I z t c secret env req s inst)
    unfolding demo_router
    demo_router-Served req s inst from =
        elim (Bool-cases (h.matches (codes "/v1/demo/*") req.path)) [
          | inl guarded ↦
              rw (guarded, demo_router)
                (with_key-Served req s (λ i. demo_routes h I z t c secret env req s (some i))
                  (λ i is. demo_routes-Served req s (some i) (from_key req s i is)))
          | inr free ↦ rw (free, demo_router) (demo_routes-Served req s inst from)
        ]

    internal_router-Served :
        (req : Request) (s : I.S) (inst : Option Institution)
        → IsFromKey req s inst
        → Served req s (internal_router h I z t c secret env req s inst)
    unfolding internal_router internal_routes
    internal_router-Served req s inst from =
        elim (Bool-cases (
          h.matches (codes "/v1/internal/*") req.path
          && not (secret_matches secret req.internal_secret))) [
            | inl stopped ↦ rw (stopped, internal_router) (idle forbidden refl)
            | inr passed ↦
                elim (Bool-cases
                  (takes h (codes "POST") (codes "/v1/internal/deposit-detected") req)) [
                    | inl taken ↦
                        rw (passed, internal_router, taken, internal_routes)
                          (by_secret (secret_given h laws secret req passed taken) refl)
                    | inr other ↦
                        rw (passed, internal_router, other, internal_routes)
                          (demo_router-Served req s inst from)
                  ]
          ]

    public_routes-Served :
        (req : Request) (s : I.S) (inst : Option Institution)
        → IsFromKey req s inst
        → Served req s (public_routes h I z t c secret env req s inst)
    unfolding public_routes
    public_routes-Served req s inst from = elim (Option-cases (public_call h req)) [
      | inl missing ↦ rw (missing, public_routes) (internal_router-Served req s inst from)
      | inr (call, is) ↦ elim (Option-cases inst) [
        | inl nobody ↦ broke no_institution (rw (is, public_routes, nobody) refl)
        | inr (i, somebody) ↦
            by_key i call (from i somebody) (rw (is, public_routes, somebody) refl)
      ]
    ]

    public_router-Served :
        (req : Request) (s : I.S) → Served req s (public_router h I z t c secret env req s)
    unfolding public_router
    public_router-Served req s = elim (Bool-cases (key_required h req)) [
      | inl required ↦
          rw (required, public_router)
            (with_key-Served req s (λ i. public_routes h I z t c secret env req s (some i))
              (λ i is. public_routes-Served req s (some i) (from_key req s i is)))
      | inr free ↦ rw (free, public_router) (public_routes-Served req s none (λ i same. cc))
    ]

    pub handle-Served : (req : Request) (s : I.S) → Served req s (handle h I z t c secret env req s)
    unfolding handle
    handle-Served req s = elim (Bool-cases (takes h (codes "GET") (codes "/") req)) [
      | inl taken ↦ rw (taken, handle) (idle _ refl)
      | inr other ↦ elim (Bool-cases (takes h (codes "GET") (codes "/healthz") req)) [
        | inl taken ↦ rw (other, handle, taken) (idle _ refl)
        | inr neither ↦ rw (other, handle, neither) (public_router-Served req s)
      ]
    ]
