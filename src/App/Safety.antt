-- ===== src/App/Safety.antt =====
-- What one request can do to a deposit, over the store in memory.
use mathlib.Core.Path.{subst}
use g_pay.Base.{
  ◌≡◌, ◌⊎◌, inl, inr, refl, sym, ap, ◌∙◌, true, Option, none, some, Text, text_eq, text_eq_iff,
  Bool-cases, Outcome, Failure, returned, threw, some-injective,
}
use g_pay.Hex.{bytes_to_hex}
use g_pay.Base58.{base58_or_hex_to_hex}
use g_pay.Stealth.Primitives.{Curve}
use g_pay.Store.Types.{Institution, DepositRecord}
use g_pay.Store.Memory.{MemoryStore, memory_store, get_deposit}
use g_pay.Store.Memory.Invariant.{IsValid}
use g_pay.Store.Memory.Laws.{memory_store_laws, IsValid-iff}
use g_pay.Http.{Request, Body, Env}
use g_pay.Http.Zod.{Zod}
use g_pay.Http.Hono.{Hono, HonoLaws}
use g_pay.Http.Reply.{Response}
use g_pay.Auth.{allowed, api_key_auth}
use g_pay.Routes.Schemas.{InternalMatchBody, internal_match_body}
use g_pay.Routes.Public.Calls.{serve}
use g_pay.Routes.Public.Isolation.{IsSettling, serve_cases}
use g_pay.Routes.Internal.{secret_matches, post_deposit_detected}
use g_pay.Routes.Internal.Laws.{IsRecorded, reported, post_deposit_detected_cases}
use g_pay.Demo.{Tools}
use g_pay.Demo.Handlers.{demo_serve}
use g_pay.Demo.Effects.{IsNew, demo_serve_cases}
use g_pay.App.{answered, app}
use g_pay.App.Served.{idle, broke, by_key, by_demo_key, by_secret, handle-Served}

-- The indexer has reported the deposit: the report's key is the deposit's, and what is stored
-- afterwards is the deposit with the report's fields.
abbrev pub IsReported : Zod → Env → Option Body → DepositRecord → Option DepositRecord → Type 0
IsReported z env body d after =
    (b : Body) × (r : InternalMatchBody) × (body ≡ some b)
    × (internal_match_body z b ≡ some r)
    × (base58_or_hex_to_hex r.stealth_pubkey ≡ returned (bytes_to_hex d.stealth_pubkey))
    × (after ≡ some (reported env r d))

reply-cases :
    {A : Type 0} (m : Outcome A) → ((e : Failure) × (m ≡ threw e)) ⊎ ((a : A) × (m ≡ returned a))
reply-cases (returned a) = inr (a, refl)
reply-cases (threw e) = inl (e, refl)

recorded :
    (z : Zod) (env : Env) (b : Body) (r : InternalMatchBody) (s s' : MemoryStore) (resp : Response)
    (j : Text) (d : DepositRecord)
    → internal_match_body z b ≡ some r
    → IsRecorded env r s resp s'
    → get_deposit j s ≡ some d
    → (get_deposit j s' ≡ some d) ⊎ IsReported z env (some b) d (get_deposit j s')
recorded z env b r s s' resp j d good done f = elim (Bool-cases (text_eq done.deposit.id j)) [
  | inl is ↦
      let same : done.deposit ≡ d =
        some-injective
          (sym done.found ∙ ap (λ k. get_deposit k s) ((text_eq_iff done.deposit.id j).0 is) ∙ f) in
      inr (
        b,
        r,
        refl,
        good,
        subst
            (λ (x : DepositRecord).
              base58_or_hex_to_hex r.stealth_pubkey ≡ returned (bytes_to_hex x.stealth_pubkey))
            same done.key,
        rw is at (done.changed j) ∙ ap (λ x. some (reported env r x)) same,
      )
  | inr other ↦ inl (rw other at (done.changed j) ∙ f)
]

module _ (z : Zod) (t : Tools) (c : Curve) (secret : Text) (env : Env) where
  -- The three ways a request can leave a deposit.
  abbrev pub Fate : Request → MemoryStore → DepositRecord → Option DepositRecord → Type 0
  Fate req s d after =
      (after ≡ some d)
      ⊎ ((inst : Institution) × (api_key_auth memory_store req.api_key s ≡ allowed inst)
          × IsSettling env.now inst d after)
      ⊎ ((secret_matches secret req.internal_secret ≡ true) × IsReported z env req.body d after)

  settle_out :
      (out : Outcome (Response × MemoryStore)) (req : Request) (s : MemoryStore) (j : Text)
      (d : DepositRecord)
      → get_deposit j s ≡ some d
      → ((resp : Response) (s' : MemoryStore)
          → out ≡ returned (resp, s')
          → Fate req s d (get_deposit j s'))
      → Fate req s d (get_deposit j (answered out s).1)
  settle_out (returned (resp, s')) req s j d f each = each resp s' refl
  settle_out (threw e) req s j d f each = inl f

  -- A new deposit leaves the others as they were.
  kept :
      (inst : Institution) (s s' : MemoryStore) (j : Text) (d : DepositRecord)
      → IsNew memory_store memory_store_laws z t c env inst s s'
      → get_deposit j s ≡ some d
      → get_deposit j s' ≡ some d
  kept inst s s' j d made f = elim (Bool-cases (text_eq made.deposit.id j)) [
    | inl is ↦
        let missing : get_deposit j s ≡ none =
          ap (λ k. get_deposit k s) (sym ((text_eq_iff made.deposit.id j).0 is)) ∙ made.new in
        absurd cc
    | inr other ↦ rw other at (made.stored j) ∙ f
  ]

  module _ (h : Hono) (laws : HonoLaws h) where
    -- With the documented matching of hono and over the valid memory store, a request of any kind
    -- leaves a stored deposit exactly as it was, unless it carries the key of the deposit's own
    -- institution, and then it can only release the deposit if it was approved or refund it if it
    -- was refundable; or it carries the internal secret and reports the deposit's stealth key, and
    -- then the deposit gets the report's fields and nothing else.
    pub app_deposit :
        (req : Request) (s : MemoryStore) (j : Text) (d : DepositRecord)
        → IsValid s
        → get_deposit j s ≡ some d
        → Fate req s d (get_deposit j (app h memory_store z t c secret env req s).1)
    unfolding app
    app_deposit req s j d v f = elim (handle-Served memory_store z t c secret env h laws req s) [
      | idle answer e ↦ rw (e, app) (inl f)
      | broke x e ↦ rw (e, app) (inl f)
      | by_key inst call known e ↦
          rw (e, app)
            (settle_out (serve memory_store z c env call inst s) req s j d f (λ resp s' is.
              elim (serve_cases memory_store memory_store_laws z c env call inst s s' resp j d
                ((IsValid-iff s).0 v) is f) [
                  | inl same ↦ inl same
                  | inr settled ↦ inr (inl (inst, known, settled))
                ]))
      | by_demo_key inst call known e ↦
          rw (e, app)
            (settle_out (demo_serve memory_store z t c env call inst s) req s j d f (λ resp s' is.
              elim (demo_serve_cases memory_store memory_store_laws z t c env call inst s s' resp
                ((IsValid-iff s).0 v) is) [
                  | inl same ↦ inl (ap (get_deposit j) same ∙ f)
                  | inr made ↦ inl (kept inst s s' j d made f)
                ]))
      | by_secret given e ↦
          rw (e, app)
            (settle_out (post_deposit_detected memory_store z env req.body s) req s j d f
              (λ resp s' is. elim (post_deposit_detected_cases z env req.body s s' resp v is) [
                | inl no_change ↦ inl (ap (get_deposit j) no_change.1 ∙ f)
                | inr (b, r, body, good, done) ↦
                    elim (recorded z env b r s s' resp j d good done f) [
                      | inl same ↦ inl same
                      | inr report ↦ inr (
                          inr (
                            given,
                            subst (λ (x : Option Body). IsReported z env x d (get_deposit j s'))
                                (sym body) report,
                          ))
                    ]
              ]))
    ]
