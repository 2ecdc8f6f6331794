-- ===== src/Client/Requests.antt =====
-- The client's requests at the gateway.
use g_pay.Base.{
  ◌≤◌, ◌≡◌, ◌≢◌, refl, ap, ◌∙◌, true, some, [], ◌∷◌, Text, codes, text_eq, text_eq_refl, length,
  ◌++◌, eq_refl, none,
}
use g_pay.Hex.{is_hex_32}
use g_pay.Stealth.Primitives.{Curve}
use g_pay.Store.Types.{Institution, DepositRecord, approved, released}
use g_pay.Store.Interface.{Store}
use g_pay.Store.Contract.{StoreLaws}
use g_pay.Store.JsMap.{get}
use g_pay.Http.{text, Body, object, Env, Request}
use g_pay.Http.Zod.{Zod, ZodLaws}
use g_pay.Http.Hono.{Hono, HonoLaws, starts_with}
use g_pay.Http.Reply.{ok, released_to}
use g_pay.Auth.{allowed, api_key_auth}
use g_pay.Auth.Laws.{api_key_auth_iff}
use g_pay.Routes.Schemas.{release_body}
use g_pay.Routes.Public.Settle.{Changed}
use g_pay.Routes.Public.Release.{post_release_granted}
use g_pay.Routes.Public.Calls.{Call, serve}
use g_pay.Demo.{Tools}
use g_pay.App.{
  public_call, key_required, with_key, public_routes, public_router, handle, app, answered,
}
use g_pay.App.Paths.{is_literal, is_literal-IsLiteral, clash, takes-other, matches-below}
use g_pay.App.Guards.{not_top}
use g_pay.Client.{release, arrives, behind}

abbrev release_object : Text → Text → Body
release_object id target =
    object ((codes "deposit_id", text id) ∷ (codes "target_addr_hex", text target) ∷ [])

release_body-release :
    (z : Zod) (laws : ZodLaws z) (id target : Text)
    → 1 ≤ length id
    → is_hex_32 target ≡ true
    → release_body z (release_object id target)
      ≡ some (record { deposit_id = id; target_addr_hex = target })
unfolding release_body get text_eq
release_body-release z laws id target named hex =
    let b = release_object id target in
    let first : z.property (codes "deposit_id") b ≡ some (text id) =
      (laws.property_iff (codes "deposit_id") b (text id)).1 (_, refl, refl) in
    let second : z.property (codes "target_addr_hex") b ≡ some (text target) =
      (laws.property_iff (codes "target_addr_hex") b (text target)).1 (_, refl, refl) in
    let id_ok : z.string_min 1 (text id) ≡ some id =
      (laws.string_min_iff 1 (text id) id).1 (refl, named) in
    let target_ok : z.string_regex is_hex_32 (text target) ≡ some target =
      (laws.string_regex_iff is_hex_32 (text target) target).1 (refl, hex) in
    rw (first, id_ok, second, target_ok) refl

-- A path that is sent behind a base arrives.
pub behind-append : (base path : Text) → behind base (base ++ path) ≡ path
unfolding behind
behind-append [] path = refl
behind-append (b ∷ base) path = rw (eq_refl b) (behind-append base path)

-- The release as it arrives.
abbrev release_request : Text → Text → Text → Request
release_request key id target = record {
  method = codes "POST";
  path = codes "/v1/release";
  api_key = some key;
  internal_secret = none;
  body = some (release_object id target);
  limit = none;
}

arrives-release :
    (base key id target : Text)
    → arrives base (release base key id target) ≡ release_request key id target
unfolding release
arrives-release base key id target =
    ap (λ (p : Text). record (release_request key id target) { path = p })
      (behind-append base (codes "/v1/release"))

module _ (h : Hono) (laws : HonoLaws h) where
  release_routed :
      (key id target : Text)
      → public_call h (release_request key id target)
        ≡ some (Call.release (some (release_object id target)))
  unfolding starts_with is_literal clash public_call text_eq
  release_routed key id target =
      let req = release_request key id target in
      let q = codes "/v1/release" in
      let literal : h.matches q q ≡ true =
        laws.matches-literal q q (is_literal-IsLiteral q refl) ∙ text_eq_refl q in
      rw
        (
          takes-other h laws (codes "POST") (codes "/v1/receiving-address") q req refl refl refl,
          literal,
        )
        refl

  module _ (I : Store) (store_laws : StoreLaws I) (z : Zod) (zod_laws : ZodLaws z) (t : Tools)
      (c : Curve) (secret : Text) (env : Env) where
    -- A release that the dashboard's client sends behind the base that the gateway or the proxy
    -- takes off, with the key of an institution, for an approved deposit of its own and to an
    -- address of 64 hexadecimal digits, passes the router, the middleware and the body's checks,
    -- with the documented behaviour of hono and zod and over a store that meets the contract: the
    -- gateway answers 200 with that deposit and address, and the deposit is released.
    pub app-release :
        (base key target : Text) (inst : Institution) (s : I.S) (d : DepositRecord)
        → key ≢ []
        → I.find_by_api_key key s ≡ some inst
        → I.get_deposit d.id s ≡ some d
        → d.institution_id ≡ inst.id
        → d.state ≡ approved
        → 1 ≤ length d.id
        → is_hex_32 target ≡ true
        → (s' : I.S) × (app h I z t c secret env (arrives base (release base key d.id target)) s
            ≡ (ok (released_to d.id target), s'))
          × Changed I d.id released s s'
    unfolding app handle public_router public_routes key_required serve starts_with is_literal
    app-release base key target inst s d nonempty known found owned is named hex =
        let req = release_request key d.id target in
        let (not_root, not_health) = not_top h laws req refl in
        let guarded : h.matches (codes "/v1/*") (codes "/v1/release") ≡ true =
          matches-below h laws (codes "/v1") (codes "/v1/release") refl refl in
        let passes : api_key_auth I (some key) s ≡ allowed inst =
          (api_key_auth_iff I (some key) s inst).1 (key, refl, nonempty, known) in
        let (s', answer, changed) =
          post_release_granted I store_laws z (release_object d.id target)
            (record { deposit_id = d.id; target_addr_hex = target }) inst s d
            (release_body-release z zod_laws d.id target named hex) found owned is in
        let served : app h I z t c secret env req s ≡ (ok (released_to d.id target), s') =
          rw
            (
              app,
              not_root,
              handle,
              not_health,
              guarded,
              public_router,
              key_required,
              passes,
              with_key,
              release_routed key d.id target,
              public_routes,
            )
            (ap (λ o. answered o s) answer) in
        (
          s',
          ap (λ (q : Request). app h I z t c secret env q s) (arrives-release base key d.id target)
              ∙ served,
          changed,
        )
