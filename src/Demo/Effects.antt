-- ===== src/Demo/Effects.antt =====
-- What the demo's handlers change.
use mathlib.Core.Path.{subst}
use g_pay.Base.{
  ◌≡◌, ◌⊎◌, inl, inr, refl, sym, ap, Option, none, some, Text, text_eq, Option-cases, Outcome,
  Failure, returned, threw, ◌>>=◌, returned-injective, >>=-eq-returned, if◌then◌else◌,
}
use g_pay.Stealth.{StealthAddress, derive_stealth_address}
use g_pay.Stealth.Primitives.{Curve}
use g_pay.Store.Types.{Institution, DepositRecord}
use g_pay.Store.Interface.{Store}
use g_pay.Store.Contract.{StoreLaws}
use g_pay.Http.{Body, Env, json}
use g_pay.Http.Zod.{Zod}
use g_pay.Http.Reply.{Response, when_valid}
use g_pay.Routes.Public.{own_deposit}
use g_pay.Demo.{Tools}
use g_pay.Demo.Schemas.{deposit_body, attest_body}
use g_pay.Demo.Steps.{demo_request}
use g_pay.Demo.Handlers.{
  DemoCall, init, simulate_payment, release, refund, attest, on_own_deposit, post_simulate,
  post_attest, post_release_step, post_refund_step, create_demo_address, post_init, demo_serve,
}

outcome-cases :
    {A : Type 0} (m : Outcome A) → ((e : Failure) × (m ≡ threw e)) ⊎ ((a : A) × (m ≡ returned a))
outcome-cases (returned a) = inr (a, refl)
outcome-cases (threw e) = inl (e, refl)

module _ (I : Store) (laws : StoreLaws I) (z : Zod) (t : Tools) (c : Curve) where
  -- A new deposit of the institution's own, and no other change.
  pub record IsNew (env : Env) (inst : Institution) (s s' : I.S) : Type 0 where
    pub deposit : DepositRecord
    pub address : StealthAddress
    pub derived : derive_stealth_address c env.seed inst.spend_pub inst.view_pub ≡ returned address
    pub owned : deposit.institution_id ≡ inst.id
    pub key : deposit.stealth_pubkey ≡ address.stealth_pubkey
    pub new : I.get_deposit deposit.id s ≡ none
    pub stored :
        (j : Text)
        → I.get_deposit j s' ≡ (if text_eq deposit.id j then some deposit else I.get_deposit j s)
    pub valid : laws.IsValid s'

  on_own_deposit-same :
      (id : Text) (inst : Institution) (f : DepositRecord → Outcome Response) (s s' : I.S)
      (resp : Response)
      → on_own_deposit I z t id inst f s ≡ returned (resp, s')
      → s' ≡ s
  unfolding on_own_deposit
  on_own_deposit-same id inst f s s' resp h = elim (Option-cases (own_deposit I inst id s)) [
    | inl missing ↦
        sym (
          ap (λ (p : Response × I.S). p.1) (returned-injective (rw (missing, on_own_deposit) at h)))
    | inr (dep, own) ↦
        let (r, _, e) = >>=-eq-returned (f dep) _ (rw (own, on_own_deposit) at h) in
        sym (ap (λ (p : Response × I.S). p.1) (returned-injective e))
  ]

  -- A handler that reads a body and then answers on the institution's own deposit.
  reading :
      {A : Type 0} (check : Body → Option A) (body : Option Body)
      (rest : A → I.S → Outcome (Response × I.S)) (s s' : I.S) (resp : Response)
      → ((a : A) → rest a s ≡ returned (resp, s') → s' ≡ s)
      → json body >>= (λ b. when_valid (check b) rest s) ≡ returned (resp, s')
      → s' ≡ s
  reading check none rest s s' resp each h = cc
  reading check (some b) rest s s' resp each h = elim (Option-cases (check b)) [
    | inl bad ↦
        sym (ap (λ (p : Response × I.S). p.1) (returned-injective (rw (bad, when_valid) at h)))
    | inr (a, good) ↦ each a (rw (good, when_valid) at h)
  ]

  create_demo_address-IsNew :
      (env : Env) (wallet : Text) (inst : Institution) (s s' : I.S) (resp : Response)
      → laws.IsValid s
      → create_demo_address I z t c env wallet inst s ≡ returned (resp, s')
      → IsNew env inst s s'
  unfolding create_demo_address
  create_demo_address-IsNew env wallet inst s s' resp v h =
      let (bytes, eb, h₀) = >>=-eq-returned (t.bs58_decode wallet) _ h in
      let (addr, ea, h₁) =
        >>=-eq-returned (derive_stealth_address c env.seed inst.spend_pub inst.view_pub) _ h₀ in
      let (made, ec, h₂) =
        >>=-eq-returned (I.create_deposit env.draw (demo_request env inst addr bytes) s) _ h₁ in
      let (new, holds, stored, keys, valid) =
        laws.create env.draw (demo_request env inst addr bytes) s made.1 made.0 v ec in
      subst (IsNew env inst s) (ap (λ (p : Response × I.S). p.1) (returned-injective h₂)) (record {
        deposit = made.0;
        address = addr;
        derived = ea;
        owned = ap (λ (d : DepositRecord). d.institution_id) holds;
        key = ap (λ (d : DepositRecord). d.stealth_pubkey) holds;
        new = new;
        stored = stored;
        valid = valid;
      })

  post_init-IsNew :
      (env : Env) (inst : Institution) (s s' : I.S) (resp : Response)
      → laws.IsValid s
      → post_init I z t c env inst s ≡ returned (resp, s')
      → (s' ≡ s) ⊎ IsNew env inst s s'
  unfolding post_init
  post_init-IsNew env inst s s' resp v h = elim (outcome-cases t.wallet) [
    | inl (e, broken) ↦
        inl (
          sym (ap (λ (p : Response × I.S). p.1) (returned-injective (rw (broken, post_init) at h))))
    | inr (wallet, read) ↦
        inr (create_demo_address-IsNew env wallet inst s s' resp v (rw (read, post_init) at h))
  ]

  -- Over a valid store that meets the contract, a call of the demo that answers leaves the
  -- gateway's store as it was, or adds one deposit of the caller's own to it whose address was
  -- derived from the caller's keys.
  pub demo_serve_cases :
      (env : Env) (call : DemoCall) (inst : Institution) (s s' : I.S) (resp : Response)
      → laws.IsValid s
      → demo_serve I z t c env call inst s ≡ returned (resp, s')
      → (s' ≡ s) ⊎ IsNew env inst s s'
  unfolding demo_serve post_simulate post_attest post_release_step post_refund_step
  demo_serve_cases env init inst s s' resp v h = post_init-IsNew env inst s s' resp v h
  demo_serve_cases env (simulate_payment body) inst s s' resp v h =
      inl (
        reading (deposit_body z) body _ s s' resp (λ id. on_own_deposit-same id inst _ s s' resp) h)
  demo_serve_cases env (release body) inst s s' resp v h =
      inl (
        reading (deposit_body z) body _ s s' resp (λ id. on_own_deposit-same id inst _ s s' resp) h)
  demo_serve_cases env (refund body) inst s s' resp v h =
      inl (
        reading (deposit_body z) body _ s s' resp (λ id. on_own_deposit-same id inst _ s s' resp) h)
  demo_serve_cases env (attest body) inst s s' resp v h = inl (
      reading (attest_body z) body _ s s' resp
        (λ r. on_own_deposit-same r.deposit_id inst _ s s' resp) h)
