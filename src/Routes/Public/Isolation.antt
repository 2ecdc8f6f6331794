-- ===== src/Routes/Public/Isolation.antt =====
-- Institutions are isolated from one another, and what is settled stays settled.
use mathlib.Core.Option
use mathlib.Core.Path.{subst}
use g_pay.Base.{
  [], map, length, ℕ, ◌≡◌, ◌⊎◌, inl, inr, refl, sym, ap, ◌∙◌, Option, none, some, Text, text_eq,
  text_eq_iff, Bool-cases, Option-cases, Outcome, returned, threw, ◌>>=◌, returned-injective,
  some-injective,
}
use g_pay.Stealth.Primitives.{Curve}
use g_pay.Store.Types.{
  Institution, Num, DepositState, DepositRecord, approved, released, refunded, with_state,
}
use g_pay.Store.Interface.{Store}
use g_pay.Store.Contract.{StoreLaws}
use g_pay.Http.{Env}
use g_pay.Http.Zod.{Zod}
use g_pay.Http.Reply.{Response, ok, summary, listing}
use g_pay.Routes.Public.{
  by_state, deposit_item, list_limit, own_deposit, get_payment_status, get_treasury_deposits,
  get_treasury_list,
}
use g_pay.Routes.Public.Settle.{Changed, KeepsStore}
use g_pay.Routes.Public.Release.{post_release_cases}
use g_pay.Routes.Public.Refund.{IsRefundable, post_refund_cases}
use g_pay.Routes.Public.Creation.{IsIssued, post_receiving_address_cases}
use g_pay.Routes.Public.Calls.{
  Call, receiving_address, release, refund, payment_status, treasury, treasury_list, serve,
}

answering {ℓ} :
    {A : Type ℓ} {S : Type 0} (m : Outcome A) (f : A → Response) (s : S) {s' : S} {resp : Response}
    → ◌>>=◌ {B = Response × S} m (λ a. returned (f a, s)) ≡ returned (resp, s')
    → s' ≡ s
answering (returned a) f s h = sym (ap (λ p. p.1) (returned-injective h))
answering (threw e) f s h = cc

-- What a call may have done to a deposit that was there before.
abbrev pub IsSettling : ℕ → Institution → DepositRecord → Option DepositRecord → Type 0
IsSettling now inst d after =
    (d.institution_id ≡ inst.id)
    × (((d.state ≡ approved) × (after ≡ some (with_state released d)))
        ⊎ (IsRefundable now d × (after ≡ some (with_state refunded d))))

module _ (I : Store) where
  get_payment_status-same :
      (id : Text) (inst : Institution) (s s' : I.S) (resp : Response)
      → get_payment_status I id inst s ≡ returned (resp, s')
      → s' ≡ s
  unfolding get_payment_status
  get_payment_status-same id inst s s' resp h = elim (Option-cases (own_deposit I inst id s)) [
    | inl missing ↦ sym (
        ap (λ (p : Response × I.S). p.1)
          (returned-injective (rw (missing, get_payment_status) at h)))
    | inr (dep, own) ↦
        sym (
          ap (λ (p : Response × I.S). p.1) (returned-injective (rw (own, get_payment_status) at h)))
  ]

  get_treasury_deposits-same :
      (inst : Institution) (s s' : I.S) (resp : Response)
      → get_treasury_deposits I inst s ≡ returned (resp, s')
      → s' ≡ s
  unfolding get_treasury_deposits
  get_treasury_deposits-same inst s s' resp h =
      answering (I.list_institution_deposits inst.id none s)
        (λ deposits. ok (summary (length deposits) (by_state [] deposits))) s h

  get_treasury_list-same :
      (limit : Option Num) (inst : Institution) (s s' : I.S) (resp : Response)
      → get_treasury_list I limit inst s ≡ returned (resp, s')
      → s' ≡ s
  unfolding get_treasury_list
  get_treasury_list-same limit inst s s' resp h =
      answering (I.list_institution_deposits inst.id (some (list_limit limit)) s)
        (λ deposits. ok (listing (length deposits) (map deposit_item deposits))) s h

module _ (I : Store) (laws : StoreLaws I) (z : Zod) (c : Curve) where
  -- What a call that answers has done.
  data Effect (env : Env) (inst : Institution) (s : I.S) (resp : Response) (s' : I.S) : Type 0 where
    nothing : s' ≡ s → Effect env inst s resp s'
    issue : IsIssued I laws z c env inst s resp s' → Effect env inst s resp s'
    settled :
        (d : DepositRecord) (st : DepositState)
        → I.get_deposit d.id s ≡ some d
        → d.institution_id ≡ inst.id
        → ((d.state ≡ approved) × (st ≡ released)) ⊎ (IsRefundable env.now d × (st ≡ refunded))
        → Changed I d.id st s s'
        → KeepsStore I laws s s'
        → Effect env inst s resp s'

  -- The deposit under the id that was asked for has that id.
  by_own_id :
      (id : Text) (s : I.S) (d : DepositRecord)
      → laws.IsValid s
      → I.get_deposit id s ≡ some d
      → I.get_deposit d.id s ≡ some d
  by_own_id id s d v f = ap (λ k. I.get_deposit k s) (laws.get_id id s d v f) ∙ f

  serve-Effect :
      (env : Env) (call : Call) (inst : Institution) (s s' : I.S) (resp : Response)
      → laws.IsValid s
      → serve I z c env call inst s ≡ returned (resp, s')
      → Effect env inst s resp s'
  unfolding serve
  serve-Effect env (receiving_address body) inst s s' resp v h =
      elim (post_receiving_address_cases I laws z c env body inst s s' resp v h) [
        | inl no_change ↦ nothing no_change.1
        | inr done ↦ issue done
      ]
  serve-Effect env (release body) inst s s' resp v h =
      elim (post_release_cases I laws z body inst s s' resp h) [
        | inl no_change ↦ nothing no_change.1
        | inr (b, r, _, _, done) ↦
            settled done.deposit released (by_own_id r.deposit_id s done.deposit v done.found)
              done.owned (inl (done.was_approved, refl)) done.changed done.keeps
      ]
  serve-Effect env (refund body) inst s s' resp v h =
      elim (post_refund_cases I laws z env body inst s s' resp h) [
        | inl no_change ↦ nothing no_change.1
        | inr (b, r, _, _, done) ↦
            settled done.deposit refunded (by_own_id r.deposit_id s done.deposit v done.found)
              done.owned (inr (done.was_refundable, refl)) done.changed done.keeps
      ]
  serve-Effect env (payment_status id) inst s s' resp v h =
      nothing (get_payment_status-same I id inst s s' resp h)
  serve-Effect env treasury inst s s' resp v h =
      nothing (get_treasury_deposits-same I inst s s' resp h)
  serve-Effect env (treasury_list limit) inst s s' resp v h =
      nothing (get_treasury_list-same I limit inst s s' resp h)

  settling :
      (now : ℕ) (inst : Institution) (d e : DepositRecord) (st : DepositState) (s s' : I.S)
      (j : Text)
      → I.get_deposit j s ≡ some d
      → I.get_deposit e.id s ≡ some e
      → e.id ≡ j
      → e.institution_id ≡ inst.id
      → ((e.state ≡ approved) × (st ≡ released)) ⊎ (IsRefundable now e × (st ≡ refunded))
      → I.get_deposit j s' ≡ Option.map (with_state st) (I.get_deposit j s)
      → IsSettling now inst d (I.get_deposit j s')
  settling now inst d e st s s' j f found is_j owned why now_is =
      let same : e ≡ d = some-injective (sym found ∙ ap (λ k. I.get_deposit k s) is_j ∙ f) in
      subst
        (λ (x : DepositRecord).
          (x.institution_id ≡ inst.id)
          × (((x.state ≡ approved) × (I.get_deposit j s' ≡ some (with_state released x)))
              ⊎ (IsRefundable now x × (I.get_deposit j s' ≡ some (with_state refunded x)))))
        same
        (
          owned,
          elim why [
            | inl (was, st_is) ↦ inl (
              was,
              now_is
                  ∙ ap (Option.map (with_state st)) (f ∙ ap some (sym same))
                  ∙ ap (λ x. some (with_state x e)) st_is,
            )
            | inr (was, st_is) ↦ inr (
              was,
              now_is
                  ∙ ap (Option.map (with_state st)) (f ∙ ap some (sym same))
                  ∙ ap (λ x. some (with_state x e)) st_is,
            )
          ],
        )

  -- Over a store that meets the contract and is valid, an answered public call leaves a deposit as
  -- it was, or settles it; it settles only a deposit of the institution's own, releasing it if it
  -- was approved and refunding it if it was refundable.
  pub serve_cases :
      (env : Env) (call : Call) (inst : Institution) (s s' : I.S) (resp : Response) (j : Text)
      (d : DepositRecord)
      → laws.IsValid s
      → serve I z c env call inst s ≡ returned (resp, s')
      → I.get_deposit j s ≡ some d
      → (I.get_deposit j s' ≡ some d) ⊎ IsSettling env.now inst d (I.get_deposit j s')
  serve_cases env call inst s s' resp j d v h f = elim (serve-Effect env call inst s s' resp v h) [
    | nothing same ↦ inl (ap (I.get_deposit j) same ∙ f)
    | issue done ↦ elim (Bool-cases (text_eq done.deposit.id j)) [
      | inl new ↦
          let is_j = (text_eq_iff done.deposit.id j).0 new in
          let missing : I.get_deposit j s ≡ none =
            ap (λ k. I.get_deposit k s) (sym is_j) ∙ done.new in
          absurd cc
      | inr other ↦ inl (rw other at (done.stored j) ∙ f)
    ]
    | settled e st found owned why changed _ ↦ elim (Bool-cases (text_eq e.id j)) [
      | inl is ↦ inr (
          settling env.now inst d e st s s' j f found ((text_eq_iff e.id j).0 is) owned why
            (rw is at (changed j)))
      | inr other ↦ inl (rw other at (changed j) ∙ f)
    ]
  ]

  pub serve-IsValid :
      (env : Env) (call : Call) (inst : Institution) (s s' : I.S) (resp : Response)
      → laws.IsValid s
      → serve I z c env call inst s ≡ returned (resp, s')
      → laws.IsValid s'
  serve-IsValid env call inst s s' resp v h = elim (serve-Effect env call inst s s' resp v h) [
    | nothing same ↦ subst laws.IsValid (sym same) v
    | issue done ↦ done.valid
    | settled e st found owned why changed keeps ↦ keeps.1 v
  ]
