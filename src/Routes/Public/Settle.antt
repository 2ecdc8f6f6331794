-- ===== src/Routes/Public/Settle.antt =====
-- The steps that releases and refunds share: the ownership test, and setting a state.
use mathlib.Core.Option
use mathlib.Core.Path.{subst}
use g_pay.Base.{
  ◌≡◌, ◌≢◌, ◌↔◌, inl, inr, refl, ◌∙◌, true, none, some, arith, Text, text_eq, text_eq_iff,
  text_eq_ne, if◌then◌else◌, Bool-cases, Option-cases, Outcome, returned, returned-injective,
  some-injective,
}
use g_pay.Store.Types.{Institution, DepositState, DepositRecord, state_eq, with_state}
use g_pay.Store.Interface.{Store}
use g_pay.Store.Contract.{StoreLaws}
use g_pay.Http.Reply.{Response}
use g_pay.Routes.Public.{own_deposit, settle}

pub state_eq_of : (a b : DepositState) → state_eq a b ≡ true → a ≡ b
state_eq_of a b h = ground arith

pub state_eq_refl : (a : DepositState) → state_eq a a ≡ true
state_eq_refl a = ground arith

module _ (I : Store) where
  own_deposit_sound :
      (inst : Institution) (id : Text) (s : I.S) (d : DepositRecord)
      → own_deposit I inst id s ≡ some d
      → (I.get_deposit id s ≡ some d) × (d.institution_id ≡ inst.id)
  unfolding own_deposit
  own_deposit_sound inst id s d q = elim (Option-cases (I.get_deposit id s)) [
    | inl missing ↦ absurd (cc (rw (missing, own_deposit) at q))
    | inr (e, found) ↦ elim (Bool-cases (text_eq e.institution_id inst.id)) [
      | inl own ↦
          let same : some e ≡ some d = rw (found, own_deposit, own) at q in
          (
            found ∙ same,
            subst (λ (x : DepositRecord). x.institution_id ≡ inst.id) (some-injective same)
                ((text_eq_iff e.institution_id inst.id).0 own),
          )
      | inr other ↦ absurd (cc (rw (found, own_deposit, other) at q))
    ]
  ]

  -- A deposit passes the ownership test exactly when it stands under the id and belongs to the
  -- institution.
  pub own_deposit_iff :
      (inst : Institution) (id : Text) (s : I.S) (d : DepositRecord)
      → (own_deposit I inst id s ≡ some d)
        ↔ ((I.get_deposit id s ≡ some d) × (d.institution_id ≡ inst.id))
  unfolding own_deposit
  own_deposit_iff inst id s d = (
    own_deposit_sound inst id s d,
    λ (f, o). rw (f, own_deposit, (text_eq_iff d.institution_id inst.id).1 o),
  )

  -- Another institution's deposit does not pass.
  pub own_deposit_foreign :
      (inst : Institution) (id : Text) (s : I.S) (d : DepositRecord)
      → I.get_deposit id s ≡ some d
      → d.institution_id ≢ inst.id
      → own_deposit I inst id s ≡ none
  unfolding own_deposit
  own_deposit_foreign inst id s d f differs =
      rw (f, own_deposit, text_eq_ne d.institution_id inst.id differs)

  -- What setting a state leaves behind: that deposit has the state, and no other has changed.
  abbrev pub Changed : Text → DepositState → I.S → I.S → Type 0
  Changed id st s s' =
      (j : Text)
      → I.get_deposit j s' ≡ (
          if text_eq id j
          then Option.map (with_state st) (I.get_deposit j s)
          else I.get_deposit j s)

  -- The answer is no success, and nothing has changed.
  abbrev pub Refused : I.S → Response → I.S → Type 0
  Refused s resp s' = (resp.status ≢ 200) × (s' ≡ s)

  pub refused :
      (s s' : I.S) (answer resp : Response)
      → answer.status ≢ 200
      → ◌≡◌ {A = Outcome (Response × I.S)} (returned (answer, s)) (returned (resp, s'))
      → Refused s resp s'
  refused s s' answer resp p e =
      subst (λ (q : Response × I.S). Refused s q.0 q.1) (returned-injective e) (p, refl)

module _ (I : Store) (laws : StoreLaws I) where
  -- What every handler that succeeds does besides: the store stays valid, and keys keep their
  -- institutions.
  abbrev pub KeepsStore : I.S → I.S → Type 0
  KeepsStore s s' =
      ((key : Text) → I.find_by_api_key key s' ≡ I.find_by_api_key key s)
      × (laws.IsValid s → laws.IsValid s')

  -- Settling always answers, and changes the state of that deposit alone.
  pub settle_returns :
      (id : Text) (st : DepositState) (answer : Response) (s : I.S)
      → (s' : I.S) × (settle I id st answer s ≡ returned (answer, s')) × Changed I id st s s'
  settle_returns id st answer s =
      let (s', e, changed, keys, valid) = laws.set_state id st s in (s', rw e, changed)

  pub settle_cases :
      (id : Text) (st : DepositState) (answer resp : Response) (s s' : I.S)
      → settle I id st answer s ≡ returned (resp, s')
      → (resp ≡ answer) × Changed I id st s s' × KeepsStore s s'
  settle_cases id st answer resp s s' h =
      let (t, e, changed, keys, valid) = laws.set_state id st s in
      let same : ◌≡◌ {A = Response × I.S} (answer, t) (resp, s') = returned-injective (rw e at h) in
      subst (λ (p : Response × I.S). (p.0 ≡ answer) × Changed I id st s p.1 × KeepsStore s p.1) same
        (refl, changed, (keys, valid))
