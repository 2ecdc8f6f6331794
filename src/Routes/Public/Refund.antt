-- ===== src/Routes/Public/Refund.antt =====
-- When `POST /v1/refund` answers 200, and what it then changes.
use g_pay.Base.{
  ℕ, ◌≡◌, ◌≤◌, ◌⊎◌, inl, inr, refl, true, Option, none, some, arith, Bool-cases, Option-cases,
  returned,
}
use g_pay.Store.Types.{Institution, pending, rejected, refunded, expired, DepositRecord}
use g_pay.Store.Interface.{Store}
use g_pay.Store.Contract.{StoreLaws}
use g_pay.Hex.{bytes_to_hex}
use g_pay.Http.{Body, Env}
use g_pay.Http.Zod.{Zod}
use g_pay.Http.Reply.{Response, refunded_to, ok}
use g_pay.Routes.Schemas.{RefundBody, refund_body}
use g_pay.Routes.Public.{own_deposit, refundable, refund_deposit, post_refund}
use g_pay.Routes.Public.Settle.{
  own_deposit_iff, Changed, KeepsStore, Refused, refused, settle_returns, settle_cases,
}

-- A deposit may be refunded when it was rejected, when it has expired, or when it is still pending
-- at its expiry time.
abbrev pub IsRefundable : ℕ → DepositRecord → Type 0
IsRefundable now d =
    (d.state ≡ rejected) ⊎ (d.state ≡ expired) ⊎ ((d.state ≡ pending) × (d.expires_at ≤ now))

refundable_sound : (now : ℕ) (d : DepositRecord) → refundable now d ≡ true → IsRefundable now d
unfolding refundable
refundable_sound now d h = ground arith

refundable_complete : (now : ℕ) (d : DepositRecord) → IsRefundable now d → refundable now d ≡ true
unfolding refundable
refundable_complete now d h = ground arith

module _ (I : Store) (laws : StoreLaws I) where
  -- What has happened when a deposit was refunded.
  pub record IsRefunded (now : ℕ) (inst : Institution) (body : RefundBody) (s : I.S)
      (resp : Response) (s' : I.S) : Type 0 where
    pub deposit : DepositRecord
    pub found : I.get_deposit body.deposit_id s ≡ some deposit
    pub owned : deposit.institution_id ≡ inst.id
    pub was_refundable : IsRefundable now deposit
    pub answer : resp ≡ ok (refunded_to deposit.id (bytes_to_hex deposit.refund_addr))
    pub changed : Changed I deposit.id refunded s s'
    pub keeps : KeepsStore I laws s s'

  refund_deposit_cases :
      (now : ℕ) (body : RefundBody) (inst : Institution) (s s' : I.S) (resp : Response)
      → refund_deposit I now body inst s ≡ returned (resp, s')
      → Refused I s resp s' ⊎ IsRefunded now inst body s resp s'
  unfolding refund_deposit
  refund_deposit_cases now body inst s s' resp h =
      elim (Option-cases (own_deposit I inst body.deposit_id s)) [
        | inl missing ↦
            inl (refused I s s' _ resp (omega arith) (rw (missing, refund_deposit) at h))
        | inr (dep, own) ↦ elim (Bool-cases (refundable now dep)) [
          | inr other ↦
              inl (refused I s s' _ resp (omega arith) (rw (own, refund_deposit, other) at h))
          | inl is ↦
              let (found, owned) = (own_deposit_iff I inst body.deposit_id s dep).0 own in
              let (answer, changed, keeps) =
                settle_cases I laws dep.id refunded _ resp s s'
                  (rw (own, refund_deposit, is) at h) in
              inr (record {
                deposit = dep;
                found = found;
                owned = owned;
                was_refundable = refundable_sound now dep is;
                answer = answer;
                changed = changed;
                keeps = keeps;
              })
        ]
      ]

  module _ (z : Zod) where
    -- Over a store that meets the contract, a refund that answers leaves the store as it was and is
    -- no success, or else it was asked for a deposit of the institution's own that was refundable
    -- at that time, and that deposit is now refunded and is the only one to have changed.
    pub post_refund_cases :
        (env : Env) (body : Option Body) (inst : Institution) (s s' : I.S) (resp : Response)
        → post_refund I z env body inst s ≡ returned (resp, s')
        → Refused I s resp s'
          ⊎ ((b : Body) × (r : RefundBody) × (body ≡ some b)
              × (refund_body z b ≡ some r)
              × IsRefunded env.now inst r s resp s')
    unfolding post_refund
    post_refund_cases env none inst s s' resp h = cc
    post_refund_cases env (some b) inst s s' resp h = elim (Option-cases (refund_body z b)) [
      | inl bad ↦ inl (refused I s s' _ resp (omega arith) (rw (bad, post_refund) at h))
      | inr (r, good) ↦
          elim (refund_deposit_cases env.now r inst s s' resp (rw (good, post_refund) at h)) [
            | inl no_change ↦ inl no_change
            | inr done ↦ inr (b, r, refl, good, done)
          ]
    ]

    -- Over a store that meets the contract, an accepted body that names a refundable deposit of the
    -- institution's own is answered with 200, and the deposit is refunded.
    pub post_refund_granted :
        (env : Env) (b : Body) (r : RefundBody) (inst : Institution) (s : I.S) (d : DepositRecord)
        → refund_body z b ≡ some r
        → I.get_deposit r.deposit_id s ≡ some d
        → d.institution_id ≡ inst.id
        → IsRefundable env.now d
        → (s' : I.S) × (post_refund I z env (some b) inst s
            ≡ returned (ok (refunded_to d.id (bytes_to_hex d.refund_addr)), s'))
          × Changed I d.id refunded s s'
    unfolding post_refund refund_deposit
    post_refund_granted env b r inst s d good found owned is =
        let own = (own_deposit_iff I inst r.deposit_id s d).1 (found, owned) in
        let test = refundable_complete env.now d is in
        let (s', e, changed) =
          settle_returns I laws d.id refunded (ok (refunded_to d.id (bytes_to_hex d.refund_addr)))
            s in
        (s', rw (good, own, refund_deposit, test) e, changed)
