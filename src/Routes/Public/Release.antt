-- ===== src/Routes/Public/Release.antt =====
-- When `POST /v1/release` answers 200, and what it then changes.
use g_pay.Base.{
  ◌≡◌, ◌⊎◌, inl, inr, refl, true, Option, none, some, arith, Bool-cases, Option-cases, returned,
}
use g_pay.Store.Types.{Institution, approved, released, DepositRecord, state_eq}
use g_pay.Store.Interface.{Store}
use g_pay.Store.Contract.{StoreLaws}
use g_pay.Http.{Body}
use g_pay.Http.Zod.{Zod}
use g_pay.Http.Reply.{Response, released_to, ok}
use g_pay.Routes.Schemas.{ReleaseBody, release_body}
use g_pay.Routes.Public.{own_deposit, release_deposit, post_release}
use g_pay.Routes.Public.Settle.{
  state_eq_of, own_deposit_iff, Changed, KeepsStore, Refused, refused, settle_returns, settle_cases,
}

module _ (I : Store) (laws : StoreLaws I) where
  -- What has happened when a deposit was released.
  pub record IsReleased (inst : Institution) (body : ReleaseBody) (s : I.S) (resp : Response)
      (s' : I.S) : Type 0 where
    pub deposit : DepositRecord
    pub found : I.get_deposit body.deposit_id s ≡ some deposit
    pub owned : deposit.institution_id ≡ inst.id
    pub was_approved : deposit.state ≡ approved
    pub answer : resp ≡ ok (released_to deposit.id body.target_addr_hex)
    pub changed : Changed I deposit.id released s s'
    pub keeps : KeepsStore I laws s s'

  release_deposit_cases :
      (body : ReleaseBody) (inst : Institution) (s s' : I.S) (resp : Response)
      → release_deposit I body inst s ≡ returned (resp, s')
      → Refused I s resp s' ⊎ IsReleased inst body s resp s'
  unfolding release_deposit
  release_deposit_cases body inst s s' resp h =
      elim (Option-cases (own_deposit I inst body.deposit_id s)) [
        | inl missing ↦
            inl (refused I s s' _ resp (omega arith) (rw (missing, release_deposit) at h))
        | inr (dep, own) ↦ elim (Bool-cases (state_eq dep.state approved)) [
          | inr other ↦
              inl (refused I s s' _ resp (omega arith) (rw (own, release_deposit, other) at h))
          | inl is ↦
              let (found, owned) = (own_deposit_iff I inst body.deposit_id s dep).0 own in
              let (answer, changed, keeps) =
                settle_cases I laws dep.id released _ resp s s'
                  (rw (own, release_deposit, is) at h) in
              inr (record {
                deposit = dep;
                found = found;
                owned = owned;
                was_approved = state_eq_of dep.state approved is;
                answer = answer;
                changed = changed;
                keeps = keeps;
              })
        ]
      ]

  module _ (z : Zod) where
    -- Over a store that meets the contract, a release that answers leaves the store as it was and
    -- is no success, or else it was asked for a deposit of the institution's own that was approved,
    -- and that deposit is now released and is the only one to have changed.
    pub post_release_cases :
        (body : Option Body) (inst : Institution) (s s' : I.S) (resp : Response)
        → post_release I z body inst s ≡ returned (resp, s')
        → Refused I s resp s'
          ⊎ ((b : Body) × (r : ReleaseBody) × (body ≡ some b)
              × (release_body z b ≡ some r)
              × IsReleased inst r s resp s')
    unfolding post_release
    post_release_cases none inst s s' resp h = cc
    post_release_cases (some b) inst s s' resp h = elim (Option-cases (release_body z b)) [
      | inl bad ↦ inl (refused I s s' _ resp (omega arith) (rw (bad, post_release) at h))
      | inr (r, good) ↦
          elim (release_deposit_cases r inst s s' resp (rw (good, post_release) at h)) [
            | inl no_change ↦ inl no_change
            | inr done ↦ inr (b, r, refl, good, done)
          ]
    ]

    -- Over a store that meets the contract, an accepted body that names an approved deposit of the
    -- institution's own is answered with 200, and the deposit is released.
    pub post_release_granted :
        (b : Body) (r : ReleaseBody) (inst : Institution) (s : I.S) (d : DepositRecord)
        → release_body z b ≡ some r
        → I.get_deposit r.deposit_id s ≡ some d
        → d.institution_id ≡ inst.id
        → d.state ≡ approved
        → (s' : I.S) × (post_release I z (some b) inst s
            ≡ returned (ok (released_to d.id r.target_addr_hex), s'))
          × Changed I d.id released s s'
    unfolding post_release release_deposit
    post_release_granted b r inst s d good found owned is =
        let own = (own_deposit_iff I inst r.deposit_id s d).1 (found, owned) in
        let test : state_eq d.state approved ≡ true = rw is refl in
        let (s', e, changed) =
          settle_returns I laws d.id released (ok (released_to d.id r.target_addr_hex)) s in
        (s', rw (good, own, release_deposit, test) e, changed)
