-- ===== src/Routes/Public/Overlap/Isolation.antt =====
-- What overlapping releases and refunds leave alone.
use mathlib.Core.Path.{subst}
use g_pay.Base.{
  ℕ, ◌≡◌, ◌≢◌, inl, inr, refl, sym, ap, ◌∙◌, false, some, List, [], ◌∷◌, ◌++◌, Text, text_eq,
  text_eq_ne, All, All-imp, Bool-cases, Option-cases, returned, returned-injective, some-injective,
}
use g_pay.Store.Types.{
  Institution, DepositState, DepositRecord, DepositCreate, approved, state_eq, with_state,
}
use g_pay.Store.Interface.{Draw, Store}
use g_pay.Store.Contract.{StoreLaws}
use g_pay.Http.Reply.{Response}
use g_pay.Routes.Schemas.{ReleaseBody, RefundBody}
use g_pay.Routes.Public.{own_deposit, refundable}
use g_pay.Routes.Public.Settle.{own_deposit_iff, Changed, settle_cases}
use g_pay.Routes.Public.Overlap.{
  Plan, answers, writes, release_plan, refund_plan, perform, InFlight, Overlaps, done,
  reads_release, reads_refund, writes_back, creates,
}

All-split :
    {A : Type 0} (P : A → Type 0) (xs : List A) (a : A) (ys : List A)
    → All P (xs ++ a ∷ ys)
    → P a × All P (xs ++ ys)
All-split P [] a ys (h, hs) = (h, hs)
All-split P (x ∷ xs) a ys (h, hs) = let (here, rest) = All-split P xs a ys hs in (here, (h, rest))

module _ (I : Store) where
  -- A write goes to a deposit that is stored and is the institution's own.
  abbrev pub OwnPlan : I.S → Institution → Plan → Type 0
  OwnPlan s inst (answers r) = Unit {0}
  OwnPlan s inst (writes id st r) =
      (dep : DepositRecord) × (I.get_deposit id s ≡ some dep) × (dep.institution_id ≡ inst.id)

  -- Deposits stay, and with their institutions.
  abbrev KeepsOwners : I.S → I.S → Type 0
  KeepsOwners s t =
      (id : Text) (dep : DepositRecord)
      → I.get_deposit id s ≡ some dep
      → (dep' : DepositRecord) × (I.get_deposit id t ≡ some dep')
        × (dep'.institution_id ≡ dep.institution_id)

  OwnPlan-KeepsOwners :
      (s t : I.S) (inst : Institution) (p : Plan)
      → KeepsOwners s t
      → OwnPlan s inst p
      → OwnPlan t inst p
  OwnPlan-KeepsOwners s t inst (answers r) keeps h = tt
  OwnPlan-KeepsOwners s t inst (writes id st r) keeps (dep, found, owned) =
      let (dep', found', same) = keeps id dep found in (dep', found', same ∙ owned)

  Changed-KeepsOwners :
      (id : Text) (st : DepositState) (s t : I.S) → Changed I id st s t → KeepsOwners s t
  Changed-KeepsOwners id st s t changed j dep found = elim (Bool-cases (text_eq id j)) [
    | inl hit ↦ (with_state st dep, changed j ∙ rw (hit, found) refl, refl)
    | inr miss ↦ (dep, changed j ∙ rw (miss, found) refl, refl)
  ]

module _ (I : Store) (laws : StoreLaws I) where
  -- A write to another deposit.
  perform-foreign :
      (p : Plan) (inst : Institution) (s t : I.S) (resp : Response)
      → perform I p s ≡ returned (resp, t)
      → OwnPlan I s inst p
      → KeepsOwners I s t
        × (laws.IsValid s → laws.IsValid t)
        × ((j : Text) (d : DepositRecord)
            → I.get_deposit j s ≡ some d
            → d.institution_id ≢ inst.id
            → I.get_deposit j t ≡ some d)
  perform-foreign (answers r) inst s t resp h own =
      let same : ◌≡◌ {A = Response × I.S} (r, s) (resp, t) = returned-injective h in
      subst
        (λ (p : Response × I.S).
          KeepsOwners I s p.1
          × (laws.IsValid s → laws.IsValid p.1)
          × ((j : Text) (d : DepositRecord)
              → I.get_deposit j s ≡ some d
              → d.institution_id ≢ inst.id
              → I.get_deposit j p.1 ≡ some d))
        same ((λ id dep found. (dep, found, refl)), (λ v. v), λ j d found differs. found)
  perform-foreign (writes id st r) inst s t resp h (dep, there, owned) =
      let (answer, changed, (keys, valid)) = settle_cases I laws id st r resp s t h in
      (
        Changed-KeepsOwners I id st s t changed,
        valid,
        λ j d found differs.
            let other : text_eq id j ≡ false = text_eq_ne id j (λ e. differs (
              ap (λ (x : DepositRecord). x.institution_id)
                (some-injective (sym found ∙ ap (λ i. I.get_deposit i s) (sym e) ∙ there))
              ∙ owned)) in
            changed j ∙ rw (other, found) refl,
      )

  release_plan-OwnPlan :
      (body : ReleaseBody) (inst : Institution) (s : I.S)
      → laws.IsValid s
      → OwnPlan I s inst (release_plan I body inst s)
  unfolding release_plan
  release_plan-OwnPlan body inst s v = elim (Option-cases (own_deposit I inst body.deposit_id s)) [
    | inl missing ↦ rw (missing, release_plan) tt
    | inr (dep, own) ↦
        let (found, owned) = (own_deposit_iff I inst body.deposit_id s dep).0 own in
        let same = laws.get_id body.deposit_id s dep v found in
        elim (Bool-cases (state_eq dep.state approved)) [
          | inl is ↦
              rw (own, release_plan, is)
                (dep, subst (λ i. I.get_deposit i s ≡ some dep) (sym same) found, owned)
          | inr other ↦ rw (own, release_plan, other) tt
        ]
  ]

  refund_plan-OwnPlan :
      (now : ℕ) (body : RefundBody) (inst : Institution) (s : I.S)
      → laws.IsValid s
      → OwnPlan I s inst (refund_plan I now body inst s)
  unfolding refund_plan
  refund_plan-OwnPlan now body inst s v =
      elim (Option-cases (own_deposit I inst body.deposit_id s)) [
        | inl missing ↦ rw (missing, refund_plan) tt
        | inr (dep, own) ↦
            let (found, owned) = (own_deposit_iff I inst body.deposit_id s dep).0 own in
            let same = laws.get_id body.deposit_id s dep v found in
            elim (Bool-cases (refundable now dep)) [
              | inl is ↦
                  rw (own, refund_plan, is)
                    (dep, subst (λ i. I.get_deposit i s ≡ some dep) (sym same) found, owned)
              | inr other ↦ rw (own, refund_plan, other) tt
            ]
      ]

  create-KeepsOwners :
      (draw : Draw) (r : DepositCreate) (d : DepositRecord) (s t : I.S)
      → laws.IsValid s
      → I.create_deposit draw r s ≡ returned (d, t)
      → (j : Text) (e : DepositRecord) → I.get_deposit j s ≡ some e
      → I.get_deposit j t ≡ some e
  create-KeepsOwners draw r d s t v h j e found =
      let (fresh, filled, looks, keys, valid) = laws.create draw r s t d v h in
      let other : text_eq d.id j ≡ false = text_eq_ne d.id j (λ same. cc) in
      looks j ∙ rw (other, found) refl

  -- Whatever is in flight still goes to its institution's own deposits when other deposits come and
  -- states change.
  abbrev Fits : (Institution → Type 0) → I.S → InFlight → Type 0
  Fits Acts s f = Acts f.inst × OwnPlan I s f.inst f.plan

  Fits-KeepsOwners :
      (Acts : Institution → Type 0) (s t : I.S) (fs : List InFlight)
      → KeepsOwners I s t
      → All (Fits Acts s) fs
      → All (Fits Acts t) fs
  Fits-KeepsOwners Acts s t fs keeps h =
      All-imp {P = Fits Acts s} {Q = Fits Acts t}
        (λ f (acts, own). (acts, OwnPlan-KeepsOwners I s t f.inst f.plan keeps own)) fs h

  foreign_stays :
      (j : Text) (d : DepositRecord) (s u : I.S) (fs gs : List InFlight)
      → Overlaps I (λ inst. d.institution_id ≢ inst.id) s fs u gs
      → laws.IsValid s
      → All (Fits (λ inst. d.institution_id ≢ inst.id) s) fs
      → I.get_deposit j s ≡ some d
      → I.get_deposit j u ≡ some d
  foreign_stays j d s u fs gs (done _ _) v h found = found
  foreign_stays j d s u fs gs (reads_release body inst _ _ _ _ acts rest) v h found =
      foreign_stays j d s u (record { inst = inst; plan = release_plan I body inst s } ∷ fs) gs rest
        v ((acts, release_plan-OwnPlan body inst s v), h) found
  foreign_stays j d s u fs gs (reads_refund now body inst _ _ _ _ acts rest) v h found =
      foreign_stays j d s u (record { inst = inst; plan = refund_plan I now body inst s } ∷ fs) gs
        rest v ((acts, refund_plan-OwnPlan now body inst s v), h) found
  foreign_stays j d s u _ gs (writes_back f resp _ t _ xs ys _ wrote rest) v h found =
      let ((acts, own), others) =
        All-split (Fits (λ inst. d.institution_id ≢ inst.id) s) xs f ys h in
      let (keeps, valid, foreign) = perform-foreign f.plan f.inst s t resp wrote own in
      foreign_stays j d t u (xs ++ ys) gs rest (valid v)
        (Fits-KeepsOwners (λ inst. d.institution_id ≢ inst.id) s t (xs ++ ys) keeps others)
        (foreign j d found acts)
  foreign_stays j d s u fs gs (creates draw r e _ t _ _ _ made rest) v h found =
      let kept = create-KeepsOwners draw r e s t v made in
      let (fresh, filled, looks, keys, valid) = laws.create draw r s t e v made in
      foreign_stays j d t u fs gs rest valid
        (Fits-KeepsOwners (λ inst. d.institution_id ≢ inst.id) s t fs
          (λ i dep there. (dep, kept i dep there, refl)) h)
        (kept j d found)

  -- Over a valid store that meets the contract, a deposit is not changed while other institutions
  -- release and refund and while anyone creates deposits, also when these requests overlap: each
  -- may read long before it writes, others read, write and create in between, and the writes come
  -- in any order.
  pub overlapping_requests_foreign :
      (j : Text) (d : DepositRecord) (s u : I.S) (gs : List InFlight)
      → laws.IsValid s
      → I.get_deposit j s ≡ some d
      → Overlaps I (λ inst. d.institution_id ≢ inst.id) s [] u gs
      → I.get_deposit j u ≡ some d
  overlapping_requests_foreign j d s u gs v found run = foreign_stays j d s u [] gs run v tt found
