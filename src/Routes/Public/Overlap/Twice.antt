-- ===== src/Routes/Public/Overlap/Twice.antt =====
-- Two releases of one deposit, one after the other and overlapping.
use g_pay.Base.{◌≡◌, refl, ap, ◌∙◌, true, false, some, codes, text_eq, text_eq_refl, returned}
use g_pay.Store.Types.{Institution, DepositRecord, approved, released, state_eq, with_state}
use g_pay.Store.Interface.{Store}
use g_pay.Store.Contract.{StoreLaws}
use g_pay.Http.Reply.{Response, ok, error_in_state, released_to}
use g_pay.Routes.Schemas.{ReleaseBody}
use g_pay.Routes.Public.{release_deposit}
use g_pay.Routes.Public.Settle.{own_deposit_iff, settle_returns}
use g_pay.Routes.Public.Overlap.{writes, release_plan, perform}

abbrev pub too_late : Response
too_late = record { status = 409; reply = error_in_state (codes "not_approved") released }

-- What a granted release answers.
abbrev pub granted : DepositRecord → ReleaseBody → Response
granted dep body = ok (released_to dep.id body.target_addr_hex)

module _ (I : Store) (laws : StoreLaws I) where
  release_plan-approved :
      (body : ReleaseBody) (inst : Institution) (s : I.S) (dep : DepositRecord)
      → I.get_deposit body.deposit_id s ≡ some dep
      → dep.institution_id ≡ inst.id
      → dep.state ≡ approved
      → release_plan I body inst s ≡ writes dep.id released (granted dep body)
  unfolding release_plan
  release_plan-approved body inst s dep found owned is =
      let own = (own_deposit_iff I inst body.deposit_id s dep).1 (found, owned) in
      let test : state_eq dep.state approved ≡ true = rw is refl in
      rw (own, release_plan, test) refl

  release_deposit-released :
      (body : ReleaseBody) (inst : Institution) (s : I.S) (dep : DepositRecord)
      → I.get_deposit body.deposit_id s ≡ some dep
      → dep.institution_id ≡ inst.id
      → dep.state ≡ released
      → release_deposit I body inst s ≡ returned (too_late, s)
  unfolding release_deposit
  release_deposit-released body inst s dep found owned is =
      let own = (own_deposit_iff I inst body.deposit_id s dep).1 (found, owned) in
      let test : state_eq dep.state approved ≡ false = rw is refl in
      rw (own, release_deposit, test, is) refl

  -- Over a valid store that meets the contract, of two releases of an institution's own approved
  -- deposit that both read before either writes, each is granted with its own target address, and
  -- the deposit is then released; had the second read after the first had written, it would have
  -- been refused with 409, and the store left as it was.
  pub overlapping_releases :
      (one two : ReleaseBody) (inst : Institution) (s : I.S) (dep : DepositRecord)
      → laws.IsValid s
      → I.get_deposit one.deposit_id s ≡ some dep
      → two.deposit_id ≡ one.deposit_id
      → dep.institution_id ≡ inst.id
      → dep.state ≡ approved
      → (t : I.S) × (u : I.S) × (perform I (release_plan I one inst s) s
          ≡ returned (granted dep one, t))
        × (perform I (release_plan I two inst s) t ≡ returned (granted dep two, u))
        × (I.get_deposit one.deposit_id u ≡ some (with_state released dep))
        × (release_deposit I two inst t ≡ returned (too_late, t))
  overlapping_releases one two inst s dep v found both owned is =
      let same = laws.get_id one.deposit_id s dep v found in
      let (t, first, after) = settle_returns I laws dep.id released (granted dep one) s in
      let (u, second, finally) = settle_returns I laws dep.id released (granted dep two) t in
      let hit : text_eq dep.id one.deposit_id ≡ true =
        ap (λ i. text_eq i one.deposit_id) same ∙ text_eq_refl one.deposit_id in
      let then_ : I.get_deposit one.deposit_id t ≡ some (with_state released dep) =
        after one.deposit_id ∙ rw (hit, found) refl in
      let found_two : I.get_deposit two.deposit_id s ≡ some dep = cc in
      let then_two : I.get_deposit two.deposit_id t ≡ some (with_state released dep) = cc in
      (
        t,
        u,
        ap (λ p. perform I p s) (release_plan-approved one inst s dep found owned is) ∙ first,
        ap (λ p. perform I p t) (release_plan-approved two inst s dep found_two owned is) ∙ second,
        finally one.deposit_id ∙ rw (hit, then_) refl,
        release_deposit-released two inst t (with_state released dep) then_two owned refl,
      )
