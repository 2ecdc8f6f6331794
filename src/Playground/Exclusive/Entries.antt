-- ===== src/Playground/Exclusive/Entries.antt =====
-- What an action adds to the log, and how it ends.
use g_pay.Base.{
  ℕ, ◌+◌, ◌≡◌, ◌≤◌, refl, arith, Bool, true, false, none, List, [], ◌∷◌, Text, length, length-take,
  if◌then◌else◌,
}
use g_pay.Playground.Log.{Event}
use g_pay.Playground.Actions.{
  Page, emit, set_busy, Verdict, failed, answered, present, is_ok, fail_with,
}
use g_pay.Playground.Finish.{
  Issued, whole, keyless, got_address, Payment, no_accounts, not_built, not_sent, not_confirmed,
  confirmed, finish_issue, finish_pay, finish_attest, emit_signatures, finish_release,
  finish_refund,
}
use g_pay.Playground.Runs.{
  Result, issue_result, pay_result, attest_result, release_result, refund_result, finish,
}

pub if_both {ℓ} :
    {A : Type ℓ} (P : A → Type 0) (b : Bool) {x y : A} → P x → P y → P (if b then x else y)
if_both P true hx hy = hx
if_both P false hx hy = hy

-- The condition on the log: at most 60 entries, and no more than were written.
abbrev pub LogFits : Page → Type 0
LogFits p = (length p.log ≤ 60) × (length p.log ≤ p.log_id)

-- `q` is `p` with entries in the log, and perhaps another address.
pub record Extends (p q : Page) : Type 0 where
  pub busy : q.busy ≡ p.busy
  pub status : q.status ≡ p.status
  pub address : present p.address ≡ true → present q.address ≡ true
  pub fits : LogFits p → LogFits q

-- An action has ended.
pub record Ended (p q : Page) : Type 0 where
  pub idle : q.busy ≡ none
  pub status : q.status ≡ p.status
  pub address : present p.address ≡ true → present q.address ≡ true
  pub fits : LogFits p → LogFits q

pub emit-LogFits : (now : ℕ) (e : Event) (q : Page) → LogFits q → LogFits (emit now e q)
unfolding emit
emit-LogFits now e q (short, few) =
    let n = length-take 60 (record { ts = now; event = e } ∷ q.log) in
    (omega (arith, n), omega (arith, n))

Extends-emit : (now : ℕ) (e : Event) {p q : Page} → Extends p q → Extends p (emit now e q)
Extends-emit now e {q} h = record {
  busy = unfold emit in h.busy;
  status = unfold emit in h.status;
  address = unfold emit in h.address;
  fits = λ f. emit-LogFits now e q (h.fits f);
}

Extends-refl : (p : Page) → Extends p p
Extends-refl p = record { busy = refl; status = refl; address = λ h. h; fits = λ h. h }

ended : {p q : Page} → Extends p q → Ended p (set_busy none q)
ended h = record { idle = refl; status = h.status; address = h.address; fits = h.fits }

fail_with-Ended :
    (now : ℕ) (label detail : Text) {p q : Page}
    → Extends p q
    → Ended p (fail_with now label detail q)
unfolding fail_with
fail_with-Ended now label detail h = ended (Extends-emit now _ h)

emit_signatures-Extends :
    (now : ℕ) (v : Verdict) (sigs : List Text) (i : ℕ) {p q : Page}
    → Extends p q
    → Extends p (emit_signatures now v i sigs q)
unfolding emit_signatures
emit_signatures-Extends now v [] i h = h
emit_signatures-Extends now v (sig ∷ sigs) i h =
    emit_signatures-Extends now v sigs (i + 1) (Extends-emit now _ h)

finish_pay-Ended : (now : ℕ) (r : Payment) (p : Page) → Ended p (finish_pay now r p)
unfolding finish_pay
finish_pay-Ended now (no_accounts e) p = fail_with-Ended now _ _ (Extends-refl p)
finish_pay-Ended now (not_built pda e) p =
    fail_with-Ended now _ _ (Extends-emit now _ (Extends-refl p))
finish_pay-Ended now (not_sent pda e) p =
    fail_with-Ended now _ _ (Extends-emit now _ (Extends-emit now _ (Extends-refl p)))
finish_pay-Ended now (not_confirmed pda sig e) p =
    fail_with-Ended now _ _
      (Extends-emit now _ (Extends-emit now _ (Extends-emit now _ (Extends-refl p))))
finish_pay-Ended now (confirmed pda sig) p = ended (
    Extends-emit now _
      (Extends-emit now _ (Extends-emit now _ (Extends-emit now _ (Extends-refl p)))))

got_address-Ended : (now status : ℕ) (a : Issued) (p : Page) → Ended p (got_address now status a p)
unfolding got_address
got_address-Ended now status (whole a) p =
    ended (
      Extends-emit now _
        (record { busy = refl; status = refl; address = λ h. refl; fits = λ h. h }))
got_address-Ended now status (keyless a e) p =
    fail_with-Ended now _ _
      (record { busy = refl; status = refl; address = λ h. refl; fits = λ h. h })

pub finish-Ended : (now : ℕ) (r : Result) (p : Page) → Ended p (finish now r p)
unfolding finish finish_issue finish_attest finish_release finish_refund
finish-Ended now (issue_result (failed e)) p = fail_with-Ended now _ _ (Extends-refl p)
finish-Ended now (issue_result (answered r)) p =
    if_both (Ended p) (is_ok r.status) (got_address-Ended now r.status r.body p)
      (fail_with-Ended now _ _ (Extends-refl p))
finish-Ended now (pay_result r) p = finish_pay-Ended now r p
finish-Ended now (attest_result v (failed e)) p = fail_with-Ended now _ _ (Extends-refl p)
finish-Ended now (attest_result v (answered r)) p =
    if_both (Ended p) (is_ok r.status)
      (ended (Extends-emit now _ (emit_signatures-Extends now v _ 0 (Extends-refl p))))
      (fail_with-Ended now _ _ (Extends-refl p))
finish-Ended now (release_result (failed e)) p = fail_with-Ended now _ _ (Extends-refl p)
finish-Ended now (release_result (answered r)) p =
    if_both (Ended p) (is_ok r.status) (ended (Extends-emit now _ (Extends-refl p)))
      (fail_with-Ended now _ _ (Extends-refl p))
finish-Ended now (refund_result (failed e)) p = fail_with-Ended now _ _ (Extends-refl p)
finish-Ended now (refund_result (answered r)) p =
    if_both (Ended p) (is_ok r.status) (ended (Extends-emit now _ (Extends-refl p)))
      (fail_with-Ended now _ _ (Extends-refl p))
