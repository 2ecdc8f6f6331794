-- ===== src/Playground/Failures.antt =====
-- How an action of the playground ends, and what the log says of it.
use g_pay.Base.{
  ◌≢◌, sym, ◌∙◌, some-injective, ◌+◌, ℕ, ◌≡◌, ◌↔◌, refl, Bool, true, false, not, ◌&&◌, Option, none,
  some, List, [], ◌∷◌, Text, if◌then◌else◌,
}
use g_pay.Http.Reply.{ReceivingAddressReply}
use g_pay.Playground.Log.{Level, info, success, error, LogEvent}
use g_pay.Playground.Actions.{Page, emit, Verdict, Fetched, failed, answered, is_ok, fail_with}
use g_pay.Playground.Finish.{
  Issued, whole, keyless, address_of, got_address, emit_signatures, Payment, no_accounts, not_built,
  not_sent, not_confirmed, confirmed, finish_issue, finish_pay, finish_attest, finish_release,
  finish_refund,
}
use g_pay.Playground.Runs.{
  Result, issue_result, pay_result, attest_result, release_result, refund_result, finish,
}

-- What comes back is an exception, or an answer whose status is no success.
abbrev pub fetch_failed : {A : Type 0} → Fetched A → Bool
fetch_failed (failed e) = true
fetch_failed (answered r) = not (is_ok r.status)

-- Does the answer hold the stealth key?
abbrev pub has_key : Issued → Bool
has_key (whole a) = true
has_key (keyless a e) = false

abbrev pub did_fail : Result → Bool
did_fail (issue_result (failed e)) = true
did_fail (issue_result (answered r)) = not (is_ok r.status && has_key r.body)
did_fail (pay_result (confirmed pda sig)) = false
did_fail (pay_result _) = true
did_fail (attest_result v r) = fetch_failed r
did_fail (release_result r) = fetch_failed r
did_fail (refund_result r) = fetch_failed r

-- The address afterwards: that of the answer, if an address was asked for and issued.
abbrev pub address_after : Result → Option ReceivingAddressReply → Option ReceivingAddressReply
address_after (issue_result (answered r)) old =
    if is_ok r.status then some (address_of r.body) else old
address_after _ old = old

abbrev pub newest_level : List LogEvent → Option Level
newest_level [] = none
newest_level (e ∷ es) = some e.event.level

-- The end of an action that failed, or not, on the page before it, with the address afterwards.
pub record Ends (failure : Bool) (address_now : Option ReceivingAddressReply) (p q : Page)
    : Type 0 where
  pub idle : q.busy ≡ none
  pub status : q.status ≡ p.status
  pub balance : q.wallet_balance ≡ p.wallet_balance
  pub told : (newest_level q.log ≡ some error) ↔ (failure ≡ true)
  pub address : q.address ≡ address_now

fail_with-Ends :
    (now : ℕ) (label detail : Text) (a : Option ReceivingAddressReply) (p q : Page)
    → q.status ≡ p.status
    → q.wallet_balance ≡ p.wallet_balance
    → q.address ≡ a
    → Ends true a p (fail_with now label detail q)
unfolding fail_with emit
fail_with-Ends now label detail a p q s w same = record {
  idle = refl;
  status = s;
  balance = w;
  told = (λ _. refl, λ _. refl);
  address = same;
}

no_failure :
    (a : Option ReceivingAddressReply) (p q : Page)
    → q.busy ≡ none
    → q.status ≡ p.status
    → q.wallet_balance ≡ p.wallet_balance
    → q.address ≡ a
    → (l : Level) → newest_level q.log ≡ some l
    → l ≢ error
    → Ends false a p q
no_failure a p q b s w same l newest fine = record {
  idle = b;
  status = s;
  balance = w;
  told = (λ e. absurd (fine (some-injective (sym newest ∙ e))), λ e. cc);
  address = same;
}

info-error : info ≢ error
info-error e = cc

success-error : success ≢ error
success-error e = cc

emit_signatures_lem :
    (now : ℕ) (v : Verdict) (sigs : List Text) (i : ℕ) (p : Page)
    → let q = emit_signatures now v i sigs p in
      (q.status ≡ p.status) × (q.wallet_balance ≡ p.wallet_balance) × (q.address ≡ p.address)
unfolding emit_signatures emit
emit_signatures_lem now v [] i p = (refl, refl, refl)
emit_signatures_lem now v (sig ∷ sigs) i p = emit_signatures_lem now v sigs (i + 1) _

if-Ends :
    (b : Bool) (p x y : Page)
    → Ends false p.address p x
    → Ends true p.address p y
    → Ends (not b) p.address p (if b then x else y)
if-Ends true p x y hx hy = hx
if-Ends false p x y hx hy = hy

got_address-Ends :
    (now status : ℕ) (a : Issued) (p : Page)
    → Ends (not (has_key a)) (some (address_of a)) p (got_address now status a p)
unfolding got_address emit
got_address-Ends now status (whole a) p =
    no_failure (some a) p _ refl refl refl refl success refl success-error
got_address-Ends now status (keyless a e) p = fail_with-Ends now _ _ (some a) p _ refl refl refl

finish_issue-Ends :
    (now : ℕ) (b : Bool) (status : ℕ) (a : Issued) (p y : Page)
    → Ends true p.address p y
    → Ends
        (not (b && has_key a))
        (if b then some (address_of a) else p.address)
        p
        (if b then got_address now status a p else y)
finish_issue-Ends now true status a p y hy = got_address-Ends now status a p
finish_issue-Ends now false status a p y hy = hy

finish_pay-Ends :
    (now : ℕ) (r : Payment) (p : Page)
    → Ends (did_fail (pay_result r)) p.address p (finish_pay now r p)
unfolding finish_pay emit
finish_pay-Ends now (no_accounts e) p = fail_with-Ends now _ _ p.address p _ refl refl refl
finish_pay-Ends now (not_built pda e) p = fail_with-Ends now _ _ p.address p _ refl refl refl
finish_pay-Ends now (not_sent pda e) p = fail_with-Ends now _ _ p.address p _ refl refl refl
finish_pay-Ends now (not_confirmed pda sig e) p =
    fail_with-Ends now _ _ p.address p _ refl refl refl
finish_pay-Ends now (confirmed pda sig) p =
    no_failure p.address p (finish_pay now (confirmed pda sig) p) refl refl refl refl info refl
      info-error

-- Whatever comes back, when the answer of a success is an object, an action of the playground ends
-- with `busy` cleared and with the status and the balance as they were; the newest entry of the log
-- is an error exactly when the request or the payment failed or the answer for an address has no
-- stealth key; and the address is that of the answer if one was asked for with success, a stealth
-- key or not, and otherwise as it was.
pub finish_cases :
    (now : ℕ) (r : Result) (p : Page)
    → Ends (did_fail r) (address_after r p.address) p (finish now r p)
unfolding finish finish_issue finish_attest finish_release finish_refund emit
finish_cases now (issue_result (failed e)) p = fail_with-Ends now _ _ p.address p p refl refl refl
finish_cases now (issue_result (answered r)) p =
    finish_issue-Ends now (is_ok r.status) r.status r.body p _
      (fail_with-Ends now _ _ p.address p p refl refl refl)
finish_cases now (pay_result r) p = finish_pay-Ends now r p
finish_cases now (attest_result v (failed e)) p =
    fail_with-Ends now _ _ p.address p p refl refl refl
finish_cases now (attest_result v (answered r)) p =
    if-Ends (is_ok r.status) p _ _
      (let (s, w, a) =
          emit_signatures_lem now v (elim r.body [ none ↦ [] | some sigs ↦ sigs ]) 0 p in
        no_failure p.address p _ refl s w a info refl info-error)
      (fail_with-Ends now _ _ p.address p p refl refl refl)
finish_cases now (release_result (failed e)) p = fail_with-Ends now _ _ p.address p p refl refl refl
finish_cases now (release_result (answered r)) p =
    if-Ends (is_ok r.status) p _ _
      (no_failure p.address p _ refl refl refl refl success refl success-error)
      (fail_with-Ends now _ _ p.address p p refl refl refl)
finish_cases now (refund_result (failed e)) p = fail_with-Ends now _ _ p.address p p refl refl refl
finish_cases now (refund_result (answered r)) p =
    if-Ends (is_ok r.status) p _ _
      (no_failure p.address p _ refl refl refl refl success refl success-error)
      (fail_with-Ends now _ _ p.address p p refl refl refl)
