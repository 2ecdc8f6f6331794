-- ===== src/Playground/Agreement.antt =====
-- The playground's conditions beside the gateway's.
use g_pay.Base.{ℕ, ◌≡◌, ◌↔◌, refl, Bool, true, false, ◌&&◌, not, some, arith, codes}
use g_pay.Store.Types.{DepositRecord, DepositState, approved, pending, state_eq, with_state}
use g_pay.Http.Reply.{error_in_state}
use g_pay.Demo.{Tools}
use g_pay.Demo.Steps.{release_step, refund_step, refund_args}
use g_pay.Routes.Public.{payment_status_reply, refundable}
use g_pay.Playground.{
  on_chain_seen, state_now, can_pay, can_attest, can_release, overdue, can_refund,
}

never_both : (a b seen p : Bool) → ((a && b && not seen && p) && (seen && p)) ≡ false
never_both a b seen p = ground arith

-- On the status that the gateway sends for a deposit, the playground offers a refund exactly when
-- the deposit passes the test of POST /v1/refund, and a release exactly when it is approved; it
-- never offers a release and a refund together, nor a payment and an attestation together. The
-- demo's handlers, which its buttons call, refuse with 409 a release that is not offered, but
-- answer a refund alike whatever the state.
pub can_refund-payment_status_reply :
    (now : ℕ) (connected have_address : Bool) (t : Tools) (d : DepositRecord)
    → let status = some (payment_status_reply d) in
      (can_refund now status ≡ refundable now d)
      × ((can_release status ≡ true) ↔ (d.state ≡ approved))
      × ((can_release status && can_refund now status) ≡ false)
      × ((can_pay connected have_address status && can_attest status) ≡ false)
      × (can_release status ≡ false
          → release_step t d
            ≡ record { status = 409; reply = error_in_state (codes "not_approved") d.state })
      × ((st : DepositState) → refund_step t (with_state st d) ≡ refund_step t d)
unfolding can_refund can_release can_pay can_attest on_chain_seen state_now overdue refundable
    payment_status_reply release_step refund_step refund_args
can_refund-payment_status_reply now connected have_address t d = (
  refl,
  (λ e. ground arith, λ e. ground arith),
  ground arith,
  never_both connected have_address (on_chain_seen (some (payment_status_reply d)))
      (state_eq d.state pending),
  λ e. rw e refl,
  λ st. refl,
)
