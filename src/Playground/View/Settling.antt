-- ===== src/Playground/View/Settling.antt =====
-- The fourth and the fifth step: the attestation, and the release or the refund.
use g_pay.Base.{
  ℕ, Bool, true, false, ◌&&◌, ◌||◌, not, Option, none, some, [], ◌∷◌, ◌++◌, Text, codes, text_eq,
  if◌then◌else◌,
}
use g_pay.Store.Types.{DepositState, pending, approved, rejected, released, refunded, state_eq}
use g_pay.Http.{text, object}
use g_pay.Http.Reply.{ReceivingAddressReply, PaymentStatusReply}
use g_pay.Playground.{state_now, on_chain_seen, can_attest, can_release, can_refund}
use g_pay.Playground.Log.{institution, oracles}
use g_pay.Playground.Actions.{Page, attest, release, refund, clean, dirty, present}
use g_pay.Playground.View.Rendering.{
  StepStatus, ready, done, blocked, Shown, object_json, plain, no_children, StepProps,
}
use g_pay.Playground.View.Prose.{
  attest_tooltip, settle_tooltip, approved_summary, rejected_summary, released_summary,
  refunded_summary,
}
use g_pay.Playground.View.Steps.{button}

unfoldable pub attest_status : (can : Bool) → DepositState → StepStatus
attest_status can state = if can then ready else if state_eq state pending then blocked else done

unfoldable pub attest_summary : DepositState → Option Text
attest_summary approved = some approved_summary
attest_summary rejected = some rejected_summary
attest_summary _ = none

unfoldable pub attest_reason : (have_address seen : Bool) → Option Text
attest_reason have_address seen =
    if not have_address
    then some (codes "Run step 1 first.")
    else if not seen
    then some (codes "Wait for the indexer to detect your deposit.")
    else none

unfoldable pub attest_request : Option ReceivingAddressReply → Option Shown
attest_request none = none
attest_request (some address) = some (
    object_json (
      object (
        (codes "deposit_id", text address.deposit_id)
        ∷ (codes "verdict", text (codes "clean | dirty"))
        ∷ [])))

-- The answer is shown when the chain's state is one of the two.
unfoldable pub attest_response : Option PaymentStatusReply → Option Shown
attest_response none = none
attest_response (some status) = elim status.on_chain_state [
  | none ↦ none
  | some state ↦
      if text_eq state (codes "approved") || text_eq state (codes "rejected")
      then some (plain (codes "on_chain_state: " ++ state))
      else none
]

unfoldable pub attestation_step : Page → StepProps
attestation_step p =
    let can = can_attest p.status in
    record {
      n = 4;
      title = codes "AML attestation";
      tooltip = attest_tooltip;
      status = attest_status can (state_now p.status);
      actor = oracles;
      summary = attest_summary (state_now p.status);
      action = some (button p.busy (codes "Run AML check (clean)") can (attest clean) false);
      secondary_action = some (button p.busy (codes "Reject (dirty)") can (attest dirty) true);
      blocked_reason = attest_reason (present p.address) (on_chain_seen p.status);
      api = record {
        method = codes "POST";
        path = codes "/v1/demo/attest";
        request = attest_request p.address;
        response = attest_response p.status;
      };
      children = no_children;
    }

-- `stateNow === "released" || stateNow === "refunded"`
abbrev pub is_settled : DepositState → Bool
is_settled state = state_eq state released || state_eq state refunded

unfoldable pub settle_status : (can_release can_refund : Bool) → DepositState → StepStatus
settle_status can_release can_refund state =
    if is_settled state then done else if can_release || can_refund then ready else blocked

unfoldable pub settle_reason : (can_release can_refund : Bool) → DepositState → Option Text
settle_reason can_release can_refund state =
    if is_settled state
    then none
    else if not can_release && not can_refund
    then some (codes "Need an Approved or Rejected state.")
    else none

unfoldable pub settle_summary : DepositState → Option Text
settle_summary released = some released_summary
settle_summary refunded = some refunded_summary
settle_summary _ = none

unfoldable pub settle_request : Option ReceivingAddressReply → Option Shown
settle_request none = none
settle_request (some address) =
    some (plain (codes "{ \"deposit_id\": \"" ++ address.deposit_id ++ codes "\" }"))

unfoldable pub settle_step : ℕ → Page → StepProps
settle_step now p =
    let releasing = can_release p.status in
    let refunding = can_refund now p.status in
    record {
      n = 5;
      title = codes "Release / Refund";
      tooltip = settle_tooltip;
      status = settle_status releasing refunding (state_now p.status);
      actor = institution;
      summary = settle_summary (state_now p.status);
      action = some (button p.busy (codes "Release to fresh slice") releasing release false);
      secondary_action = some (button p.busy (codes "Refund to sender") refunding refund false);
      blocked_reason = settle_reason releasing refunding (state_now p.status);
      api = record {
        method = codes "POST";
        path = codes "/v1/demo/release | /v1/demo/refund";
        request = settle_request p.address;
        response = none;
      };
      children = no_children;
    }
