-- ===== src/Playground/View/Busy.antt =====
-- What the buttons show of the action in progress, and of a step that is blocked.
use g_pay.Base.{
  ◌&&◌, ap, some-injective, ◌≢◌, ℕ, ◌≡◌, ◌↔◌, inl, inr, refl, arith, Bool, true, false, not, Option,
  none, some, Text, codes, All, text_eq, text_eq_iff, Bool-cases, if◌then◌else◌,
}
use g_pay.Store.Types.{DepositState, pending, state_eq}
use g_pay.Playground.{state_now, can_pay, can_attest, can_release, can_refund, on_chain_seen}
use g_pay.Playground.Actions.{
  Page, Action, issue, pay, attest, release, refund, clean, dirty, present, busy_name,
}
use g_pay.Playground.View.Rendering.{
  ready, done, blocked, StepProps, ShownButton, shown_button, shown_buttons,
}
use g_pay.Playground.View.Steps.{issue_step, pay_step, detection_step, is_busy, button, pay_status}
use g_pay.Playground.View.Settling.{attestation_step, settle_step, attest_status, settle_status}
use g_pay.Playground.View.{Connection, steps, playground}
use g_pay.Playground.View.Buttons.{EachButton, EachButton-step}

abbrev submitting : Text
submitting = codes "Submitting…"

-- What a button shows of the action in progress.
abbrev pub Reports : Option Text → ShownButton → Type 0
Reports busy b =
    (present busy ≡ true → b.enabled ≡ false)
    × ((b.text ≡ codes "Submitting…") ↔ (busy ≡ some (busy_name b.calls)))

is_busy_iff : (busy : Option Text) (name : Text) → (is_busy busy name ≡ true) ↔ (busy ≡ some name)
is_busy_iff none name = ground arith
is_busy_iff (some b) name =
    (λ e. ap some ((text_eq_iff b name).0 e), λ e. (text_eq_iff b name).1 (some-injective e))

button-Reports :
    (busy : Option Text) (label : Text) (can : Bool) (a : Action) (danger : Bool)
    → text_eq label submitting ≡ false
    → Reports busy (shown_button (button busy label can a danger))
unfolding shown_button
button-Reports busy label can a danger other =
    let named = is_busy_iff busy (busy_name a) in
    (
      λ e. ground arith,
      elim (Bool-cases (is_busy busy (busy_name a))) [
        | inl e ↦ rw e (λ _. named.0 e, λ _. refl)
        | inr e ↦ rw e (λ l. cc (other, (text_eq_iff label submitting).1 l), λ b. cc (e, named.1 b))
      ],
    )

again-text_eq :
    (here : Bool)
    → text_eq (if here then codes "Re-issue address" else codes "Issue address") submitting ≡ false
unfolding text_eq
again-text_eq true = refl
again-text_eq false = refl

module _ (now : ℕ) (c : Connection) (p : Page) where
  steps-Reports :
      All
        (λ (props : StepProps).
          All (Reports p.busy) (shown_buttons props.action props.secondary_action))
        (steps now c p)
  unfolding steps issue_step pay_step detection_step attestation_step settle_step shown_buttons
      text_eq
  steps-Reports =
      let b = p.busy in
      let one = button-Reports b _ true issue false (again-text_eq (present p.address)) in
      let two =
        button-Reports b (codes "Send 0.01 SOL") (can_pay c.connected (present p.address) p.status)
          pay false refl in
      let accept =
        button-Reports b (codes "Run AML check (clean)") (can_attest p.status) (attest clean) false
          refl in
      let reject =
        button-Reports b (codes "Reject (dirty)") (can_attest p.status) (attest dirty) true refl in
      let free =
        button-Reports b (codes "Release to fresh slice") (can_release p.status) release false
          refl in
      let back =
        button-Reports b (codes "Refund to sender") (can_refund now p.status) refund false refl in
      ((one, tt), ((two, tt), (tt, ((accept, (reject, tt)), ((free, (back, tt)), tt)))))

-- On every screen of the playground no button is enabled while an action is in progress, and a
-- button reads Submitting… exactly when the action in progress is its own.
pub busy_reported :
    (opened : ℕ → Bool) (now : ℕ) (c : Connection) (p : Page)
    → EachButton (Reports p.busy) (playground opened now c p).sections
unfolding playground
busy_reported opened now c p =
    EachButton-step (Reports p.busy) opened (steps now c p) (steps-Reports now c p)

abbrev Off : ShownButton → Type 0
Off b = b.enabled ≡ false

button-Off :
    (busy : Option Text) (label : Text) (can : Bool) (a : Action) (danger : Bool)
    → can ≡ false
    → Off (shown_button (button busy label can a danger))
unfolding shown_button
button-Off busy label can a danger h = rw h refl

if_blocked : (here : Bool) → (if here then done else ready) ≢ blocked
if_blocked true h = cc
if_blocked false h = cc

pay_blocked :
    (here connected : Bool) (seen pend : Bool)
    → pay_status here connected seen ≡ blocked
    → (connected && here && not seen && pend) ≡ false
unfolding pay_status
pay_blocked here connected seen pend h = ground arith

attest_blocked :
    (can : Bool) (state : DepositState) → attest_status can state ≡ blocked → can ≡ false
unfolding attest_status
attest_blocked can state h = ground arith

settle_blocked :
    (can_release can_refund : Bool) (state : DepositState)
    → settle_status can_release can_refund state ≡ blocked
    → (can_release ≡ false) × (can_refund ≡ false)
unfolding settle_status
settle_blocked can_release can_refund state h = (ground arith, ground arith)

-- A step that is shown as blocked has no enabled button.
pub blocked_off :
    (now : ℕ) (c : Connection) (p : Page)
    → All
        (λ (props : StepProps).
          props.status ≡ blocked
          → All
              (λ (b : ShownButton). b.enabled ≡ false)
              (shown_buttons props.action props.secondary_action))
        (steps now c p)
unfolding steps issue_step pay_step detection_step attestation_step settle_step shown_buttons
    can_pay
blocked_off now c p = (
  (λ e. absurd (if_blocked _ e)),
  (
    (λ e. (
      button-Off p.busy _ _ pay false (
          pay_blocked (present p.address) c.connected (on_chain_seen p.status)
            (state_eq (state_now p.status) pending) e),
      tt,
    )),
    (
      (λ e. tt),
      (
        (λ e. (
          button-Off p.busy _ _ (attest clean) false (attest_blocked _ _ e),
          (button-Off p.busy _ _ (attest dirty) true (attest_blocked _ _ e), tt),
        )),
        (
          (λ e. (
            button-Off p.busy _ _ release false (settle_blocked _ _ _ e).0,
            (button-Off p.busy _ _ refund false (settle_blocked _ _ _ e).1, tt),
          )),
          tt,
        ),
      ),
    ),
  ),
)
