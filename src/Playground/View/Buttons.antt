-- ===== src/Playground/View/Buttons.antt =====
-- The buttons of the playground and the actions that they call.
use g_pay.Base.{
  ℕ, ◌≡◌, inl, inr, refl, arith, Bool, true, false, Option, none, some, List, [], ◌∷◌, Text, All,
  Bool-cases, map,
}
use g_pay.Http.Reply.{PaymentStatusReply}
use g_pay.Playground.{
  state_now, on_chain_seen, can_pay, can_attest, can_release, can_refund, overdue,
}
use g_pay.Playground.Texts.{Wallet}
use g_pay.Playground.Actions.{
  Page, Action, issue, pay, attest, release, refund, clean, dirty, begin, when_idle, when_present,
  present,
}
use g_pay.Playground.Runs.{Session, Reachable}
use g_pay.Playground.Exclusive.Begun.{needs_address}
use g_pay.Playground.Exclusive.{Invariant, one_action_at_a_time}
use g_pay.Playground.View.Rendering.{
  StepProps, ShownButton, shown_button, shown_buttons, Section, step,
}
use g_pay.Playground.View.Steps.{issue_step, pay_step, detection_step, button}
use g_pay.Playground.View.Settling.{attestation_step, settle_step}
use g_pay.Playground.View.{Connection, steps, playground}

when_idle-present :
    {A : Type 0} (b : Option Text) (o : Option A)
    → present b ≡ false
    → present o ≡ true
    → present (when_idle b o) ≡ true
unfolding when_idle
when_idle-present none o idle h = h
when_idle-present (some b) o idle h = cc

when_present-present :
    {A B : Type 0} (a : Option A) (o : Option B)
    → present a ≡ true
    → present o ≡ true
    → present (when_present a o) ≡ true
unfolding when_present
when_present-present none o here h = cc
when_present-present (some a) o here h = h

-- Whether an action asks for a wallet.
abbrev needs_wallet : Action → Bool
needs_wallet pay = true
needs_wallet _ = false

begin-present :
    (now : ℕ) (wallet : Option Wallet) (a : Action) (p : Page)
    → present p.busy ≡ false
    → (needs_address a ≡ true → present p.address ≡ true)
    → (needs_wallet a ≡ true → present wallet ≡ true)
    → present (begin now wallet a p) ≡ true
unfolding begin
begin-present now wallet issue p idle address w = when_idle-present _ _ idle refl
begin-present now wallet pay p idle address w =
    when_idle-present _ _ idle
      (when_present-present _ _ (address refl) (when_present-present _ _ (w refl) refl))
begin-present now wallet release p idle address w =
    when_idle-present _ _ idle (when_present-present _ _ (address refl) refl)
begin-present now wallet refund p idle address w =
    when_idle-present _ _ idle (when_present-present _ _ (address refl) refl)
begin-present now wallet (attest v) p idle address w =
    when_idle-present _ _ idle (when_present-present _ _ (address refl) refl)

-- A status that opens a step was got for an address.
asked :
    {fs : List Action} {p : Page}
    → Invariant fs p
    → present p.status ≡ true
    → present p.address ≡ true
asked {p} inv here = elim (Bool-cases (present p.address)) [
  | inl there ↦ there
  | inr gone ↦ cc (inv.unasked gone, here)
]

can_attest-present :
    (status : Option PaymentStatusReply) → can_attest status ≡ true → present status ≡ true
unfolding can_attest on_chain_seen
can_attest-present none h = cc
can_attest-present (some status) h = refl

can_release-present :
    (status : Option PaymentStatusReply) → can_release status ≡ true → present status ≡ true
unfolding can_release state_now
can_release-present none h = cc
can_release-present (some status) h = refl

can_refund-present :
    (now : ℕ) (status : Option PaymentStatusReply)
    → can_refund now status ≡ true
    → present status ≡ true
unfolding can_refund state_now overdue
can_refund-present now none h = cc
can_refund-present now (some status) h = refl

-- A step's buttons do what they offer.
abbrev Starts : ℕ → Option Wallet → Page → ShownButton → Type 0
Starts now wallet p b = b.enabled ≡ true → present (begin now wallet b.calls p) ≡ true

button-Starts :
    (now : ℕ) (wallet : Option Wallet) (p : Page) (label : Text) (can : Bool) (a : Action)
    (danger : Bool)
    → (can ≡ true → needs_address a ≡ true → present p.address ≡ true)
    → (can ≡ true → needs_wallet a ≡ true → present wallet ≡ true)
    → Starts now wallet p (shown_button (button p.busy label can a danger))
unfolding shown_button
button-Starts now wallet p label can a danger address w h =
    let able : can ≡ true = ground arith in
    begin-present now wallet a p (ground arith) (address able) (w able)

-- A button that opens with the status, for an action that asks for no wallet.
follows-Starts :
    {fs : List Action} (now : ℕ) (wallet : Option Wallet) (p : Page) (label : Text) (can : Bool)
    (a : Action) (danger : Bool)
    → Invariant fs p
    → needs_wallet a ≡ false
    → (can ≡ true → present p.status ≡ true)
    → Starts now wallet p (shown_button (button p.busy label can a danger))
follows-Starts now wallet p label can a danger inv free seen =
    button-Starts now wallet p label can a danger (λ e n. asked inv (seen e)) (λ e n. cc (free, n))

can_pay-connected :
    (connected have_address : Bool) (status : Option PaymentStatusReply)
    → can_pay connected have_address status ≡ true
    → (connected ≡ true) × (have_address ≡ true)
unfolding can_pay
can_pay-connected connected have_address status h = (ground arith, ground arith)

module _ (now : ℕ) (c : Connection) where
  steps-Starts :
      (fs : List Action) (p : Page)
      → Invariant fs p
      → (c.connected ≡ true → present c.public_key ≡ true)
      → All
          (λ props.
            All (Starts now c.public_key p) (shown_buttons props.action props.secondary_action))
          (steps now c p)
  unfolding steps issue_step pay_step detection_step attestation_step settle_step shown_buttons
  steps-Starts fs p inv key =
      let w = c.public_key in
      let one = button-Starts now w p _ true issue false (λ e n. cc n) (λ e n. cc n) in
      let two =
        button-Starts now w p _ (can_pay c.connected (present p.address) p.status) pay false
          (λ e n. (can_pay-connected _ _ _ e).1) (λ e n. key (can_pay-connected _ _ _ e).0) in
      let attesting = can_attest-present p.status in
      let accept =
        follows-Starts now w p _ (can_attest p.status) (attest clean) false inv refl attesting in
      let reject =
        follows-Starts now w p _ (can_attest p.status) (attest dirty) true inv refl attesting in
      let free =
        follows-Starts now w p _ (can_release p.status) release false inv refl
          (can_release-present p.status) in
      let back =
        follows-Starts now w p _ (can_refund now p.status) refund false inv refl
          (can_refund-present now p.status) in
      ((one, tt), ((two, tt), (tt, ((accept, (reject, tt)), ((free, (back, tt)), tt)))))

-- On every screen of the page, each rendered button satisfies `P`.
abbrev pub EachButton : (P : ShownButton → Type 0) → List Section → Type 0
EachButton P sections = All (λ (s : Section). All P s.buttons) sections

pub EachButton-step :
    (P : ShownButton → Type 0) (opened : ℕ → Bool) (xs : List StepProps)
    → All (λ (props : StepProps). All P (shown_buttons props.action props.secondary_action)) xs
    → EachButton P (map (λ (props : StepProps). step (opened props.n) props) xs)
unfolding step
EachButton-step P opened [] h = tt
EachButton-step P opened (x ∷ xs) (hx, h) = (hx, EachButton-step P opened xs h)

-- In every session of the playground, if a connected wallet has a key, every button that is enabled
-- on the screen starts its action: none is stopped by the guards at the action's beginning.
pub enabled_starts :
    (s : Session) (opened : ℕ → Bool) (now : ℕ) (c : Connection)
    → Reachable s
    → (c.connected ≡ true → present c.public_key ≡ true)
    → EachButton
        (λ b. b.enabled ≡ true → present (begin now c.public_key b.calls s.page) ≡ true)
        (playground opened now c s.page).sections
unfolding playground
enabled_starts s opened now c h key =
    EachButton-step (Starts now c.public_key s.page) opened (steps now c s.page)
      (steps-Starts now c s.in_flight s.page (one_action_at_a_time s h) key)
