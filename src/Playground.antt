-- ===== src/Playground.antt =====
-- apps/dashboard/src/app/dashboard/page.tsx: which steps the playground offers, from the status that
-- it last got from the gateway (none before the first).
pub mod Texts
pub mod Log
pub mod Actions
pub mod Finish
pub mod Sent
pub mod Reach
pub mod Failures
pub mod Runs
pub mod Exclusive
pub mod View
pub mod Agreement
pub mod Deposit
use g_pay.Base.{ℕ, Bool, true, false, ◌&&◌, ◌||◌, not, Option, none, some, [], ◌∷◌, leb}
use g_pay.Store.Types.{DepositState, pending, approved, rejected, expired, state_eq}
use g_pay.Http.Reply.{PaymentStatusReply}

-- `!!status?.on_chain_address`
unfoldable pub on_chain_seen : Option PaymentStatusReply → Bool
on_chain_seen none = false
on_chain_seen (some status) = elim status.on_chain_address [
  | none ↦ false
  | some [] ↦ false
  | some (c ∷ address) ↦ true
]

-- `status?.state ?? "pending"`
unfoldable pub state_now : Option PaymentStatusReply → DepositState
state_now none = pending
state_now (some status) = status.state

unfoldable pub can_pay : (connected have_address : Bool) → Option PaymentStatusReply → Bool
can_pay connected have_address status =
    connected && have_address && not (on_chain_seen status) && state_eq (state_now status) pending

unfoldable pub can_attest : Option PaymentStatusReply → Bool
can_attest status = on_chain_seen status && state_eq (state_now status) pending

unfoldable pub can_release : Option PaymentStatusReply → Bool
can_release status = state_eq (state_now status) approved

-- The third condition asks for a status, so it is false where there is none.
unfoldable pub overdue : ℕ → Option PaymentStatusReply → Bool
overdue now none = false
overdue now (some status) = state_eq status.state pending && leb status.expires_at now

unfoldable pub can_refund : ℕ → Option PaymentStatusReply → Bool
can_refund now status =
    state_eq (state_now status) rejected
    || state_eq (state_now status) expired
    || overdue now status
