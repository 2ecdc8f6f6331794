-- ===== src/Store/Memory/Observed.antt =====
-- The state that `applyOnChainMatch` leaves a deposit in.
use g_pay.Base.{ℕ, ◌≡◌, refl, Text, text_eq, if◌then◌else◌}
use g_pay.Store.Types.{
  DepositState, pending, approved, rejected, released, refunded, expired, DepositRecord, state_name,
  state_eq, terminal,
}
use g_pay.Store.Memory.{observed}

-- An observation with the state pending on the chain leaves the state of the deposit as it was, and
-- one with any other state sets it to that state, whatever it was.
pub observed-state_name :
    (now : ℕ) (address : Text) (amount : ℕ) (st : DepositState) (d : DepositRecord)
    → (observed now address amount (state_name st) d).state
      ≡ (if state_eq st pending then d.state else st)
unfolding observed terminal text_eq
observed-state_name now address amount pending d = refl
observed-state_name now address amount approved d = refl
observed-state_name now address amount rejected d = refl
observed-state_name now address amount released d = refl
observed-state_name now address amount refunded d = refl
observed-state_name now address amount expired d = refl
