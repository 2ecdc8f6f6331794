-- ===== src/Store/Interface.antt =====
-- `interface Store` of store/types.ts: what the handlers may ask of a store, whichever it is. An
-- operation that changes the store returns the new one; one that throws leaves it alone.
use g_pay.Base.{ℕ, Option, List, Text, Outcome}
use g_pay.Store.Types.{Institution, DepositState, DepositRecord, DepositCreate, Num}

-- What a call reads of the outside world: `Date.now()`, and `Math.floor(Math.random() * 1e6)`.
pub record Draw : Type 0 where
  pub now : ℕ
  pub random : ℕ

pub record Store : Type 1 where
  pub S : Type 0
  pub put_institution : Institution → S → Outcome S
  pub find_by_api_key : Text → S → Option Institution
  pub get_institution : Text → S → Option Institution
  pub create_deposit : Draw → DepositCreate → S → Outcome (DepositRecord × S)
  pub get_deposit : Text → S → Option DepositRecord
  pub set_deposit_state : Text → DepositState → S → Outcome (Option DepositRecord × S)
  -- The stealth key in hexadecimal, the account's address, the amount and the state on the chain.
  pub apply_on_chain_match : Draw → Text → Text → ℕ → Text → S → Outcome (Option DepositRecord × S)
  pub list_institution_deposits : Text → Option Num → S → Outcome (List DepositRecord)
