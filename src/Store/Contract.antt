-- ===== src/Store/Contract.antt =====
-- What the handlers rely on of a store. store/types.ts states only the operations; these are the
-- laws that both implementations are written to, and that the handlers' theorems take.
use mathlib.Core.Option
use g_pay.Base.{◌≡◌, none, some, Text, text_eq, if◌then◌else◌, returned}
use g_pay.Store.Types.{DepositState, DepositRecord, DepositCreate, fresh_deposit, with_state}
use g_pay.Store.Interface.{Draw, Store}

pub record StoreLaws (I : Store) : Type 1 where
  pub IsValid : I.S → Type 0
  -- Setting a state changes that field of that deposit, returns it, and throws never.
  pub set_state :
      (id : Text) (st : DepositState) (s : I.S)
      → (s' : I.S) × (I.set_deposit_state id st s
          ≡ returned (Option.map (with_state st) (I.get_deposit id s), s'))
        × ((j : Text)
            → I.get_deposit j s' ≡ (
                if text_eq id j
                then Option.map (with_state st) (I.get_deposit j s)
                else I.get_deposit j s))
        × ((key : Text) → I.find_by_api_key key s' ≡ I.find_by_api_key key s)
        × (IsValid s → IsValid s')
  -- A created deposit is new, holds the caller's fields, and is the only change.
  pub create :
      (draw : Draw) (r : DepositCreate) (s s' : I.S) (d : DepositRecord)
      → IsValid s
      → I.create_deposit draw r s ≡ returned (d, s')
      → (I.get_deposit d.id s ≡ none)
        × (d ≡ fresh_deposit d.id d.created_at r)
        × ((j : Text) → I.get_deposit j s' ≡ (if text_eq d.id j then some d else I.get_deposit j s))
        × ((key : Text) → I.find_by_api_key key s' ≡ I.find_by_api_key key s)
        × IsValid s'
  -- The deposit found under an id has that id.
  pub get_id :
      (id : Text) (s : I.S) (d : DepositRecord)
      → IsValid s
      → I.get_deposit id s ≡ some d
      → d.id ≡ id
