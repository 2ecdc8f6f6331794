-- ===== src/Store/Memory.antt =====
-- store/memory.ts: the store that keeps everything in two `Map`s. A `Map` holds objects that the
-- methods change in place; an object stands under one key only, so the change is a write at its key.
pub mod Invariant
pub mod Laws
pub mod Listing
pub mod Keys
pub mod Observed
use g_pay.Base.{
  ℕ, suc, ◌+◌, ◌≡◌, Bool, Option, none, some, List, [], ◌∷◌, ◌++◌, Text, codes, text_eq, leb,
  if◌then◌else◌, Outcome, returned,
}
use g_pay.Hex.{bytes_to_hex}
use g_pay.Radix.{to_string}
use g_pay.Store.Types.{
  Institution, DepositState, DepositRecord, DepositCreate, terminal, fresh_deposit, with_state, Num,
  nonneg, slice_to,
}
use g_pay.Store.Interface.{Draw, Store}
use g_pay.Store.JsMap.{JsMap, get, set, values}

pub record MemoryStore : Type 0 where
  pub institutions : JsMap Institution
  pub deposits : JsMap DepositRecord
  pub next_deposit_seq : ℕ

-- The fields as they are initialised.
abbrev pub empty : MemoryStore
empty = record { institutions = []; deposits = []; next_deposit_seq = 1 }

unfoldable pub put_institution : Institution → MemoryStore → MemoryStore
put_institution inst s = record s { institutions = set inst.id inst s.institutions }

-- The loop of `findByApiKey`.
unfoldable pub first_with_key : Text → List Institution → Option Institution
first_with_key key [] = none
first_with_key key (inst ∷ rest) =
    if text_eq inst.api_key key then some inst else first_with_key key rest

unfoldable pub find_by_api_key : Text → MemoryStore → Option Institution
unfolding first_with_key
find_by_api_key key s = first_with_key key (values s.institutions)

unfoldable pub get_institution : Text → MemoryStore → Option Institution
get_institution id s = get id s.institutions

-- `dep_${n}`
unfoldable pub dep_id : ℕ → Text
dep_id n = codes "dep_" ++ to_string 10 n

unfoldable pub create_deposit : ℕ → DepositCreate → MemoryStore → DepositRecord × MemoryStore
unfolding dep_id
create_deposit now r s =
    let id = dep_id s.next_deposit_seq in
    let full = fresh_deposit id now r in
    (
      full,
      record s { deposits = set id full s.deposits; next_deposit_seq = s.next_deposit_seq + 1 },
    )

unfoldable pub get_deposit : Text → MemoryStore → Option DepositRecord
get_deposit id s = get id s.deposits

unfoldable pub set_deposit_state :
    Text → DepositState → MemoryStore → Option DepositRecord × MemoryStore
set_deposit_state id st s = elim (get id s.deposits) [
  | none ↦ (none, s)
  | some d ↦ (some (with_state st d), record s { deposits = set id (with_state st d) s.deposits })
]

-- The writes of `applyOnChainMatch` to the deposit that it finds.
unfoldable pub observed : ℕ → Text → ℕ → Text → DepositRecord → DepositRecord
observed now address amount state d = record d {
  on_chain_address = some address;
  on_chain_amount = some amount;
  on_chain_state = some state;
  on_chain_observed_at = some now;
  state = elim (terminal state) [ some t ↦ t | none ↦ d.state ];
}

-- The loop of `applyOnChainMatch`: the first deposit with the stealth key is changed by `f`.
unfoldable pub match_first :
    Text
    → (DepositRecord → DepositRecord)
    → JsMap DepositRecord
    → Option DepositRecord × JsMap DepositRecord
match_first hex f [] = (none, [])
match_first hex f ((k, d) ∷ m) =
    let (found, m') = match_first hex f m in
    if text_eq (bytes_to_hex d.stealth_pubkey) hex
    then (some (f d), (k, f d) ∷ m)
    else (found, (k, d) ∷ m')

unfoldable pub apply_on_chain_match :
    ℕ → Text → Text → ℕ → Text → MemoryStore → Option DepositRecord × MemoryStore
apply_on_chain_match now hex address amount state s =
    let (found, m) = match_first hex (observed now address amount state) s.deposits in
    (found, record s { deposits = m })

-- `.filter((d) => d.institutionId === institutionId)`
unfoldable pub owned_by : Text → List DepositRecord → List DepositRecord
owned_by id [] = []
owned_by id (d ∷ ds) = if text_eq d.institution_id id then d ∷ owned_by id ds else owned_by id ds

-- `.sort((a, b) => b.createdAt - a.createdAt)`: the newest first, and equal ones in their order.
unfoldable pub insert_newest : DepositRecord → List DepositRecord → List DepositRecord
insert_newest d [] = d ∷ []
insert_newest d (e ∷ es) =
    if leb e.created_at d.created_at then d ∷ e ∷ es else e ∷ insert_newest d es

unfoldable pub sort_newest : List DepositRecord → List DepositRecord
unfolding insert_newest
sort_newest [] = []
sort_newest (d ∷ ds) = insert_newest d (sort_newest ds)

-- `limit = 200`
abbrev pub limit_or_default : Option Num → Num
limit_or_default none = nonneg 200
limit_or_default (some n) = n

unfoldable pub list_institution_deposits : Text → Option Num → MemoryStore → List DepositRecord
list_institution_deposits id limit s =
    slice_to (limit_or_default limit) (sort_newest (owned_by id (values s.deposits)))

-- `class MemoryStore implements Store`. None of its methods throws.
abbrev pub memory_store : Store
memory_store = record {
  S = MemoryStore;
  put_institution = λ inst s. returned (put_institution inst s);
  find_by_api_key = find_by_api_key;
  get_institution = get_institution;
  create_deposit = λ draw r s. returned (create_deposit draw.now r s);
  get_deposit = get_deposit;
  set_deposit_state = λ id st s. returned (set_deposit_state id st s);
  apply_on_chain_match = λ draw hex address amount state s.
      returned (apply_on_chain_match draw.now hex address amount state s);
  list_institution_deposits = λ id limit s. returned (list_institution_deposits id limit s);
}
