-- ===== src/Store/Memory/Laws.antt =====
-- What each method of `MemoryStore` does, and that the class meets the contract of a store.
use mathlib.Core.Option
use mathlib.Core.Path.{subst}
use g_pay.Base.{
  ◌↔◌, ℕ, ◌≡◌, ◌≢◌, ◌⊎◌, inl, inr, refl, sym, ap, ◌∙◌, false, none, some, [], ◌∷◌, arith, Text,
  text_eq, text_eq_iff, text_eq_refl, text_eq_ne, if◌then◌else◌, All, Bool-cases, Option-cases,
  returned, returned-injective,
}
use g_pay.Hex.{bytes_to_hex}
use g_pay.Store.Types.{DepositState, DepositRecord, DepositCreate, fresh_deposit, with_state}
use g_pay.Store.Contract.{StoreLaws}
use g_pay.Store.JsMap.{JsMap, get, get-set, All-get, HasDistinctKeys}
use g_pay.Store.Memory.{
  MemoryStore, find_by_api_key, dep_id, create_deposit, get_deposit, set_deposit_state, observed,
  match_first, apply_on_chain_match, memory_store,
}
use g_pay.Store.Memory.Invariant.{
  IsValid, IsDepositEntry, get-dep_id_new, create_deposit-IsValid, set_deposit_state-IsValid,
}

-- setDepositState returns the deposit with its new state, if there is one, and changes no other
-- deposit and no institution.
pub set_deposit_state_lem :
    (id : Text) (st : DepositState) (s : MemoryStore)
    → let (r, s') = set_deposit_state id st s in
      (r ≡ Option.map (with_state st) (get_deposit id s))
      × ((j : Text)
          → get_deposit j s' ≡ (
              if text_eq id j
              then Option.map (with_state st) (get_deposit j s)
              else get_deposit j s))
      × (s'.institutions ≡ s.institutions)
unfolding set_deposit_state get_deposit
set_deposit_state_lem id st s = elim (Option-cases (get id s.deposits)) [
  | inl missing ↦ (
    rw (missing, set_deposit_state),
    λ j. ground (arith, missing, text_eq_iff id j),
    rw (missing, set_deposit_state),
  )
  | inr (d, found) ↦ (
    rw (found, set_deposit_state),
    λ j.
        rw (found, set_deposit_state)
          (get-set j id (with_state st d) s.deposits ∙ ground (arith, found, text_eq_iff id j)),
    rw (found, set_deposit_state),
  )
]

-- In a valid store, createDeposit takes a new id, stores the caller's fields as pending, and
-- changes no other deposit and no institution.
pub create_deposit_lem :
    (now : ℕ) (r : DepositCreate) (s : MemoryStore)
    → IsValid s
    → let (d, s') = create_deposit now r s in
      (get_deposit d.id s ≡ none)
      × (d ≡ fresh_deposit d.id now r)
      × ((j : Text) → get_deposit j s' ≡ (if text_eq d.id j then some d else get_deposit j s))
      × (s'.institutions ≡ s.institutions)
unfolding create_deposit get_deposit
create_deposit_lem now r s v = (
  get-dep_id_new s.next_deposit_seq s.deposits v.deposits.0,
  refl,
  λ j. get-set j (dep_id s.next_deposit_seq) _ s.deposits,
  refl,
)

find_by_api_key-institutions :
    (key : Text) (s s' : MemoryStore)
    → s'.institutions ≡ s.institutions
    → find_by_api_key key s' ≡ find_by_api_key key s
unfolding find_by_api_key
find_by_api_key-institutions key s s' e = rw e

get_deposit_id :
    (id : Text) (s : MemoryStore) (d : DepositRecord)
    → IsValid s
    → get_deposit id s ≡ some d
    → d.id ≡ id
unfolding get_deposit
get_deposit_id id s d v e =
    sym (All-get (IsDepositEntry s.next_deposit_seq) id d s.deposits v.deposits.0 e).0

-- What `create` of the contract says of a result.
abbrev Created : DepositCreate → MemoryStore → DepositRecord × MemoryStore → Type 0
Created r s (d, s') =
    (get_deposit d.id s ≡ none)
    × (d ≡ fresh_deposit d.id d.created_at r)
    × ((j : Text) → get_deposit j s' ≡ (if text_eq d.id j then some d else get_deposit j s))
    × ((key : Text) → find_by_api_key key s' ≡ find_by_api_key key s)
    × IsValid s'

create_deposit-Created :
    (now : ℕ) (r : DepositCreate) (s : MemoryStore)
    → IsValid s
    → Created r s (create_deposit now r s)
create_deposit-Created now r s v =
    let (new, is, others, same) = create_deposit_lem now r s v in
    (
      new,
      unfold create_deposit in refl,
      others,
      λ key. find_by_api_key-institutions key s (create_deposit now r s).1 same,
      create_deposit-IsValid now r s v,
    )

-- `MemoryStore` meets the contract.
pub memory_store_laws : StoreLaws memory_store
memory_store_laws = record {
  IsValid = IsValid;
  set_state = λ id st s.
      let (result, others, same) = set_deposit_state_lem id st s in
      let s' = (set_deposit_state id st s).1 in
      (
        s',
        ap (λ r. returned (r, s')) result,
        others,
        λ key. find_by_api_key-institutions key s s' same,
        set_deposit_state-IsValid id st s,
      );
  create = λ draw r s s' d v e.
      subst (Created r s) (returned-injective e) (create_deposit-Created draw.now r s v);
  get_id = get_deposit_id;
}

-- The laws' validity is the invariant.
pub IsValid-iff : (s : MemoryStore) → IsValid s ↔ memory_store_laws.IsValid s
unfolding memory_store_laws
IsValid-iff s = (λ v. v, λ v. v)

-- The observation leaves alone what identifies a deposit.
abbrev pub KeepsKeys : (DepositRecord → DepositRecord) → Type 0
KeepsKeys f = (d : DepositRecord) → (f d).id ≡ d.id

match_first-none :
    (hex : Text) (f : DepositRecord → DepositRecord) (m : JsMap DepositRecord)
    → (match_first hex f m).0 ≡ none
    → ((match_first hex f m).1 ≡ m)
      × All (λ (e : Text × DepositRecord). bytes_to_hex e.1.stealth_pubkey ≢ hex) m
unfolding match_first
match_first-none hex f [] h = (refl, tt)
match_first-none hex f ((k, d) ∷ m) h =
    elim (Bool-cases (text_eq (bytes_to_hex d.stealth_pubkey) hex)) [
      | inl here ↦ let never : ⊥ = ground arith in absurd never
      | inr later ↦
          let (kept, others) = match_first-none hex f m (ground arith) in
          (
            rw later (ap (λ q. (k, d) ∷ q) kept),
            (λ e. ground (arith, text_eq_iff (bytes_to_hex d.stealth_pubkey) hex), others),
          )
    ]

-- The entry that the loop finds is the first with the stealth key, and the only one that changes.
match_first-some :
    (hex : Text) (f : DepositRecord → DepositRecord) (m : JsMap DepositRecord) (d' : DepositRecord)
    → HasDistinctKeys m
    → (match_first hex f m).0 ≡ some d'
    → (k : Text) × (d : DepositRecord) × (get k m ≡ some d)
      × (d' ≡ f d)
      × (bytes_to_hex d.stealth_pubkey ≡ hex)
      × ((j : Text) → get j (match_first hex f m).1 ≡ (if text_eq k j then some d' else get j m))
unfolding match_first get
match_first-some hex f [] d' apart h = cc
match_first-some hex f ((k, d) ∷ m) d' (new, apart) h =
    elim (Bool-cases (text_eq (bytes_to_hex d.stealth_pubkey) hex)) [
      | inl here ↦
          let same : f d ≡ d' = ground arith in
          (
            k,
            d,
            rw (text_eq_refl k),
            sym same,
            (text_eq_iff (bytes_to_hex d.stealth_pubkey) hex).0 here,
            λ j. ground (arith, here, same),
          )
      | inr later ↦
          let (i, e, found, is, key, others) = match_first-some hex f m d' apart (ground arith) in
          let differs : text_eq k i ≡ false =
            text_eq_ne k i (λ same. ground (arith, ap (λ q. get q m) same)) in
          (
            i,
            e,
            rw differs found,
            is,
            key,
            λ j. ground (arith, later, others j, text_eq_iff k j, text_eq_iff i j, text_eq_iff k i),
          )
    ]

-- In a valid store, applyOnChainMatch either finds no deposit with the stealth key, and changes
-- nothing, or writes the observation to one deposit with that key, and changes no other.
pub apply_on_chain_match_lem :
    (now : ℕ) (hex address : Text) (amount : ℕ) (state : Text) (s : MemoryStore)
    → IsValid s
    → let (r, s') = apply_on_chain_match now hex address amount state s in
      (((r ≡ none)
          × (s' ≡ s)
          × ((id : Text) (d : DepositRecord)
              → get_deposit id s ≡ some d
              → bytes_to_hex d.stealth_pubkey ≢ hex))
        ⊎ ((d : DepositRecord) × (get_deposit d.id s ≡ some d)
            × (bytes_to_hex d.stealth_pubkey ≡ hex)
            × (r ≡ some (observed now address amount state d))
            × ((j : Text)
                → get_deposit j s' ≡ (
                    if text_eq d.id j
                    then some (observed now address amount state d)
                    else get_deposit j s))))
      × (s'.institutions ≡ s.institutions)
unfolding apply_on_chain_match get_deposit
apply_on_chain_match_lem now hex address amount state s v =
    let f = observed now address amount state in
    elim (Option-cases (match_first hex f s.deposits).0) [
      | inl missing ↦
          let (kept, others) = match_first-none hex f s.deposits missing in
          (
            inl (
              missing,
              ap (λ m. record s { deposits = m }) kept,
              λ id d.
                  All-get (λ k (e : DepositRecord). bytes_to_hex e.stealth_pubkey ≢ hex) id d
                    s.deposits others,
            ),
            refl,
          )
      | inr (d', found) ↦
          let (k, d, stored, is, key, others) =
            match_first-some hex f s.deposits d' v.deposits.1 found in
          let own : d.id ≡ k =
            sym
              (All-get (IsDepositEntry s.next_deposit_seq) k d s.deposits v.deposits.0 stored).0 in
          (inr (d, rw own stored, key, found ∙ ap some is, λ j. rw (own, ← is) (others j)), refl)
    ]
