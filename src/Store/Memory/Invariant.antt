-- ===== src/Store/Memory/Invariant.antt =====
-- The invariant of a `MemoryStore`, and that every method keeps it.
use g_pay.Base.{
  ℕ, ◌+◌, ◌<◌, ◌≡◌, ◌≢◌, inl, inr, refl, sym, ◌∙◌, none, some, [], ◌∷◌, arith, Text, text_eq,
  text_eq_ne, All, All-imp, Bool-cases, Option-cases,
}
use g_pay.Hex.{bytes_to_hex}
use g_pay.Radix.Laws.{to_string-injective}
use g_pay.Store.Types.{
  Institution, DepositState, DepositRecord, DepositCreate, fresh_deposit, with_state,
}
use g_pay.Store.JsMap.{JsMap, get, set, All-get, All-set, HasDistinctKeys, HasDistinctKeys-set}
use g_pay.Store.Memory.{
  MemoryStore, put_institution, dep_id, create_deposit, set_deposit_state, observed, match_first,
  apply_on_chain_match,
}

-- A deposit stands under its own id, which the counter has passed.
abbrev pub IsDepositEntry : ℕ → Text → DepositRecord → Type 0
IsDepositEntry seq k d = (k ≡ d.id) × ((n : ℕ) × (n < seq) × (k ≡ dep_id n))

abbrev pub AreDeposits : ℕ → JsMap DepositRecord → Type 0
AreDeposits seq m = All (λ e. IsDepositEntry seq e.0 e.1) m × HasDistinctKeys m

pub record IsValid (s : MemoryStore) : Type 0 where
  pub deposits : AreDeposits s.next_deposit_seq s.deposits
  pub institutions : All (λ e. e.0 ≡ e.1.id) s.institutions × HasDistinctKeys s.institutions

pub dep_id-injective : (n m : ℕ) → dep_id n ≡ dep_id m → n ≡ m
dep_id-injective n m e =
    to_string-injective 10 (omega arith) (omega arith) n m (unfold dep_id in cc)

-- The next id is under no key.
pub get-dep_id_new :
    (seq : ℕ) (m : JsMap DepositRecord)
    → All (λ e. IsDepositEntry seq e.0 e.1) m
    → get (dep_id seq) m ≡ none
unfolding get
get-dep_id_new seq [] h = refl
get-dep_id_new seq ((k, d) ∷ m) ((own, (n, old, named)), h) =
    let differs : k ≢ dep_id seq =
      λ e. absurd (omega (arith, dep_id-injective n seq (sym named ∙ e))) in
    rw (text_eq_ne k (dep_id seq) differs) (get-dep_id_new seq m h)

IsDepositEntry-mono :
    (seq : ℕ) (k : Text) (d : DepositRecord) → IsDepositEntry seq k d → IsDepositEntry (seq + 1) k d
IsDepositEntry-mono seq k d (own, (n, old, named)) = (own, (n, omega arith, named))

create_deposit-AreDeposits :
    (seq now : ℕ) (r : DepositCreate) (m : JsMap DepositRecord)
    → AreDeposits seq m
    → AreDeposits (seq + 1) (set (dep_id seq) (fresh_deposit (dep_id seq) now r) m)
create_deposit-AreDeposits seq now r m (h, apart) = (
  All-set (λ e. IsDepositEntry (seq + 1) e.0 e.1) (dep_id seq) _ m
      (All-imp (λ e. IsDepositEntry-mono seq e.0 e.1) m h) (λ j e. (e, (seq, omega arith, e))),
  HasDistinctKeys-set (dep_id seq) _ m apart,
)

-- A write under an id of a deposit that keeps the id.
set-AreDeposits :
    (seq : ℕ) (k : Text) (d d' : DepositRecord) (m : JsMap DepositRecord)
    → AreDeposits seq m
    → get k m ≡ some d
    → d'.id ≡ d.id
    → AreDeposits seq (set k d' m)
set-AreDeposits seq k d d' m (h, apart) found same =
    let (own, numbered) = All-get (IsDepositEntry seq) k d m h found in
    (
      All-set (λ e. IsDepositEntry seq e.0 e.1) k d' m h (λ j e. rw e (own ∙ sym same, numbered)),
      HasDistinctKeys-set k d' m apart,
    )

match_first-get-none :
    (hex : Text) (f : DepositRecord → DepositRecord) (k : Text) (m : JsMap DepositRecord)
    → get k m ≡ none
    → get k (match_first hex f m).1 ≡ none
unfolding match_first get
match_first-get-none hex f k [] h = refl
match_first-get-none hex f k ((j, d) ∷ m) h = ground (arith, match_first-get-none hex f k m)

match_first-AreDeposits :
    (seq : ℕ) (hex : Text) (f : DepositRecord → DepositRecord) (m : JsMap DepositRecord)
    → ((d : DepositRecord) → (f d).id ≡ d.id)
    → AreDeposits seq m
    → AreDeposits seq (match_first hex f m).1
unfolding match_first
match_first-AreDeposits seq hex f [] keeps h = h
match_first-AreDeposits seq hex f ((k, d) ∷ m) keeps (((own, numbered), h), (new, apart)) =
    let (ih, ih_apart) = match_first-AreDeposits seq hex f m keeps (h, apart) in
    elim (Bool-cases (text_eq (bytes_to_hex d.stealth_pubkey) hex)) [
      | inl here ↦ rw here (((own ∙ sym (keeps d), numbered), h), (new, apart))
      | inr later ↦ rw later (((own, numbered), ih), (match_first-get-none hex f k m new, ih_apart))
    ]

-- Creating a deposit keeps the invariant of the memory store: the keys are the deposits' ids,
-- distinct, and numbered below the next number.
pub create_deposit-IsValid :
    (now : ℕ) (r : DepositCreate) (s : MemoryStore) → IsValid s → IsValid (create_deposit now r s).1
unfolding create_deposit
create_deposit-IsValid now r s v = record {
  deposits = create_deposit-AreDeposits s.next_deposit_seq now r s.deposits v.deposits;
  institutions = v.institutions;
}

pub put_institution-IsValid :
    (inst : Institution) (s : MemoryStore) → IsValid s → IsValid (put_institution inst s)
unfolding put_institution
put_institution-IsValid inst s v = record {
  deposits = v.deposits;
  institutions = (
    All-set (λ e. e.0 ≡ e.1.id) inst.id inst s.institutions v.institutions.0 (λ j e. e),
    HasDistinctKeys-set inst.id inst s.institutions v.institutions.1,
  );
}

pub set_deposit_state-IsValid :
    (id : Text) (st : DepositState) (s : MemoryStore)
    → IsValid s
    → IsValid (set_deposit_state id st s).1
unfolding set_deposit_state
set_deposit_state-IsValid id st s v = elim (Option-cases (get id s.deposits)) [
  | inl missing ↦ rw (missing, set_deposit_state) v
  | inr (d, found) ↦
      rw (found, set_deposit_state)
        (record {
          deposits =
              set-AreDeposits s.next_deposit_seq id d (with_state st d) s.deposits v.deposits found
                refl;
          institutions = v.institutions;
        })
]

-- Recording an observation keeps the invariant of the memory store: the keys are the ids of the
-- deposits, distinct, and numbered below the next number.
pub apply_on_chain_match-IsValid :
    (now : ℕ) (hex address : Text) (amount : ℕ) (state : Text) (s : MemoryStore)
    → IsValid s
    → IsValid (apply_on_chain_match now hex address amount state s).1
apply_on_chain_match-IsValid now hex address amount state s v =
    unfold apply_on_chain_match observed in
    record {
      deposits =
          match_first-AreDeposits s.next_deposit_seq hex (observed now address amount state)
            s.deposits (λ d. refl) v.deposits;
      institutions = v.institutions;
    }
