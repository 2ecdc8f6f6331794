-- ===== src/Store/Postgres/Writes.antt =====
-- The writes of the two stores beside each other.
use mathlib.Core.Option
use g_pay.Base.{
  ◌≡◌, inl, inr, refl, sym, ap, ◌∙◌, Bool, true, false, none, some, List, [], ◌∷◌, map, Text,
  text_eq, text_eq_iff, if◌then◌else◌, Bool-cases, Option-cases, some-injective, All,
}
use g_pay.Store.Types.{DepositState, DepositRecord, with_state}
use g_pay.Store.JsMap.{JsMap, get, set, values, HasDistinctKeys}
use g_pay.Store.Memory
use g_pay.Store.Memory.{MemoryStore, match_first, observed}
use g_pay.Store.Memory.Invariant.{IsValid}
use g_pay.Store.Postgres
use g_pay.Store.Postgres.{row_to_deposit, row_to_institution, set_state, observe, buffer_from_hex}
use g_pay.Store.Postgres.Sql.{DepositRow, Tables, update_where}
use g_pay.Store.Postgres.Laws
use g_pay.Store.Memory.Laws as MemoryLaws
use g_pay.Store.Postgres.Refinement.{Represents, get_deposit-Represents, deposit_ids}

-- The records after a statement has changed those that pass a test.
abbrev pub updated :
    (DepositRecord → Bool)
    → (DepositRecord → DepositRecord)
    → List DepositRecord
    → List DepositRecord
updated test f [] = []
updated test f (d ∷ ds) = (if test d then f d else d) ∷ updated test f ds

module _ (test : DepositRecord → Bool) (f : DepositRecord → DepositRecord)
    (g : DepositRow → DepositRow)
    (same : (r : DepositRow) → row_to_deposit (g r) ≡ f (row_to_deposit r)) where
  pub map-update_where :
      (rs : List DepositRow)
      → map row_to_deposit (update_where (λ r. test (row_to_deposit r)) g rs)
        ≡ updated test f (map row_to_deposit rs)
  unfolding update_where
  map-update_where [] = refl
  map-update_where (r ∷ rs) = elim (Bool-cases (test (row_to_deposit r))) [
    | inl hit ↦ rw hit (cc (same r, map-update_where rs))
    | inr miss ↦ rw miss (ap (λ ds. row_to_deposit r ∷ ds) (map-update_where rs))
  ]

pub updated_none :
    (test : DepositRecord → Bool) (f : DepositRecord → DepositRecord) (ds : List DepositRecord)
    → All (λ d. test d ≡ false) ds
    → updated test f ds ≡ ds
updated_none test f [] h = refl
updated_none test f (d ∷ ds) (miss, h) = rw miss (ap (λ es. d ∷ es) (updated_none test f ds h))

get-none-miss :
    (id : Text) (m : JsMap DepositRecord)
    → All (λ e. e.0 ≡ e.1.id) m
    → get id m ≡ none
    → All (λ d. text_eq d.id id ≡ false) (values m)
unfolding get values
get-none-miss id [] own h = tt
get-none-miss id ((k, d) ∷ m) (is, own) h = elim (Bool-cases (text_eq k id)) [
  | inl hit ↦ let never : ⊥ = cc (rw (hit, get) at h) in absurd never
  | inr miss ↦ (rw (sym is) miss, get-none-miss id m own (rw (miss, get) at h))
]

set-updated :
    (id : Text) (st : DepositState) (m : JsMap DepositRecord) (d : DepositRecord)
    → All (λ e. e.0 ≡ e.1.id) m
    → HasDistinctKeys m
    → get id m ≡ some d
    → values (set id (with_state st d) m)
      ≡ updated (λ e. text_eq e.id id) (with_state st) (values m)
unfolding get set values
set-updated id st [] d own apart h = cc
set-updated id st ((k, e) ∷ m) d (is, own) (new, apart) h = elim (Bool-cases (text_eq k id)) [
  | inl hit ↦
      let found_here : e ≡ d = some-injective (rw (hit, get) at h) in
      let others : get id m ≡ none = ap (λ i. get i m) (sym ((text_eq_iff k id).0 hit)) ∙ new in
      let kept =
        updated_none (λ x. text_eq x.id id) (with_state st) (values m)
          (get-none-miss id m own others) in
      let e_hit : text_eq e.id id ≡ true = rw (sym is) hit in
      rw (hit, e_hit) (cc (kept, ap (with_state st) found_here))
  | inr miss ↦
      let e_miss : text_eq e.id id ≡ false = rw (sym is) miss in
      rw (miss, e_miss) (ap (λ ds. e ∷ ds) (set-updated id st m d own apart (rw (miss, get) at h)))
]

row_to_deposit-set_state :
    (st : DepositState) (r : DepositRow)
    → row_to_deposit (set_state st r) ≡ with_state st (row_to_deposit r)
unfolding row_to_deposit
row_to_deposit-set_state st r = refl

updated-set_deposit_state :
    (id : Text) (st : DepositState) (s : MemoryStore)
    → IsValid s
    → (values (Memory.set_deposit_state id st s).1.deposits
        ≡ updated (λ d. text_eq d.id id) (with_state st) (values s.deposits))
unfolding Memory.set_deposit_state
updated-set_deposit_state id st s v =
    let own = deposit_ids s.next_deposit_seq s.deposits v.deposits.0 in
    elim (Option-cases (get id s.deposits)) [
      | inl missing ↦
          rw (missing, Memory.set_deposit_state)
            (sym (
              updated_none (λ d. text_eq d.id id) (with_state st) (values s.deposits)
                (get-none-miss id s.deposits own missing)))
      | inr (d, there) ↦
          rw (there, Memory.set_deposit_state)
            (set-updated id st s.deposits d own v.deposits.1 there)
    ]

-- A state that is set in both stores gives one answer, and leaves the rows the records.
pub set_deposit_state-Represents :
    (id : Text) (st : DepositState) (t : Tables) (s : MemoryStore)
    → Represents t s
    → IsValid s
    → let (r, t') = Postgres.set_deposit_state id st t in
      let (r', s') = Memory.set_deposit_state id st s in (r ≡ r') × Represents t' s'
set_deposit_state-Represents id st t s same v =
    let (answer, others, kept) = Laws.set_deposit_state_lem id st t in
    let (answer', others', kept') = MemoryLaws.set_deposit_state_lem id st s in
    (
      answer ∙ ap (Option.map (with_state st)) (get_deposit-Represents id t s same v) ∙ sym answer',
      record {
        deposits =
            unfold Postgres.set_deposit_state row_to_deposit in
            map-update_where (λ d. text_eq d.id id) (with_state st) (set_state st)
              (row_to_deposit-set_state st) t.deposits
            ∙ ap (updated (λ d. text_eq d.id id) (with_state st)) same.deposits
            ∙ sym (updated-set_deposit_state id st s v);
        institutions = rw (kept, kept') same.institutions;
      },
    )
