-- ===== src/Store/Postgres/Laws.antt =====
-- `PostgresStore` meets the contract of a store.
use mathlib.Core.Option
use mathlib.Core.Path.{subst}
use g_pay.Base.{
  ℕ, ◌≡◌, inl, inr, refl, sym, ap, ◌∙◌, Bool, true, false, Option, none, some, List, [], ◌∷◌, ◌++◌,
  arith, Text, text_eq, text_eq_iff, text_eq_ne, if◌then◌else◌, Bool-cases, Option-cases, returned,
  returned-injective, some-injective,
}
use g_pay.Radix.Decimal.{big_int-to_string}
use g_pay.Store.Types.{DepositState, DepositRecord, DepositCreate, fresh_deposit, with_state}
use g_pay.Store.Interface.{Draw}
use g_pay.Store.Contract.{StoreLaws}
use g_pay.Store.Postgres.{
  row_to_deposit, insertable, new_row, random_id, create_deposit, get_deposit, set_state,
  set_deposit_state, find_by_api_key, postgres_store,
}
use g_pay.Store.Postgres.Sql.{DepositRow, Tables, rows_where, update_where, first_row, is_empty}
use g_pay.Store.Postgres.Rows.{
  found, select_one-found, found-returning, found-append, found-append_some, found-test,
  found-update_where,
}

abbrev pub has_id : Text → DepositRow → Bool
has_id id r = text_eq r.id id

pub get_deposit-found :
    (id : Text) (t : Tables)
    → get_deposit id t ≡ Option.map row_to_deposit (found (has_id id) t.deposits)
unfolding get_deposit
get_deposit-found id t = ap (Option.map row_to_deposit) (select_one-found (has_id id) t.deposits)

-- The primary key: no row has the id of one behind it.
abbrev pub HasDistinctIds : List DepositRow → Type 0
HasDistinctIds [] = Unit {0}
HasDistinctIds (r ∷ rs) = (found (has_id r.id) rs ≡ none) × HasDistinctIds rs

map-map :
    (o : Option DepositRow) (st : DepositState)
    → Option.map row_to_deposit (Option.map (set_state st) o)
      ≡ Option.map (with_state st) (Option.map row_to_deposit o)
unfolding row_to_deposit
map-map none st = refl
map-map (some r) st = refl

-- A written row, read under an id.
map-if :
    (id j : Text) (st : DepositState) (o : Option DepositRow)
    → ((r : DepositRow) → o ≡ some r → text_eq r.id j ≡ true)
    → Option.map row_to_deposit (Option.map (λ r. if has_id id r then set_state st r else r) o) ≡ (
        if text_eq id j
        then Option.map (with_state st) (Option.map row_to_deposit o)
        else Option.map row_to_deposit o)
unfolding row_to_deposit
map-if id j st none own = ground arith
map-if id j st (some r) own =
    let is_j : r.id ≡ j = (text_eq_iff r.id j).0 (own r refl) in
    elim (Bool-cases (text_eq id j)) [
      | inl same ↦ rw (same, is_j, (text_eq_iff j id).1 (sym ((text_eq_iff id j).0 same))) refl
      | inr other ↦
          let differs : text_eq r.id id ≡ false =
            text_eq_ne r.id id (λ e. cc (other, (text_eq_iff id j).1 (sym e ∙ is_j))) in
          rw (other, differs) refl
    ]

-- setDepositState on a database does as the contract says.
pub set_deposit_state_lem :
    (id : Text) (st : DepositState) (t : Tables)
    → let (r, t') = set_deposit_state id st t in
      (r ≡ Option.map (with_state st) (get_deposit id t))
      × ((j : Text)
          → get_deposit j t' ≡ (
              if text_eq id j
              then Option.map (with_state st) (get_deposit j t)
              else get_deposit j t))
      × (t'.institutions ≡ t.institutions)
unfolding set_deposit_state
set_deposit_state_lem id st t = (
  ap (Option.map row_to_deposit) (found-returning (has_id id) (set_state st) t.deposits)
      ∙ map-map (found (has_id id) t.deposits) st
      ∙ ap (Option.map (with_state st)) (sym (get_deposit-found id t)),
  λ j.
      let after = record t { deposits = update_where (has_id id) (set_state st) t.deposits } in
      get_deposit-found j after
      ∙ ap (Option.map row_to_deposit)
          (found-update_where (has_id id) (has_id j) (set_state st) t.deposits (λ r. refl))
      ∙ map-if id j st (found (has_id j) t.deposits) (λ r e. found-test (has_id j) t.deposits r e)
      ∙ rw (get_deposit-found j t) refl,
  refl,
)

update_where-HasDistinctIds :
    (test : DepositRow → Bool) (f : DepositRow → DepositRow) (rs : List DepositRow)
    → ((r : DepositRow) → (f r).id ≡ r.id)
    → HasDistinctIds rs
    → HasDistinctIds (update_where test f rs)
unfolding update_where
update_where-HasDistinctIds test f [] keeps h = tt
update_where-HasDistinctIds test f (r ∷ rs) keeps (new, h) =
    let same : (if test r then f r else r).id ≡ r.id = elim (Bool-cases (test r)) [
      | inl hit ↦ rw hit (keeps r)
      | inr miss ↦ rw miss refl
    ] in
    (
      rw same (found-update_where test (has_id r.id) f rs (λ x. rw (keeps x) refl) ∙ rw new refl),
      update_where-HasDistinctIds test f rs keeps h,
    )

append-HasDistinctIds :
    (rs : List DepositRow) (r : DepositRow)
    → HasDistinctIds rs
    → found (has_id r.id) rs ≡ none
    → HasDistinctIds (rs ++ r ∷ [])
unfolding rows_where
append-HasDistinctIds [] r h new = (refl, tt)
append-HasDistinctIds (x ∷ rs) r (apart, h) new = elim (Bool-cases (text_eq x.id r.id)) [
  | inl clash ↦ let never : ⊥ = cc (rw (clash, rows_where) at new) in absurd never
  | inr other ↦
      let differs : text_eq r.id x.id ≡ false =
        text_eq_ne r.id x.id (λ e. cc (other, (text_eq_iff x.id r.id).1 (sym e))) in
      (
        found-append (has_id x.id) rs r apart ∙ rw differs refl,
        append-HasDistinctIds rs r h (rw (other, rows_where) at new),
      )
]

is_empty-first_row : (rs : List DepositRow) → is_empty rs ≡ true → first_row rs ≡ none
is_empty-first_row [] h = refl
is_empty-first_row (r ∷ rs) h = cc

is_empty-found :
    (test : DepositRow → Bool) (rs : List DepositRow)
    → is_empty (rows_where test rs) ≡ true
    → found test rs ≡ none
is_empty-found test rs h = is_empty-first_row (rows_where test rs) h

map-else :
    (r : DepositRow) (b : Bool) (o : Option DepositRow)
    → Option.map row_to_deposit (if b then some r else o)
      ≡ (if b then some (row_to_deposit r) else Option.map row_to_deposit o)
map-else r true o = refl
map-else r false o = refl

-- A query after a new row.
found-append_new :
    (rs : List DepositRow) (r : DepositRow)
    → found (has_id r.id) rs ≡ none
    → (j : Text)
    → found (has_id j) (rs ++ r ∷ []) ≡ (if text_eq r.id j then some r else found (has_id j) rs)
found-append_new rs r new j = elim (Option-cases (found (has_id j) rs)) [
  | inl missing ↦ found-append (has_id j) rs r missing ∙ rw missing refl
  | inr (x, there) ↦
      let differs : text_eq r.id j ≡ false =
        text_eq_ne r.id j (λ e. cc (there, ap (λ i. found (has_id i) rs) e, new)) in
      found-append_some (has_id j) rs r x there ∙ rw (differs, there) refl
]

-- What `create` of the contract says of a result.
abbrev Created : DepositCreate → Tables → DepositRecord × Tables → Type 0
Created r t (d, t') =
    (get_deposit d.id t ≡ none)
    × (d ≡ fresh_deposit d.id d.created_at r)
    × ((j : Text) → get_deposit j t' ≡ (if text_eq d.id j then some d else get_deposit j t))
    × ((key : Text) → find_by_api_key key t' ≡ find_by_api_key key t)
    × HasDistinctIds t'.deposits

row_to_deposit-new_row :
    (id : Text) (now : ℕ) (r : DepositCreate)
    → row_to_deposit (new_row id now r) ≡ fresh_deposit id now r
unfolding row_to_deposit new_row
row_to_deposit-new_row id now r = rw (big_int-to_string r.amount_hint) refl

create_deposit-Created :
    (now : ℕ) (id : Text) (r : DepositCreate) (t : Tables)
    → HasDistinctIds t.deposits
    → insertable (new_row id now r) r.amount_hint t ≡ true
    → Created r t (
      row_to_deposit (new_row id now r),
      record t { deposits = t.deposits ++ new_row id now r ∷ [] },
    )
unfolding insertable find_by_api_key row_to_deposit
create_deposit-Created now id r t v fits =
    let row = new_row id now r in
    let new : found (has_id row.id) t.deposits ≡ none =
      is_empty-found (has_id row.id) t.deposits (ground arith) in
    let same_id : (row_to_deposit row).id ≡ row.id = unfold row_to_deposit in refl in
    (
      rw (same_id, get_deposit-found row.id t, new) refl,
      unfold row_to_deposit new_row in row_to_deposit-new_row id now r,
      λ j.
          get_deposit-found j (record t { deposits = t.deposits ++ row ∷ [] })
          ∙ ap (Option.map row_to_deposit) (found-append_new t.deposits row new j)
          ∙ rw (same_id, get_deposit-found j t)
              (map-else row (text_eq row.id j) (found (has_id j) t.deposits)),
      λ key. refl,
      append-HasDistinctIds t.deposits row v new,
    )

create_deposit_lem :
    (draw : Draw) (r : DepositCreate) (t t' : Tables) (d : DepositRecord)
    → HasDistinctIds t.deposits
    → create_deposit draw r t ≡ returned (d, t')
    → Created r t (d, t')
unfolding create_deposit
create_deposit_lem draw r t t' d v h =
    let row = new_row (random_id draw) draw.now r in
    elim (Bool-cases (insertable row r.amount_hint t)) [
      | inl fits ↦
          subst (Created r t) (returned-injective (rw (fits, create_deposit) at h))
            (create_deposit-Created draw.now (random_id draw) r t v fits)
      | inr refused ↦ let never : ⊥ = cc (rw (refused, create_deposit) at h) in absurd never
    ]

get_deposit_id :
    (id : Text) (t : Tables) (d : DepositRecord) → get_deposit id t ≡ some d → d.id ≡ id
get_deposit_id id t d h = elim (Option-cases (found (has_id id) t.deposits)) [
  | inl missing ↦ cc (sym (get_deposit-found id t) ∙ h, missing)
  | inr (r, there) ↦
      let same : row_to_deposit r ≡ d =
        some-injective
          (ap (Option.map row_to_deposit) (sym there) ∙ sym (get_deposit-found id t) ∙ h) in
      ap (λ (x : DepositRecord). x.id) (sym same)
      ∙ unfold row_to_deposit in (text_eq_iff r.id id).0 (found-test (has_id id) t.deposits r there)
]

-- `PostgresStore` meets the contract.
pub postgres_store_laws : StoreLaws postgres_store
postgres_store_laws = record {
  IsValid = λ t. HasDistinctIds t.deposits;
  set_state = λ id st t.
      let (result, others, same) = set_deposit_state_lem id st t in
      let t' = (set_deposit_state id st t).1 in
      (
        t',
        ap (λ r. returned (r, t')) result,
        others,
        λ key. unfold find_by_api_key in rw same refl,
        λ v.
            unfold set_deposit_state in
            update_where-HasDistinctIds (has_id id) (set_state st) t.deposits (λ r. refl) v,
      );
  create = create_deposit_lem;
  get_id = λ id t d v h. get_deposit_id id t d h;
}

-- What the contract's invariant is here.
pub valid_tables : (t : Tables) → HasDistinctIds t.deposits → postgres_store_laws.IsValid t
unfolding postgres_store_laws
valid_tables t v = v
