-- ===== src/Store/Postgres/Refinement.antt =====
-- The two stores beside each other: what the database answers when its rows are the records of a
-- store in memory.
use mathlib.Core.Option
use g_pay.Base.{
  ◌≢◌, Bool, ◌||◌, ◌&&◌, ltb, ◌==◌, arith, ℕ, zero, suc, ◌≡◌, inl, inr, refl, sym, ap, ◌∙◌, Option,
  none, some, List, [], ◌∷◌, map, Text, text_eq, leb, take, if◌then◌else◌, Bool-cases, All, All-imp,
  returned,
}
use mathlib.Core.Path.{subst}
use g_pay.Store.Types.{DepositRecord, HasDistinctTimes, nonneg, slice_to}
use g_pay.Store.JsMap.{JsMap, get, values}
use g_pay.Store.Memory
use g_pay.Store.Memory.{
  MemoryStore, first_with_key, owned_by, insert_newest, sort_newest, limit_or_default,
}
use g_pay.Store.Memory.Invariant.{IsValid, IsDepositEntry}
use g_pay.Store.Postgres
use g_pay.Store.Postgres.{row_to_deposit, row_to_institution}
use g_pay.Store.Postgres.Sql.{
  DepositRow, InstitutionRow, Tables, rows_where, insert_row, order_by_newest, limited,
}
use g_pay.Store.Postgres.Rows.{found, select_one-found}
use g_pay.Store.Postgres.Laws.{has_id, get_deposit-found}

-- The rows are the records of the store in memory, in its order.
pub record Represents (t : Tables) (s : MemoryStore) : Type 0 where
  pub deposits : map row_to_deposit t.deposits ≡ values s.deposits
  pub institutions : map row_to_institution t.institutions ≡ values s.institutions

found-first_with_key :
    (key : Text) (rs : List InstitutionRow)
    → Option.map row_to_institution (found (λ (r : InstitutionRow). text_eq r.api_key key) rs)
      ≡ first_with_key key (map row_to_institution rs)
unfolding first_with_key rows_where row_to_institution
found-first_with_key key [] = refl
found-first_with_key key (r ∷ rs) = elim (Bool-cases (text_eq r.api_key key)) [
  | inl hit ↦ rw (hit, rows_where) refl
  | inr miss ↦ rw (miss, rows_where, first_with_key) (found-first_with_key key rs)
]

-- The first record with an id.
first_with_id : Text → List DepositRecord → Option DepositRecord
first_with_id id [] = none
first_with_id id (d ∷ ds) = if text_eq d.id id then some d else first_with_id id ds

found-first_with_id :
    (id : Text) (rs : List DepositRow)
    → Option.map row_to_deposit (found (has_id id) rs) ≡ first_with_id id (map row_to_deposit rs)
unfolding first_with_id rows_where row_to_deposit
found-first_with_id id [] = refl
found-first_with_id id (r ∷ rs) = elim (Bool-cases (text_eq r.id id)) [
  | inl hit ↦ rw (hit, rows_where) refl
  | inr miss ↦ rw (miss, rows_where, first_with_id) (found-first_with_id id rs)
]

get-first_with_id :
    (id : Text) (m : JsMap DepositRecord)
    → All (λ e. e.0 ≡ e.1.id) m
    → get id m ≡ first_with_id id (values m)
unfolding get values first_with_id
get-first_with_id id [] h = refl
get-first_with_id id ((k, d) ∷ m) (own, h) =
    rw own (ap (λ o. if text_eq d.id id then some d else o) (get-first_with_id id m h))

map-rows_where :
    (id : Text) (rs : List DepositRow)
    → map row_to_deposit (rows_where (λ (r : DepositRow). text_eq r.institution_id id) rs)
      ≡ owned_by id (map row_to_deposit rs)
unfolding rows_where owned_by row_to_deposit
map-rows_where id [] = refl
map-rows_where id (r ∷ rs) = elim (Bool-cases (text_eq r.institution_id id)) [
  | inl hit ↦ rw (hit, owned_by) (ap (λ ds. row_to_deposit r ∷ ds) (map-rows_where id rs))
  | inr miss ↦ rw (miss, owned_by) (map-rows_where id rs)
]

insert_row-All :
    (P : DepositRow → Type 0) (first : DepositRow → DepositRow → Bool) (r : DepositRow)
    (rs : List DepositRow)
    → P r
    → All P rs
    → All P (insert_row first r rs)
unfolding insert_row
insert_row-All P first r [] h hs = (h, tt)
insert_row-All P first r (x ∷ rs) h (hx, hs) =
    elim (Bool-cases
      (ltb x.created_at r.created_at || ((x.created_at == r.created_at) && first r x))) [
        | inl before ↦ rw before (h, (hx, hs))
        | inr behind ↦ rw behind (hx, insert_row-All P first r rs h hs)
      ]

order_by_newest-All :
    (P : DepositRow → Type 0) (first : DepositRow → DepositRow → Bool) (rs : List DepositRow)
    → All P rs
    → All P (order_by_newest first rs)
unfolding order_by_newest
order_by_newest-All P first [] h = tt
order_by_newest-All P first (r ∷ rs) (h, hs) =
    insert_row-All P first r (order_by_newest first rs) h (order_by_newest-All P first rs hs)

-- Between rows of different milliseconds nothing is left open.
ordered_alike :
    (a b : ℕ) (open_choice : Bool) → a ≢ b → (ltb a b || ((a == b) && open_choice)) ≡ leb a b
ordered_alike a b open_choice differ = ground arith

map-insert_row :
    (first : DepositRow → DepositRow → Bool) (r : DepositRow) (rs : List DepositRow)
    → All (λ x. x.created_at ≢ r.created_at) rs
    → map row_to_deposit (insert_row first r rs)
      ≡ insert_newest (row_to_deposit r) (map row_to_deposit rs)
unfolding insert_row insert_newest row_to_deposit
map-insert_row first r [] h = refl
map-insert_row first r (x ∷ rs) (differs, h) =
    let alike = ordered_alike x.created_at r.created_at (first r x) differs in
    elim (Bool-cases (leb x.created_at r.created_at)) [
      | inl before ↦ rw (alike, before) refl
      | inr behind ↦
          rw (alike, behind) (ap (λ ds. row_to_deposit x ∷ ds) (map-insert_row first r rs h))
    ]

created_apart :
    (r : DepositRow) (rs : List DepositRow)
    → All (λ e. e.created_at ≢ (row_to_deposit r).created_at) (map row_to_deposit rs)
    → All (λ x. x.created_at ≢ r.created_at) rs
unfolding row_to_deposit
created_apart r [] h = tt
created_apart r (x ∷ rs) (differs, h) = (differs, created_apart r rs h)

map-order_by_newest :
    (first : DepositRow → DepositRow → Bool) (rs : List DepositRow)
    → HasDistinctTimes (map row_to_deposit rs)
    → map row_to_deposit (order_by_newest first rs) ≡ sort_newest (map row_to_deposit rs)
unfolding order_by_newest sort_newest
map-order_by_newest first [] h = refl
map-order_by_newest first (r ∷ rs) (apart, h) =
    map-insert_row first r (order_by_newest first rs)
      (order_by_newest-All (λ x. x.created_at ≢ r.created_at) first rs (created_apart r rs apart))
    ∙ ap (insert_newest (row_to_deposit r)) (map-order_by_newest first rs h)

map-take :
    (n : ℕ) (rs : List DepositRow) → map row_to_deposit (take n rs) ≡ take n (map row_to_deposit rs)
map-take zero rs = refl
map-take (suc n) [] = refl
map-take (suc n) (r ∷ rs) = ap (λ ds. row_to_deposit r ∷ ds) (map-take n rs)

-- What both stores list, within a bound.
pub list-Represents :
    (id : Text) (n : ℕ) (t : Tables) (s : MemoryStore)
    → Represents t s
    → HasDistinctTimes (owned_by id (values s.deposits))
    → Postgres.list_institution_deposits id (some (nonneg n)) t
      ≡ returned (Memory.list_institution_deposits id (some (nonneg n)) s)
unfolding Postgres.list_institution_deposits Memory.list_institution_deposits limited slice_to
list-Represents id n t s same apart =
    let alike : map row_to_deposit
          (rows_where (λ (r : DepositRow). text_eq r.institution_id id) t.deposits)
        ≡ owned_by id (values s.deposits) =
      map-rows_where id t.deposits ∙ ap (owned_by id) same.deposits in
    ap returned (
      map-take n _
      ∙ ap (take n) (
          map-order_by_newest _ _ (subst HasDistinctTimes (sym alike) apart)
          ∙ ap sort_newest alike))

pub deposit_ids :
    (seq : ℕ) (m : JsMap DepositRecord)
    → All (λ e. IsDepositEntry seq e.0 e.1) m
    → All (λ e. e.0 ≡ e.1.id) m
deposit_ids seq m h = All-imp (λ e h. h.0) m h

pub get_deposit-Represents :
    (id : Text) (t : Tables) (s : MemoryStore)
    → Represents t s
    → IsValid s
    → Postgres.get_deposit id t ≡ Memory.get_deposit id s
unfolding Memory.get_deposit
get_deposit-Represents id t s same v =
    get_deposit-found id t
    ∙ found-first_with_id id t.deposits
    ∙ ap (first_with_id id) same.deposits
    ∙ sym (get-first_with_id id s.deposits (deposit_ids s.next_deposit_seq s.deposits v.deposits.0))

pub find_by_api_key-Represents :
    (key : Text) (t : Tables) (s : MemoryStore)
    → Represents t s
    → Postgres.find_by_api_key key t ≡ Memory.find_by_api_key key s
unfolding Postgres.find_by_api_key Memory.find_by_api_key
find_by_api_key-Represents key t s same =
    ap (Option.map row_to_institution)
      (select_one-found (λ (r : InstitutionRow). text_eq r.api_key key) t.institutions)
    ∙ found-first_with_key key t.institutions
    ∙ ap (first_with_key key) same.institutions

-- So too without a limit, which is then 200.
pub list_default-Represents :
    (id : Text) (t : Tables) (s : MemoryStore)
    → Represents t s
    → HasDistinctTimes (owned_by id (values s.deposits))
    → Postgres.list_institution_deposits id none t
      ≡ returned (Memory.list_institution_deposits id none s)
unfolding Postgres.list_institution_deposits Memory.list_institution_deposits
list_default-Represents id t s same apart = list-Represents id 200 t s same apart
