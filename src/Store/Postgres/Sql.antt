-- ===== src/Store/Postgres/Sql.antt =====
-- The tables, and the statements that postgres.ts runs on them.
use g_pay.Base.{
  ℕ, Bool, true, false, Option, none, some, List, [], ◌∷◌, map, Text, text_eq, take, ltb, ◌==◌,
  ◌&&◌, ◌||◌, if◌then◌else◌, Outcome, returned, threw, store_failure,
}
use g_pay.Hex.{Bytes}
use g_pay.Store.Types.{DepositState, Num, nan, infinity, neg_infinity, nonneg, neg, above, below}

-- A row as the driver returns it: a `NUMERIC` is its decimal text, a date its milliseconds. The
-- column `state` holds the names of the states only, since no statement writes another text.
pub record DepositRow : Type 0 where
  pub id : Text
  pub institution_id : Text
  pub customer_id : Text
  pub amount_hint : Text
  pub mint : Text
  pub stealth_pubkey : Bytes
  pub ephemeral_r : Bytes
  pub view_tag : ℕ
  pub refund_addr : Bytes
  pub state : DepositState
  pub created_at : ℕ
  pub expires_at : ℕ
  pub on_chain_address : Option Text
  pub on_chain_amount : Option Text
  pub on_chain_state : Option Text
  pub on_chain_observed_at : Option ℕ

pub record InstitutionRow : Type 0 where
  pub id : Text
  pub api_key : Text
  pub spend_pub : Bytes
  pub view_pub : Bytes
  pub release_authority : Bytes
  pub webhook_url : Option Text

-- `first_of` is what SQL leaves open: of two rows that are created in one millisecond, does a
-- query with the given rows return the first of them first? It stands for the microseconds of the
-- column, and for the server's choice among rows that are equal in these too.
pub record Tables : Type 0 where
  pub first_of : List DepositRow → DepositRow → DepositRow → Bool
  pub institutions : List InstitutionRow
  pub deposits : List DepositRow

abbrev pub no_rows : Tables
no_rows = record { first_of = λ rows x y. true; institutions = []; deposits = [] }

-- `WHERE`
unfoldable pub rows_where {ℓ} : {A : Type ℓ} → (A → Bool) → List A → List A
rows_where test [] = []
rows_where test (r ∷ rs) = if test r then r ∷ rows_where test rs else rows_where test rs

-- `UPDATE … WHERE`: the table after it. `RETURNING *` gives the rows that it has changed.
unfoldable pub update_where {ℓ} : {A : Type ℓ} → (A → Bool) → (A → A) → List A → List A
update_where test f [] = []
update_where test f (r ∷ rs) = (if test r then f r else r) ∷ update_where test f rs

abbrev pub returning {ℓ} : {A : Type ℓ} → (A → Bool) → (A → A) → List A → List A
returning test f rs = map f (rows_where test rs)

-- `r.rows[0]`
abbrev pub first_row {ℓ} : {A : Type ℓ} → List A → Option A
first_row [] = none
first_row (r ∷ rs) = some r

abbrev pub is_empty {ℓ} : {A : Type ℓ} → List A → Bool
is_empty [] = true
is_empty (r ∷ rs) = false

-- `SELECT * … WHERE … LIMIT 1`, and its first row.
abbrev pub select_one {ℓ} : {A : Type ℓ} → (A → Bool) → List A → Option A
select_one test rs = first_row (take 1 (rows_where test rs))

-- `INSERT … ON CONFLICT (id) DO UPDATE SET …`
unfoldable pub upsert : InstitutionRow → List InstitutionRow → List InstitutionRow
upsert r [] = r ∷ []
upsert r (x ∷ xs) = if text_eq x.id r.id then r ∷ xs else x ∷ upsert r xs

-- `ORDER BY created_at DESC`; `first` decides between rows of one millisecond.
module _ (first : DepositRow → DepositRow → Bool) where
  unfoldable pub insert_row : DepositRow → List DepositRow → List DepositRow
  insert_row r [] = r ∷ []
  insert_row r (x ∷ xs) =
      if ltb x.created_at r.created_at || ((x.created_at == r.created_at) && first r x)
      then r ∷ x ∷ xs
      else x ∷ insert_row r xs

  unfoldable pub order_by_newest : List DepositRow → List DepositRow
  order_by_newest [] = []
  order_by_newest (r ∷ rs) = insert_row r (order_by_newest rs)

-- `LIMIT $2`, which takes no negative number and none that is not an integer.
unfoldable pub limited {ℓ} : {A : Type ℓ} → Num → List A → Outcome (List A)
limited (nonneg n) rs = returned (take n rs)
limited nan rs = threw store_failure
limited infinity rs = threw store_failure
limited neg_infinity rs = threw store_failure
limited (neg n) rs = threw store_failure
limited (above n) rs = threw store_failure
limited (below n) rs = threw store_failure
