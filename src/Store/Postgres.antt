-- ===== src/Store/Postgres.antt =====
-- store/postgres.ts: the store on a database, with the tables of deploy/migrations/001_init.sql. A
-- table is the list of its rows in the order in which they were inserted; a statement throws where
-- the schema refuses it. A lost connection, and texts that the server cannot encode, are left out.
pub mod Sql
pub mod Rows
pub mod Laws
pub mod Refinement
pub mod Writes
pub mod Observed
use mathlib.Core.Option
use g_pay.Base.{
  ℕ, ◌+◌, ◌^◌, Bool, ◌&&◌, ◌||◌, not, Option, none, some, List, [], ◌∷◌, ◌++◌, map, Text, codes,
  text_eq, ltb, if◌then◌else◌, Outcome, returned, ◌>>=◌, threw, store_failure,
}
use g_pay.Hex.{Bytes, is_hex_digit, parse_byte}
use g_pay.Radix.{to_string, big_int}
use g_pay.Store.Types.{
  Institution, DepositState, pending, DepositRecord, DepositCreate, terminal, Num,
}
use g_pay.Store.Interface.{Draw, Store}
use g_pay.Store.Memory.{limit_or_default}
use g_pay.Store.Postgres.Sql.{
  DepositRow, InstitutionRow, Tables, rows_where, update_where, returning, first_row, is_empty,
  select_one, upsert, order_by_newest, limited,
}

unfoldable pub row_to_institution : InstitutionRow → Institution
row_to_institution r = record {
  id = r.id;
  api_key = r.api_key;
  spend_pub = r.spend_pub;
  view_pub = r.view_pub;
  release_authority = r.release_authority;
  webhook_url = r.webhook_url;
}

unfoldable pub row_to_deposit : DepositRow → DepositRecord
row_to_deposit r = record {
  id = r.id;
  institution_id = r.institution_id;
  customer_id = r.customer_id;
  amount_hint = big_int 0 r.amount_hint;
  mint = r.mint;
  stealth_pubkey = r.stealth_pubkey;
  ephemeral_r = r.ephemeral_r;
  view_tag = r.view_tag;
  refund_addr = r.refund_addr;
  state = r.state;
  created_at = r.created_at;
  expires_at = r.expires_at;
  on_chain_address = r.on_chain_address;
  on_chain_amount = Option.map (big_int 0) r.on_chain_amount;
  on_chain_state = r.on_chain_state;
  on_chain_observed_at = r.on_chain_observed_at;
}

-- The unique index on `api_key`: another institution has the key.
abbrev pub key_taken : Institution → List InstitutionRow → Bool
key_taken inst rs =
    not
      (is_empty (rows_where (λ r. text_eq r.api_key inst.api_key && not (text_eq r.id inst.id)) rs))

unfoldable pub put_institution : Institution → Tables → Outcome Tables
put_institution inst t =
    if key_taken inst t.institutions
    then threw store_failure
    else returned (record t {
      institutions =
          upsert
            (record {
              id = inst.id;
              api_key = inst.api_key;
              spend_pub = inst.spend_pub;
              view_pub = inst.view_pub;
              release_authority = inst.release_authority;
              webhook_url = inst.webhook_url;
            })
            t.institutions;
    })

unfoldable pub find_by_api_key : Text → Tables → Option Institution
find_by_api_key key t =
    Option.map row_to_institution (select_one (λ r. text_eq r.api_key key) t.institutions)

unfoldable pub get_institution : Text → Tables → Option Institution
get_institution id t =
    Option.map row_to_institution (select_one (λ r. text_eq r.id id) t.institutions)

-- `dep_${Date.now().toString(36)}_${Math.floor(Math.random() * 1e6).toString(36)}`
unfoldable pub random_id : Draw → Text
random_id draw = codes "dep_" ++ to_string 36 draw.now ++ codes "_" ++ to_string 36 draw.random

-- The row that `INSERT INTO deposits` adds: `created_at` is the server's `now()`.
unfoldable pub new_row : Text → ℕ → DepositCreate → DepositRow
new_row id now r = record {
  id = id;
  institution_id = r.institution_id;
  customer_id = r.customer_id;
  amount_hint = to_string 10 r.amount_hint;
  mint = r.mint;
  stealth_pubkey = r.stealth_pubkey;
  ephemeral_r = r.ephemeral_r;
  view_tag = r.view_tag;
  refund_addr = r.refund_addr;
  state = pending;
  created_at = now;
  expires_at = r.expires_at;
  on_chain_address = none;
  on_chain_amount = none;
  on_chain_state = none;
  on_chain_observed_at = none;
}

-- The primary key, the reference to the institution, and the columns `NUMERIC(40, 0)` and `SMALLINT`.
unfoldable pub insertable : DepositRow → ℕ → Tables → Bool
insertable row amount t =
    is_empty (rows_where (λ (r : DepositRow). text_eq r.id row.id) t.deposits)
    && not (
        is_empty
          (rows_where (λ (i : InstitutionRow). text_eq i.id row.institution_id) t.institutions))
    && ltb amount (10 ^ 40)
    && ltb row.view_tag 32768

unfoldable pub create_deposit : Draw → DepositCreate → Tables → Outcome (DepositRecord × Tables)
create_deposit draw r t =
    let row = new_row (random_id draw) draw.now r in
    if insertable row r.amount_hint t
    then returned (row_to_deposit row, record t { deposits = t.deposits ++ row ∷ [] })
    else threw store_failure

unfoldable pub get_deposit : Text → Tables → Option DepositRecord
get_deposit id t = Option.map row_to_deposit (select_one (λ r. text_eq r.id id) t.deposits)

abbrev pub set_state : DepositState → DepositRow → DepositRow
set_state st r = record r { state = st }

unfoldable pub set_deposit_state : Text → DepositState → Tables → Option DepositRecord × Tables
set_deposit_state id st t =
    let test : DepositRow → Bool = (λ (r : DepositRow). text_eq r.id id) in
    (
      Option.map row_to_deposit (first_row (returning test (set_state st) t.deposits)),
      record t { deposits = update_where test (set_state st) t.deposits },
    )

-- `Buffer.from(s, "hex")`: the bytes up to the first pair that is not two hexadecimal digits.
unfoldable pub buffer_from_hex : Text → Bytes
buffer_from_hex (c ∷ d ∷ s) =
    let rest = buffer_from_hex s in
    if is_hex_digit c && is_hex_digit d then parse_byte (c ∷ d ∷ []) ∷ rest else []
buffer_from_hex s = []

-- The `SET` of `applyOnChainMatch`; `terminal` is the `CASE`.
unfoldable pub observe : ℕ → Text → ℕ → Text → DepositRow → DepositRow
observe now address amount state r = record r {
  on_chain_address = some address;
  on_chain_amount = some (to_string 10 amount);
  on_chain_state = some state;
  on_chain_observed_at = some now;
  state = elim (terminal state) [ some t ↦ t | none ↦ r.state ];
}

-- An amount that does not fit the column is refused when there is a row to write it to.
unfoldable pub apply_on_chain_match :
    Draw → Text → Text → ℕ → Text → Tables → Outcome (Option DepositRecord × Tables)
apply_on_chain_match draw hex address amount state t =
    let key = buffer_from_hex hex in
    let test : DepositRow → Bool = (λ (r : DepositRow). text_eq r.stealth_pubkey key) in
    let f = observe draw.now address amount state in
    if ltb amount (10 ^ 40) || is_empty (rows_where test t.deposits)
    then returned (
      Option.map row_to_deposit (first_row (returning test f t.deposits)),
      record t { deposits = update_where test f t.deposits },
    )
    else threw store_failure

unfoldable pub list_institution_deposits : Text → Option Num → Tables → Outcome (List DepositRecord)
list_institution_deposits id limit t = do
  rows ←
      let found = rows_where (λ (r : DepositRow). text_eq r.institution_id id) t.deposits in
      limited (limit_or_default limit) (order_by_newest (t.first_of found) found)
  returned (map row_to_deposit rows)

-- `class PostgresStore implements Store`.
abbrev pub postgres_store : Store
postgres_store = record {
  S = Tables;
  put_institution = put_institution;
  find_by_api_key = find_by_api_key;
  get_institution = get_institution;
  create_deposit = create_deposit;
  get_deposit = get_deposit;
  set_deposit_state = λ id st t. returned (set_deposit_state id st t);
  apply_on_chain_match = apply_on_chain_match;
  list_institution_deposits = list_institution_deposits;
}
