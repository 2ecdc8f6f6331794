-- ===== src/Tests/DatabaseTests.antt =====
-- The sample store as a database.
use g_pay.Base.{
  true, All, ◌≡◌, refl, arith, some, [], ◌∷◌, codes, text_eq, replicate, returned, threw,
  store_failure,
}
use g_pay.Radix.{to_string, big_int}
use g_pay.Store.Types.{
  Institution, DepositRecord, approved, above, nonneg, min_num, HasDistinctTimes,
}
use g_pay.Store.JsMap.{get, set, values}
use g_pay.Store.Memory
use g_pay.Store.Memory.{
  MemoryStore, memory_store, put_institution, create_deposit, set_deposit_state, dep_id, owned_by,
}
use g_pay.Store.Postgres
use g_pay.Store.Postgres.{postgres_store, new_row, set_state, row_to_deposit, row_to_institution}
use g_pay.Store.Postgres.Sql.{Tables, InstitutionRow}
use g_pay.Store.Postgres.Refinement.{Represents}
use g_pay.Hex.{Bytes, bytes_to_hex}
use g_pay.Hex.Digits.{IsByte}
use g_pay.Store.Postgres.Observed.{AtMostOne, apply_on_chain_match-Represents}
use g_pay.Http.Reply.{Response}
use g_pay.Routes.Public.{get_treasury_list, list_limit}
use g_pay.Routes.Public.Calls.{treasury_list, serve}
use g_pay.Routes.Public.Stores.{Agree, serve-Agree}
use g_pay.Routes.Public.Limits.{IsAdmitted, get_treasury_list-IsAdmitted}
use g_pay.Tests.CurveModel.{toy}
use g_pay.Tests.ZodModel.{zod}
use g_pay.Tests.Samples.{bank, rival, env, order_of, sample, sample-IsValid, replicate-IsByte}

abbrev institution_row : Institution → InstitutionRow
institution_row i = record {
  id = i.id;
  api_key = i.api_key;
  spend_pub = i.spend_pub;
  view_pub = i.view_pub;
  release_authority = i.release_authority;
  webhook_url = i.webhook_url;
}

abbrev pub database : Tables
database = record {
  first_of = λ rows x y. true;
  institutions = institution_row bank ∷ institution_row rival ∷ [];
  deposits =
      set_state approved (new_row (codes "dep_1") 1000 (order_of bank (replicate 32 3)))
      ∷ new_row (codes "dep_2") 2000 (order_of rival (replicate 32 4))
      ∷ [];
}

database-Represents : Represents database sample
unfolding row_to_deposit row_to_institution new_row set_deposit_state create_deposit put_institution
    get set values dep_id to_string big_int text_eq
database-Represents = record { deposits = refl; institutions = refl }

abbrev threes : Bytes
threes = replicate 32 3

stealth_bytes : All (λ (d : DepositRecord). All IsByte d.stealth_pubkey) (values sample.deposits)
unfolding set_deposit_state create_deposit put_institution get set values dep_id to_string text_eq
stealth_bytes = (replicate-IsByte 32 3 (omega arith), (replicate-IsByte 32 4 (omega arith), tt))

one_deposit : AtMostOne threes (values sample.deposits)
unfolding set_deposit_state create_deposit put_institution get set values dep_id to_string text_eq
one_deposit = ((λ e. (refl, tt)), ((λ e. tt), tt))

apply_on_chain_match-Represents_example :
    let (r, s') =
      Memory.apply_on_chain_match 10002
        (bytes_to_hex threes)
        (codes "acc")
        50
        (codes "approved")
        sample in
    (t' : Tables) × (Postgres.apply_on_chain_match env.draw
        (bytes_to_hex threes)
        (codes "acc")
        50
        (codes "approved")
        database
      ≡ returned (r, t'))
    × Represents t' s'
apply_on_chain_match-Represents_example =
    apply_on_chain_match-Represents env.draw threes (codes "acc") 50 (codes "approved") database
      sample database-Represents (replicate-IsByte 32 3 (omega arith)) stealth_bytes one_deposit
      (omega arith)

-- A list of at most three entries.
banks_times : HasDistinctTimes (owned_by bank.id (values sample.deposits))
unfolding owned_by values get text_eq set_deposit_state create_deposit put_institution set dep_id
    to_string
banks_times = (tt, tt)

listed_3 : list_limit (some (nonneg 3)) ≡ nonneg 3
unfolding min_num
listed_3 = refl

serve-Agree_example :
    Agree
      (serve postgres_store zod toy env (treasury_list (some (nonneg 3))) bank database)
      (serve memory_store zod toy env (treasury_list (some (nonneg 3))) bank sample)
serve-Agree_example =
    serve-Agree zod toy env (treasury_list (some (nonneg 3))) bank database sample
      database-Represents sample-IsValid ((3, listed_3), banks_times)

get_treasury_list-IsAdmitted_example :
    (IsAdmitted (some (above 1))
      → (resp : Response) × (get_treasury_list postgres_store (some (above 1)) bank database
          ≡ returned (resp, database)))
    × (¬ IsAdmitted (some (above 1))
        → (get_treasury_list postgres_store (some (above 1)) bank database ≡ threw store_failure)
          × ((resp : Response) × (get_treasury_list memory_store (some (above 1)) bank sample
                ≡ returned (resp, sample))))
get_treasury_list-IsAdmitted_example =
    get_treasury_list-IsAdmitted bank database (some (above 1)) sample
