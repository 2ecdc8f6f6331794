-- ===== src/Tests/FactoryTests.antt =====
-- The store that the gateway starts on without a database.
use g_pay.Base.{
  codes, refl, ◌≡◌, none, some, [], ◌∷◌, returned, threw, store_failure, true, false, text_eq,
  text_eq_iff, All,
}
use g_pay.Store.Memory.{MemoryStore, find_by_api_key}
use g_pay.Store.Memory.Invariant.{IsValid}
use g_pay.Store.Factory.{in_memory, demo_institution, create_store, Database}
use g_pay.App.Start.{Variables, start, IsFresh, start_without_database}
use g_pay.Store.Factory.Bootstrap.{AreApart, create_store-in_memory}
use g_pay.Tests.Samples.{bank}

apart : AreApart (demo_institution ∷ bank ∷ [])
unfolding text_eq demo_institution
apart = (
  (
    (
      λ e. let same : false ≡ true = (text_eq_iff demo_institution.id bank.id).1 e in cc,
      λ e. let same : false ≡ true = (text_eq_iff demo_institution.api_key bank.api_key).1 e in cc,
    ),
    tt,
  ),
  (tt, tt),
)

abbrev unreachable : Database
unreachable = record {
  connect = λ url. threw store_failure;
  run_file = λ path t. threw store_failure;
}

starts_with_both :
    (s : MemoryStore) × (create_store unreachable none (record {
      database_url = none;
      migrations_file = none;
      bootstrap_institutions = some (demo_institution ∷ bank ∷ []);
    })
      ≡ returned (in_memory s))
    × IsValid s
    × All (λ i. find_by_api_key i.api_key s ≡ some i) (demo_institution ∷ bank ∷ [])
starts_with_both = create_store-in_memory unreachable (demo_institution ∷ bank ∷ []) none apart

-- `DATABASE_URL=`
abbrev no_variables : Variables
no_variables = record { database_url = some []; migrations_file = none; internal_secret = none }

start_without_database_example :
    (s : MemoryStore) × (start unreachable (λ path. path) no_variables ≡ returned (in_memory s))
    × IsFresh s
start_without_database_example = start_without_database unreachable (λ path. path) no_variables refl

-- With an address, a server that cannot be reached ends the start.
cannot_start :
    start unreachable
      (λ path. path)
      (record no_variables { database_url = some (codes "postgres:") })
    ≡ threw store_failure
unfolding create_store
cannot_start = refl
