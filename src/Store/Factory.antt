-- ===== src/Store/Factory.antt =====
-- store/index.ts: `createStore`, which opens the store that the environment names and puts the given
-- institutions into it.
pub mod Bootstrap
use g_pay.Base.{
  Option, none, some, List, [], ◌∷◌, Text, Outcome, returned, ◌>>=◌, true, replicate, codes,
}
use g_pay.Hex.{hex_to_bytes}
use g_pay.Store.Types.{Institution}
use g_pay.Store.Interface.{Store}
use g_pay.Store.Memory.{MemoryStore, memory_store, empty}
use g_pay.Store.Postgres.{postgres_store}
use g_pay.Store.Postgres.Sql.{Tables}

-- `for (const inst of …) await store.putInstitution(inst)`
unfoldable pub put_all : (I : Store) → List Institution → I.S → Outcome I.S
put_all I [] s = returned s
put_all I (inst ∷ rest) s = I.put_institution inst s >>= put_all I rest

-- `if (options.bootstrapInstitutions)`
unfoldable pub bootstrap : (I : Store) → Option (List Institution) → I.S → Outcome I.S
bootstrap I none s = returned s
bootstrap I (some insts) s = put_all I insts s

-- The store in use, with its contents.
pub data Opened : Type 0 where
  in_memory : MemoryStore → Opened
  on_postgres : Tables → Opened

-- What the factory uses of `pg` and of the file system: the tables that the pool finds behind an
-- address, and running the statements of a file on them.
pub record Database : Type 0 where
  pub connect : Text → Outcome Tables
  pub run_file : Text → Tables → Outcome Tables

-- `StoreFactoryOptions`, where a missing field and null are both none.
pub record StoreFactoryOptions : Type 0 where
  pub database_url : Option Text
  pub migrations_file : Option Text
  pub bootstrap_institutions : Option (List Institution)

-- `if (options.migrationsFile)`
abbrev pub migrate : Database → Option Text → Tables → Outcome Tables
migrate db none t = returned t
migrate db (some []) t = returned t
migrate db (some (c ∷ path)) t = db.run_file (c ∷ path) t

-- `if (!url)` on both ends of it.
abbrev pub open_store : Database → Option Text → StoreFactoryOptions → Outcome Opened
open_store db none options = do
  s ← bootstrap memory_store options.bootstrap_institutions empty
  returned (in_memory s)
open_store db (some []) options = do
  s ← bootstrap memory_store options.bootstrap_institutions empty
  returned (in_memory s)
open_store db (some (c ∷ url)) options = do
  opened ← db.connect (c ∷ url)
  migrated ← migrate db options.migrations_file opened
  t ← bootstrap postgres_store options.bootstrap_institutions migrated
  returned (on_postgres t)

-- `a ?? b`
abbrev pub or_else {ℓ} : {A : Type ℓ} → Option A → Option A → Option A
or_else none b = b
or_else (some a) b = some a

-- `variable` is `process.env.DATABASE_URL`.
unfoldable pub create_store : Database → Option Text → StoreFactoryOptions → Outcome Opened
create_store db variable options = open_store db (or_else options.database_url variable) options

-- `DEMO_INSTITUTION` of index.ts, whose `hexToBytes` is that of routes.ts.
unfoldable pub demo_institution : Institution
demo_institution = record {
  id = codes "demo_bank";
  api_key = codes "g-p_demo_h6kj9d8s7g6f5d4";
  spend_pub =
      hex_to_bytes (codes "616e237719716e25ead63d831f9117f79b5aa05af8be30ff0eddb3dc43e8bdcf");
  view_pub =
      hex_to_bytes (codes "3e97bbe3dad77cdbab3b9d7a5af963868b2ee668470874b566dad4a32076c98b");
  release_authority = replicate 32 0;
  webhook_url = none;
}
