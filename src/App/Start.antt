-- ===== src/App/Start.antt =====
-- apps/api-gateway/src/index.ts from the environment variables on: the store that the gateway starts
-- on, and what it answers with. Opening the port and the signals are left out.
use g_pay.Base.{
  ◌≡◌, ◌↔◌, refl, sym, ap, ◌∙◌, inl, inr, Bool, true, false, Bool-cases, Option, none, some,
  some-injective, [], ◌∷◌, Text, codes, text_eq, if◌then◌else◌, Outcome, returned,
}
use g_pay.Stealth.Primitives.{Curve}
use g_pay.Store.Types.{Institution}
use g_pay.Store.JsMap.{get, set, values}
use g_pay.Store.Memory.{
  MemoryStore, memory_store, empty, put_institution, get_institution, get_deposit, find_by_api_key,
  first_with_key,
}
use g_pay.Store.Memory.Invariant.{IsValid, put_institution-IsValid}
use g_pay.Store.Memory.Keys.{api_key_auth-memory_store}
use g_pay.Store.Postgres.{postgres_store}
use g_pay.Store.Factory.{
  Opened, in_memory, on_postgres, Database, StoreFactoryOptions, create_store, bootstrap, put_all,
  or_else, demo_institution,
}
use g_pay.Http.{Request, Env}
use g_pay.Http.Zod.{Zod}
use g_pay.Http.Hono.{Hono}
use g_pay.Http.Reply.{Response}
use g_pay.Auth.{allowed, api_key_auth}
use g_pay.Demo.{Tools}
use g_pay.App.{app}

-- What is read of `process.env`.
pub record Variables : Type 0 where
  pub database_url : Option Text
  pub migrations_file : Option Text
  pub internal_secret : Option Text

-- `process.env.DATABASE_URL ? … : …`
abbrev pub is_set : Option Text → Bool
is_set none = false
is_set (some []) = false
is_set (some (c ∷ cs)) = true

-- `process.env.GPAY_INTERNAL_SECRET ?? "dev-internal-secret-rotate"`
abbrev pub secret_of : Variables → Text
secret_of vars = elim vars.internal_secret [
  | none ↦ codes "dev-internal-secret-rotate"
  | some given ↦ given
]

-- `in_cwd` is `resolve(process.cwd(), …)`.
abbrev pub start_options : (Text → Text) → Variables → StoreFactoryOptions
start_options in_cwd vars = record {
  database_url = vars.database_url;
  migrations_file = or_else vars.migrations_file (
      if is_set vars.database_url
      then some (in_cwd (codes "deploy/migrations/001_init.sql"))
      else none);
  bootstrap_institutions = some (if is_set vars.database_url then [] else demo_institution ∷ []);
}

abbrev pub start : Database → (Text → Text) → Variables → Outcome Opened
start db in_cwd vars = create_store db vars.database_url (start_options in_cwd vars)

module _ (h : Hono) (z : Zod) (t : Tools) (c : Curve) (vars : Variables) where
  -- `serve({ fetch: app.fetch })` over the opened store.
  abbrev pub respond : Env → Request → Opened → Response × Opened
  respond env req (in_memory s) =
      let r = app h memory_store z t c (secret_of vars) env req s in (r.0, in_memory r.1)
  respond env req (on_postgres s) =
      let r = app h postgres_store z t c (secret_of vars) env req s in (r.0, on_postgres r.1)

abbrev fresh : MemoryStore
fresh = put_institution demo_institution empty

fresh-IsValid : IsValid fresh
fresh-IsValid =
    put_institution-IsValid demo_institution empty
      (record { deposits = (tt, tt); institutions = (tt, tt) })

fresh_institution :
    (id : Text) (inst : Institution)
    → get_institution id fresh ≡ some inst
    → inst ≡ demo_institution
unfolding get_institution put_institution get set
fresh_institution id inst found = elim (Bool-cases (text_eq demo_institution.id id)) [
  | inl is ↦ some-injective (sym (rw is at found))
  | inr other ↦ absurd (cc (rw other at found))
]

fresh_key :
    api_key_auth memory_store (some demo_institution.api_key) fresh ≡ allowed demo_institution
unfolding api_key_auth find_by_api_key first_with_key put_institution set values demo_institution
    text_eq
fresh_key = refl

fresh_deposits : (id : Text) → get_deposit id fresh ≡ none
unfolding get_deposit put_institution get
fresh_deposits id = refl

-- The store that no deposit is in yet, and that lets the demo key pass and no other.
abbrev pub IsFresh : MemoryStore → Type 0
IsFresh s =
    IsValid s
    × ((id : Text) → get_deposit id s ≡ none)
    × ((header : Option Text) (inst : Institution)
        → (api_key_auth memory_store header s ≡ allowed inst)
          ↔ ((header ≡ some demo_institution.api_key) × (inst ≡ demo_institution)))

fresh-IsFresh : IsFresh fresh
fresh-IsFresh = (
  fresh-IsValid,
  fresh_deposits,
  λ header inst. (
    (λ passes.
        let (given, nonempty, held) =
          api_key_auth-memory_store header fresh inst fresh-IsValid passes in
        let same = fresh_institution inst.id inst held in
        (given ∙ ap (λ (i : Institution). some i.api_key) same, same)),
    λ (given, same). rw (given, same) fresh_key,
  ),
)

open_fresh :
    (db : Database) (url file : Option Text)
    → is_set url ≡ false
    → create_store db url (record {
      database_url = url;
      migrations_file = file;
      bootstrap_institutions = some (if is_set url then [] else demo_institution ∷ []);
    })
      ≡ returned (in_memory fresh)
unfolding create_store bootstrap put_all
open_fresh db none file unset = refl
open_fresh db (some []) file unset = refl
open_fresh db (some (c ∷ url)) file unset = absurd cc

-- When DATABASE_URL is unset or empty, the gateway starts on a store in memory that is valid, in
-- which no deposit is found, and over which the key of the demo institution passes the middleware,
-- as that institution, and nothing else does.
pub start_without_database :
    (db : Database) (in_cwd : Text → Text) (vars : Variables)
    → is_set vars.database_url ≡ false
    → (s : MemoryStore) × (start db in_cwd vars ≡ returned (in_memory s)) × IsFresh s
start_without_database db in_cwd vars unset =
    (fresh, open_fresh db vars.database_url _ unset, fresh-IsFresh)
