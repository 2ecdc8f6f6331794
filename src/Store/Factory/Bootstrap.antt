-- ===== src/Store/Factory/Bootstrap.antt =====
-- The institutions that a fresh store in memory knows.
use g_pay.Base.{
  ◌≡◌, ◌≢◌, inl, inr, refl, ap, ◌∙◌, Option, none, some, List, [], ◌∷◌, ◌++◌, Text, text_eq,
  text_eq_refl, text_eq_ne, Bool-cases, All, returned, if◌then◌else◌,
}
use g_pay.Store.Types.{Institution}
use g_pay.Store.JsMap.{JsMap, get, values, get-set, set_new}
use g_pay.Store.Memory.{
  MemoryStore, memory_store, empty, put_institution, find_by_api_key, first_with_key,
}
use g_pay.Store.Memory.Invariant.{IsValid, put_institution-IsValid}
use g_pay.Store.Factory.{put_all, bootstrap, in_memory, create_store, Database}

-- No two of the institutions share an id or a key.
abbrev pub AreApart : List Institution → Type 0
AreApart [] = Unit {0}
AreApart (i ∷ is) = All (λ j. (i.id ≢ j.id) × (i.api_key ≢ j.api_key)) is × AreApart is

-- An institution that the store does not know by its id, nor by its key.
abbrev IsUnknown : MemoryStore → Institution → Type 0
IsUnknown s i = (get i.id s.institutions ≡ none) × (find_by_api_key i.api_key s ≡ none)

values-append :
    (m : JsMap Institution) (k : Text) (i : Institution)
    → values (m ++ (k, i) ∷ []) ≡ values m ++ i ∷ []
unfolding values
values-append [] k i = refl
values-append ((j, v) ∷ m) k i = ap (λ vs. v ∷ vs) (values-append m k i)

first_with_key-append :
    (key : Text) (is : List Institution) (i : Institution)
    → first_with_key key (is ++ i ∷ [])
      ≡ elim (first_with_key key is) as (λ _. Option Institution) [
        | none ↦ if text_eq i.api_key key then some i else none
        | some found ↦ some found
      ]
unfolding first_with_key
first_with_key-append key [] i = refl
first_with_key-append key (j ∷ is) i = elim (Bool-cases (text_eq j.api_key key)) [
  | inl here ↦ rw (here, first_with_key) refl
  | inr there ↦ rw (there, first_with_key) (first_with_key-append key is i)
]

-- A new institution is found by its key where no other is.
find_by_api_key-put_institution :
    (key : Text) (i : Institution) (s : MemoryStore)
    → get i.id s.institutions ≡ none
    → find_by_api_key key (put_institution i s)
      ≡ elim (find_by_api_key key s) as (λ _. Option Institution) [
        | none ↦ if text_eq i.api_key key then some i else none
        | some found ↦ some found
      ]
unfolding find_by_api_key put_institution
find_by_api_key-put_institution key i s new =
    rw (set_new i.id i s.institutions new, values-append s.institutions i.id i)
      (first_with_key-append key (values s.institutions) i)

IsUnknown-put_institution :
    (i j : Institution) (s : MemoryStore)
    → IsUnknown s i
    → IsUnknown s j
    → (i.id ≢ j.id) × (i.api_key ≢ j.api_key)
    → IsUnknown (put_institution i s) j
unfolding put_institution
IsUnknown-put_institution i j s (new, _) (other, no_key) (ids, keys) = (
  rw (get-set j.id i.id i s.institutions, text_eq_ne i.id j.id ids) other,
  find_by_api_key-put_institution j.api_key i s new
      ∙ rw (no_key, text_eq_ne i.api_key j.api_key keys) refl,
)

All-IsUnknown-put_institution :
    (i : Institution) (is : List Institution) (s : MemoryStore)
    → IsUnknown s i
    → All (IsUnknown s) is
    → All (λ j. (i.id ≢ j.id) × (i.api_key ≢ j.api_key)) is
    → All (IsUnknown (put_institution i s)) is
All-IsUnknown-put_institution i [] s new others apart = tt
All-IsUnknown-put_institution i (j ∷ is) s new (unknown, others) (differ, apart) = (
  IsUnknown-put_institution i j s new unknown differ,
  All-IsUnknown-put_institution i is s new others apart,
)

-- Putting unknown institutions that are apart, one after the other, makes each of them found by its
-- key, and leaves those that were found.
put_all_lem :
    (is : List Institution) (s : MemoryStore)
    → All (IsUnknown s) is
    → AreApart is
    → (s' : MemoryStore) × (put_all memory_store is s ≡ returned s')
      × All (λ i. find_by_api_key i.api_key s' ≡ some i) is
      × ((key : Text) (i : Institution)
          → find_by_api_key key s ≡ some i
          → find_by_api_key key s' ≡ some i)
      × (IsValid s → IsValid s')
unfolding put_all
put_all_lem [] s unknown apart = (s, refl, tt, λ key i e. e, λ v. v)
put_all_lem (i ∷ is) s (new, others) (differ, apart) =
    let t = put_institution i s in
    let (s', put, each, kept, valid) =
      put_all_lem is t (All-IsUnknown-put_institution i is s new others differ) apart in
    let here : find_by_api_key i.api_key t ≡ some i =
      find_by_api_key-put_institution i.api_key i s new.0
      ∙ rw (new.1, text_eq_refl i.api_key) refl in
    (
      s',
      put,
      (kept i.api_key i here, each),
      λ key j e. kept key j (find_by_api_key-put_institution key i s new.0 ∙ rw e refl),
      λ v. valid (put_institution-IsValid i s v),
    )

nobody_known : (is : List Institution) → All (IsUnknown empty) is
unfolding get find_by_api_key first_with_key values
nobody_known [] = tt
nobody_known (i ∷ is) = ((refl, refl), nobody_known is)

-- Without a database's address, the gateway starts on the store in memory, which is valid and finds
-- each of the given institutions by its key, if no two of them share an id or a key.
pub create_store-in_memory :
    (db : Database) (is : List Institution) (migrations_file : Option Text)
    → AreApart is
    → (s : MemoryStore) × (create_store db none (record {
      database_url = none;
      migrations_file = migrations_file;
      bootstrap_institutions = some is;
    })
        ≡ returned (in_memory s))
      × IsValid s
      × All (λ i. find_by_api_key i.api_key s ≡ some i) is
unfolding create_store bootstrap
create_store-in_memory db is migrations_file apart =
    let (s, put, each, _, valid) = put_all_lem is empty (nobody_known is) apart in
    (s, rw put refl, valid (record { deposits = (tt, tt); institutions = (tt, tt) }), each)
