-- ===== src/Store/Memory/Keys.antt =====
-- `findByApiKey` of `MemoryStore`, and who passes the middleware over that store.
use g_pay.Base.{
  ◌≡◌, ◌≢◌, inl, inr, sym, ap, ◌∙◌, true, Option, none, some, [], ◌∷◌, Text, text_eq, text_eq_iff,
  Bool-cases, some-injective, All,
}
use g_pay.Store.Types.{Institution}
use g_pay.Store.JsMap.{JsMap, get, values, HasDistinctKeys}
use g_pay.Store.Memory.{MemoryStore, memory_store, first_with_key, find_by_api_key, get_institution}
use g_pay.Store.Memory.Invariant.{IsValid}
use g_pay.Auth.{allowed, api_key_auth}
use g_pay.Auth.Laws.{api_key_auth_iff}

-- What the loop finds has the key, and stands in the map under its own id.
first_with_key_lem :
    (key : Text) (m : JsMap Institution) (i : Institution)
    → All (λ e. e.0 ≡ e.1.id) m
    → HasDistinctKeys m
    → first_with_key key (values m) ≡ some i
    → (i.api_key ≡ key) × (get i.id m ≡ some i)
unfolding first_with_key values get
first_with_key_lem key [] i ids apart h = absurd cc
first_with_key_lem key ((k, v) ∷ m) i (own, ids) (new, apart) h =
    elim (Bool-cases (text_eq v.api_key key)) [
      | inl here ↦
          let same : v ≡ i = some-injective (rw here at h) in
          let is_key = (text_eq_iff v.api_key key).0 here in
          (
            ap (λ (x : Institution). x.api_key) (sym same) ∙ is_key,
            let at_key : text_eq k i.id ≡ true =
                  (text_eq_iff k i.id).1 (own ∙ ap (λ (x : Institution). x.id) same) in
                rw at_key (ap some same),
          )
      | inr there ↦
          let (is_key, found) = first_with_key_lem key m i ids apart (rw there at h) in
          (
            is_key,
            elim (Bool-cases (text_eq k i.id)) [
              | inl clash ↦
                  let missing : get i.id m ≡ none =
                    ap (λ j. get j m) (sym ((text_eq_iff k i.id).0 clash)) ∙ new in
                  absurd cc
              | inr differs ↦ rw differs found
            ],
          )
    ]

-- Over the valid store in memory, an institution that passes the middleware is the one that the
-- store holds under its id, and the header is that institution's own key, which is not empty.
pub api_key_auth-memory_store :
    (header : Option Text) (s : MemoryStore) (i : Institution)
    → IsValid s
    → api_key_auth memory_store header s ≡ allowed i
    → (header ≡ some i.api_key) × (i.api_key ≢ []) × (get_institution i.id s ≡ some i)
unfolding find_by_api_key get_institution
api_key_auth-memory_store header s i v h =
    let (key, given, nonempty, found) = (api_key_auth_iff memory_store header s i).0 h in
    let (is_key, held) =
      first_with_key_lem key s.institutions i v.institutions.0 v.institutions.1 found in
    (given ∙ ap some (sym is_key), λ e. nonempty (sym is_key ∙ e), held)
