-- ===== src/Auth/Laws.antt =====
-- Who passes the middleware.
use g_pay.Base.{
  inl, inr, ◌⊎◌, Option-cases, refl, ◌≡◌, ◌≢◌, ◌↔◌, none, some, Option, [], ◌∷◌, Text, arith,
}
use g_pay.Store.Types.{Institution}
use g_pay.Store.Interface.{Store}
use g_pay.Http.Reply.{Response}
use g_pay.Auth.{denied, allowed, api_key_auth, missing_key, invalid_key}

-- A request passes as an institution exactly when its header is a key that is not empty and that
-- the store finds the institution by.
pub api_key_auth_iff :
    (I : Store) (header : Option Text) (s : I.S) (inst : Institution)
    → (api_key_auth I header s ≡ allowed inst)
      ↔ ((key : Text) × (header ≡ some key) × (key ≢ []) × (I.find_by_api_key key s ≡ some inst))
unfolding api_key_auth
api_key_auth_iff I none s inst = (λ e. cc, λ (k, e, _, _). cc)
api_key_auth_iff I (some []) s inst = (λ e. cc, λ (k, e, n, _). ground arith)
api_key_auth_iff I (some (c ∷ key)) s inst =
    (λ e. (c ∷ key, refl, cc, ground arith), λ (k, e, n, f). ground arith)

-- One that does not pass gets one of the two messages.
pub api_key_auth_denied :
    (I : Store) (header : Option Text) (s : I.S)
    → ((inst : Institution) → api_key_auth I header s ≢ allowed inst)
    → (answer : Response) × ((answer ≡ missing_key) ⊎ (answer ≡ invalid_key))
      × (api_key_auth I header s ≡ denied answer)
unfolding api_key_auth
api_key_auth_denied I none s no_one = (missing_key, inl refl, refl)
api_key_auth_denied I (some []) s no_one = (missing_key, inl refl, refl)
api_key_auth_denied I (some (c ∷ key)) s no_one =
    elim (Option-cases (I.find_by_api_key (c ∷ key) s)) [
      | inl unknown ↦ (invalid_key, inr refl, rw (unknown, api_key_auth) refl)
      | inr (inst, known) ↦ absurd (no_one inst (rw (known, api_key_auth) refl))
    ]
