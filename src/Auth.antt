-- ===== src/Auth.antt =====
-- apps/api-gateway/src/auth.ts: the middleware that turns an API key into an institution.
pub mod Laws
use g_pay.Base.{Bool, true, false, Option, none, some, [], ◌∷◌, Text, codes}
use g_pay.Store.Types.{Institution}
use g_pay.Store.Interface.{Store}
use g_pay.Http.Reply.{Response, failure}

-- The truth value of a header: absent and empty are false.
abbrev pub present : Option Text → Option Text
present none = none
present (some []) = none
present (some (c ∷ s)) = some (c ∷ s)

-- What the middleware does: it answers, or hands the institution to `next()`.
pub data Access : Type 0 where
  denied : Response → Access
  allowed : Institution → Access

abbrev pub missing_key : Response
missing_key = failure 401 (codes "missing X-API-Key header")

abbrev pub invalid_key : Response
invalid_key = failure 401 (codes "invalid api key")

unfoldable pub api_key_auth : (I : Store) → Option Text → I.S → Access
api_key_auth I header s = elim (present header) [
  | none ↦ denied missing_key
  | some key ↦ elim (I.find_by_api_key key s) [
    | none ↦ denied invalid_key
    | some inst ↦ allowed inst
  ]
]
