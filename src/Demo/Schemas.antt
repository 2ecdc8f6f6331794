-- ===== src/Demo/Schemas.antt =====
-- The bodies of the demo's routes: `SimulateBody`, `ReleaseBody` and `RefundBody` are one schema.
use g_pay.Base.{Option, some, [], ◌∷◌, Text, codes}
use g_pay.Http.{Body}
use g_pay.Http.Zod.{Zod}
use g_pay.Routes.Schemas.{◌>>=◌}

pub record AttestBody : Type 0 where
  pub deposit_id : Text
  pub verdict : Text

module _ (z : Zod) where
  unfoldable pub deposit_body : Body → Option Text
  deposit_body b = do id ← z.property (codes "deposit_id") b; z.string_min 1 id

  unfoldable pub attest_body : Body → Option AttestBody
  attest_body b = do
    id ← z.property (codes "deposit_id") b
    deposit_id ← z.string_min 1 id
    word ← z.property (codes "verdict") b
    verdict ← z.one_of (codes "clean" ∷ codes "dirty" ∷ []) word
    some (record { deposit_id = deposit_id; verdict = verdict })
