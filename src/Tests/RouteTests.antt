-- ===== src/Tests/RouteTests.antt =====
-- The handlers, at the sample store.
use g_pay.Base.{
  ◌≡◌, ◌≢◌, ◌⊎◌, inr, refl, some, [], ◌∷◌, Text, codes, text_eq, arith, replicate, returned,
}
use g_pay.Hex.{bytes_to_hex, is_hex_32}
use g_pay.Radix.{to_string}
use g_pay.Store.Types.{released, refunded}
use g_pay.Store.JsMap.{get, set}
use g_pay.Store.Memory.{
  get_institution, MemoryStore, memory_store, get_deposit, set_deposit_state, create_deposit,
  put_institution, dep_id,
}
use g_pay.Store.Memory.Laws.{memory_store_laws}
use g_pay.Http.{Body, object, text}
use g_pay.Http.Reply.{ok, not_found, released_to, refunded_to}
use g_pay.Auth.{allowed, api_key_auth}
use g_pay.Routes.Schemas.{ReleaseBody, RefundBody, release_body, refund_body}
use g_pay.Routes.Public.{release_deposit, refund_deposit, own_deposit, post_release, post_refund}
use g_pay.Routes.Public.Settle.{Changed, Refused}
use g_pay.Routes.Public.Release.{IsReleased, post_release_cases, post_release_granted}
use g_pay.Routes.Public.Refund.{IsRefunded, post_refund_cases, post_refund_granted}
use g_pay.Store.Memory.Keys.{api_key_auth-memory_store}
use g_pay.Tests.Samples.{
  key_of_bank, sample-IsValid, bank, rival, env, sample, own_deposit_1, foreign_deposit_2, found_1,
  found_2,
}
use g_pay.Tests.ZodModel.{zod}

abbrev pub key_text : Text
key_text = codes "616e237719716e25ead63d831f9117f79b5aa05af8be30ff0eddb3dc43e8bdcf"

abbrev pub release_1 : Body
release_1 =
    object
      ((codes "deposit_id", text (codes "dep_1")) ∷ (codes "target_addr_hex", text key_text) ∷ [])

abbrev pub released_body : ReleaseBody
released_body = record { deposit_id = codes "dep_1"; target_addr_hex = key_text }

pub release_1_accepted : release_body zod release_1 ≡ some released_body
unfolding release_body get text_eq is_hex_32
release_1_accepted = refl

release_1_granted :
    (s' : MemoryStore) × (post_release memory_store zod (some release_1) bank sample
      ≡ returned (ok (released_to (codes "dep_1") key_text), s'))
    × Changed memory_store (codes "dep_1") released sample s'
release_1_granted =
    post_release_granted memory_store memory_store_laws zod release_1 released_body bank sample
      own_deposit_1 release_1_accepted found_1 refl refl

-- The rival is told that there is no such deposit.
pub rival_release :
    post_release memory_store zod (some release_1) rival sample ≡ returned (not_found, sample)
unfolding post_release release_deposit own_deposit release_body get text_eq is_hex_32 get_deposit
    set_deposit_state create_deposit put_institution set dep_id to_string
rival_release = refl

post_release_cases_example :
    Refused memory_store sample not_found sample
    ⊎ ((b : Body) × (r : ReleaseBody) × (some release_1 ≡ some b)
        × (release_body zod b ≡ some r)
        × IsReleased memory_store memory_store_laws rival r sample not_found sample)
post_release_cases_example =
    post_release_cases memory_store memory_store_laws zod (some release_1) rival sample sample
      not_found rival_release

abbrev refund_2 : Body
refund_2 = object ((codes "deposit_id", text (codes "dep_2")) ∷ [])

abbrev refund_2_body : RefundBody
refund_2_body = record { deposit_id = codes "dep_2" }

refund_2_accepted : refund_body zod refund_2 ≡ some refund_2_body
unfolding refund_body get text_eq
refund_2_accepted = refl

-- It expired at 9000.
post_refund_granted_example :
    (s' : MemoryStore) × (post_refund memory_store zod env (some refund_2) rival sample
      ≡ returned (ok (refunded_to (codes "dep_2") (bytes_to_hex (replicate 32 7))), s'))
    × Changed memory_store (codes "dep_2") refunded sample s'
post_refund_granted_example =
    post_refund_granted memory_store memory_store_laws zod env refund_2 refund_2_body rival sample
      foreign_deposit_2 refund_2_accepted found_2 refl (inr (inr (refl, omega arith)))

bank_refund :
    post_refund memory_store zod env (some refund_2) bank sample ≡ returned (not_found, sample)
unfolding post_refund refund_deposit own_deposit refund_body get text_eq is_hex_32 get_deposit
    set_deposit_state create_deposit put_institution set dep_id to_string
bank_refund = refl

post_refund_cases_example :
    Refused memory_store sample not_found sample
    ⊎ ((b : Body) × (r : RefundBody) × (some refund_2 ≡ some b)
        × (refund_body zod b ≡ some r)
        × IsRefunded memory_store memory_store_laws env.now bank r sample not_found sample)
post_refund_cases_example =
    post_refund_cases memory_store memory_store_laws zod env (some refund_2) bank sample sample
      not_found bank_refund

key_passes : api_key_auth memory_store (some (codes "k1")) sample ≡ allowed bank
unfolding api_key_auth
key_passes = rw (key_of_bank, api_key_auth) refl

banks_key_is_banks :
    (some (codes "k1") ≡ some (codes "k1"))
    × (codes "k1" ≢ [])
    × (get_institution (codes "bank") sample ≡ some bank)
banks_key_is_banks =
    api_key_auth-memory_store (some (codes "k1")) sample bank sample-IsValid key_passes
