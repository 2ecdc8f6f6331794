-- ===== src/Tests/ClientTests.antt =====
-- A release that the dashboard's client sends, at the sample store.
use g_pay.Base.{◌≡◌, ◌≢◌, refl, true, [], codes, arith}
use g_pay.Hex.{is_hex_32}
use g_pay.Store.Types.{released}
use g_pay.Store.Memory.{MemoryStore, memory_store}
use g_pay.Store.Memory.Laws.{memory_store_laws}
use g_pay.Http.Reply.{ok, released_to}
use g_pay.Routes.Public.Settle.{Changed}
use g_pay.App.{app}
use g_pay.Client.{release, arrives}
use g_pay.Client.Requests.{app-release}
use g_pay.Tests.Samples.{bank, env, sample, own_deposit_1, found_1, key_of_bank}
use g_pay.Tests.ZodModel.{zod, zod_laws}
use g_pay.Tests.HonoModel.{hono, hono_laws}
use g_pay.Tests.CurveModel.{toy}
use g_pay.Tests.RouteTests.{key_text}
use g_pay.Tests.AppTests.{tools}

target_accepted : is_hex_32 key_text ≡ true
unfolding is_hex_32
target_accepted = refl

key_given : codes "k1" ≢ []
key_given = cc

app-release_example :
    (s' : MemoryStore) × (app hono memory_store zod tools toy
        (codes "secret")
        env
        (arrives (codes "/api") (release (codes "/api") (codes "k1") (codes "dep_1") key_text))
        sample
      ≡ (ok (released_to (codes "dep_1") key_text), s'))
    × Changed memory_store (codes "dep_1") released sample s'
app-release_example =
    app-release hono hono_laws memory_store memory_store_laws zod zod_laws tools toy
      (codes "secret") env (codes "/api") (codes "k1") key_text bank sample own_deposit_1 key_given
      key_of_bank found_1 refl refl (omega arith) target_accepted
