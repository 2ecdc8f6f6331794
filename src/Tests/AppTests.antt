-- ===== src/Tests/AppTests.antt =====
-- Requests to the whole gateway, at the sample store.
use g_pay.Base.{
  ◌≡◌, ◌≢◌, ◌⊎◌, refl, none, some, [], codes, text_eq, returned, threw, true, false, wallet_failure,
}
use g_pay.Store.Types.{Institution}
use g_pay.Store.Memory.{memory_store, get_deposit}
use g_pay.Store.Memory.Laws.{memory_store_laws, IsValid-iff}
use g_pay.Http.{Request}
use g_pay.Http.Hono.{starts_with}
use g_pay.Http.Reply.{Response, failure}
use g_pay.Auth.{allowed, api_key_auth, missing_key, invalid_key}
use g_pay.Routes.Internal.{forbidden, secret_matches}
use g_pay.Demo.{Tools, failed}
use g_pay.Demo.Handlers.{init, post_init, demo_serve}
use g_pay.Demo.Effects.{IsNew, demo_serve_cases}
use g_pay.App.{app}
use g_pay.App.Guards.{app_unauthorised, app-forbidden, app_anonymous}
use g_pay.App.Safety.{Fate, app_deposit}
use g_pay.Tests.Samples.{bank, env, sample, sample-IsValid, own_deposit_1, found_1, no_such_key}
use g_pay.Tests.ZodModel.{zod}
use g_pay.Tests.HonoModel.{hono, hono_laws}
use g_pay.Tests.CurveModel.{toy}
use g_pay.Tests.RouteTests.{release_1}

abbrev pub tools : Tools
tools = record {
  vault_authority_pubkey = codes "vault";
  demo_wallet_keypair = codes "demo.json";
  oracle_1_keypair = codes "o1.json";
  oracle_2_keypair = codes "o2.json";
  wallet = threw wallet_failure;
  target = codes "target";
  bs58_encode = λ bs. [];
  bs58_decode = λ s. returned [];
  run_cli = λ args. failed (codes "offline");
}

-- A release with an unknown key, and a report without the secret.
abbrev stranger : Request
stranger = record {
  method = codes "POST";
  path = codes "/v1/release";
  api_key = some (codes "k3");
  internal_secret = none;
  body = some release_1;
  limit = none;
}

abbrev spoof : Request
spoof = record {
  method = codes "POST";
  path = codes "/v1/internal/deposit-detected";
  api_key = some (codes "k3");
  internal_secret = some (codes "guess");
  body = none;
  limit = none;
}

no_key : (inst : Institution) → api_key_auth memory_store (some (codes "k3")) sample ≢ allowed inst
unfolding api_key_auth
no_key inst e = absurd (cc (rw (no_such_key, api_key_auth) at e))

wrong_secret : secret_matches (codes "secret") (some (codes "guess")) ≡ false
unfolding secret_matches text_eq
wrong_secret = refl

no_secret : secret_matches (codes "secret") none ≡ false
unfolding secret_matches
no_secret = refl

below : starts_with (codes "/v1/release") (codes "/v1/") ≡ true
unfolding starts_with
below = refl

outside : starts_with (codes "/v1/release") (codes "/v1/internal/") ≡ false
unfolding starts_with
outside = refl

inside : starts_with (codes "/v1/internal/deposit-detected") (codes "/v1/internal/") ≡ true
unfolding starts_with
inside = refl

app_unauthorised_example :
    (answer : Response) × ((answer ≡ missing_key) ⊎ (answer ≡ invalid_key))
    × (app hono memory_store zod tools toy (codes "secret") env stranger sample ≡ (answer, sample))
app_unauthorised_example =
    app_unauthorised hono hono_laws memory_store zod tools toy (codes "secret") env stranger sample
      below outside no_key

app-forbidden_example :
    app hono memory_store zod tools toy (codes "secret") env spoof sample ≡ (forbidden, sample)
app-forbidden_example =
    app-forbidden hono hono_laws memory_store zod tools toy (codes "secret") env spoof sample inside
      wrong_secret

app_anonymous_example :
    (app hono memory_store zod tools toy (codes "secret") env stranger sample).1 ≡ sample
app_anonymous_example =
    app_anonymous hono hono_laws memory_store zod tools toy (codes "secret") env stranger sample
      no_key no_secret

app_deposit_example : Fate zod tools toy (codes "secret") env stranger sample own_deposit_1 (
    get_deposit
      (codes "dep_1")
      (app hono memory_store zod tools toy (codes "secret") env stranger sample).1)
app_deposit_example =
    app_deposit zod tools toy (codes "secret") env hono hono_laws stranger sample (codes "dep_1")
      own_deposit_1 sample-IsValid found_1

-- The demo's wallet cannot be read.
abbrev no_wallet : Response
no_wallet = failure 500 (codes "demo_wallet_unavailable")

init_call :
    demo_serve memory_store zod tools toy env init bank sample ≡ returned (no_wallet, sample)
unfolding demo_serve post_init
init_call = refl

demo_serve_cases_example :
    (sample ≡ sample) ⊎ IsNew memory_store memory_store_laws zod tools toy env bank sample sample
demo_serve_cases_example =
    demo_serve_cases memory_store memory_store_laws zod tools toy env init bank sample sample
      no_wallet ((IsValid-iff sample).0 sample-IsValid) init_call
