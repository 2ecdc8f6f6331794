-- ===== src/Tests/RunTests.antt =====
-- Sequences of calls, at the sample store.
use g_pay.Base.{◌≡◌, ◌≢◌, inl, refl, none, some, List, [], ◌∷◌, codes, text_eq, returned}
use g_pay.Hex.{is_hex_32}
use g_pay.Radix.{to_string}
use g_pay.Store.Types.{DepositRecord, released, with_state, slice_to}
use g_pay.Store.JsMap.{get, set, values}
use g_pay.Store.Memory.{
  MemoryStore, memory_store, get_deposit, set_deposit_state, create_deposit, put_institution,
  dep_id, list_institution_deposits, owned_by, sort_newest, insert_newest,
}
use g_pay.Store.Memory.Laws.{memory_store_laws, IsValid-iff}
use g_pay.Store.Memory.Invariant.{IsValid, set_deposit_state-IsValid}
use g_pay.Http.Reply.{Response, not_found, error_in_state, ok, summary}
use g_pay.Routes.Schemas.{release_body}
use g_pay.Routes.Public.{
  own_deposit, release_deposit, post_release, get_treasury_deposits, by_state,
}
use g_pay.Routes.Public.Treasury.{IsSummaryOf, get_treasury_deposits_lem}
use g_pay.Routes.Public.Calls.{release, serve}
use g_pay.Routes.Public.Runs.{Run, done, then_call, settled_stays_settled, isolation}
use g_pay.Tests.Samples.{bank, rival, env, sample, sample-IsValid, own_deposit_1, found_1}
use g_pay.Tests.ZodModel.{zod}
use g_pay.Tests.CurveModel.{toy}
use g_pay.Tests.RouteTests.{release_1, rival_release}

-- The rival asks for the bank's deposit.
rival_call :
    serve memory_store zod toy env (release (some release_1)) rival sample
    ≡ returned (not_found, sample)
unfolding serve
rival_call = rival_release

differ : codes "bank" ≢ codes "rival"
differ = cc

abbrev rival_run : Run memory_store zod toy sample sample
rival_run =
    then_call env (release (some release_1)) rival sample sample sample not_found rival_call
      (done sample)

isolation_example : get_deposit (codes "dep_1") sample ≡ some own_deposit_1
isolation_example =
    isolation memory_store memory_store_laws zod toy sample sample rival_run (codes "dep_1")
      own_deposit_1 ((IsValid-iff sample).0 sample-IsValid) found_1 (differ, tt)

-- The bank asks for a deposit that has been released already.
abbrev spent : MemoryStore
spent = (set_deposit_state (codes "dep_1") released sample).1

abbrev spent_deposit : DepositRecord
spent_deposit = with_state released own_deposit_1

spent-IsValid : IsValid spent
spent-IsValid = set_deposit_state-IsValid (codes "dep_1") released sample sample-IsValid

abbrev too_late : Response
too_late = record { status = 409; reply = error_in_state (codes "not_approved") released }

second_call :
    serve memory_store zod toy env (release (some release_1)) bank spent
    ≡ returned (too_late, spent)
unfolding serve post_release release_deposit own_deposit release_body get text_eq is_hex_32
    get_deposit set_deposit_state create_deposit put_institution set dep_id to_string
second_call = refl

found_spent : get_deposit (codes "dep_1") spent ≡ some spent_deposit
unfolding get text_eq get_deposit set_deposit_state create_deposit put_institution set dep_id
    to_string
found_spent = refl

settled_stays_settled_example :
    memory_store_laws.IsValid spent × (get_deposit (codes "dep_1") spent ≡ some spent_deposit)
settled_stays_settled_example =
    settled_stays_settled memory_store memory_store_laws zod toy spent spent
      (then_call env (release (some release_1)) bank spent spent spent too_late second_call
        (done spent))
      (codes "dep_1") spent_deposit ((IsValid-iff spent).0 spent-IsValid) found_spent (inl refl)

abbrev banks_deposits : List DepositRecord
banks_deposits = own_deposit_1 ∷ []

abbrev bank_summary : Response
bank_summary = ok (summary 1 ((codes "approved", 1) ∷ []))

summary_call : get_treasury_deposits memory_store bank sample ≡ returned (bank_summary, sample)
unfolding get_treasury_deposits list_institution_deposits owned_by sort_newest insert_newest values
    by_state slice_to get text_eq set_deposit_state create_deposit put_institution set dep_id
    to_string
summary_call = refl

get_treasury_deposits_lem_example :
    (ds : List DepositRecord) × (memory_store.list_institution_deposits bank.id none sample
      ≡ returned ds)
    × IsSummaryOf ds bank_summary
    × (sample ≡ sample)
get_treasury_deposits_lem_example =
    get_treasury_deposits_lem memory_store bank sample sample bank_summary summary_call
