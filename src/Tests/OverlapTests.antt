-- ===== src/Tests/OverlapTests.antt =====
-- Overlapping requests on the sample database.
use g_pay.Base.{◌≡◌, ◌≢◌, refl, ap, some, [], ◌∷◌, codes, text_eq, replicate, returned}
use g_pay.Hex.{bytes_to_hex}
use g_pay.Radix.{big_int, to_string}
use g_pay.Store.Types.{refunded, released, with_state, pending}
use g_pay.Store.Postgres.{postgres_store, new_row, set_deposit_state, get_deposit, row_to_deposit}
use g_pay.Store.Postgres.Sql.{Tables, rows_where}
use g_pay.Store.Postgres.Laws.{postgres_store_laws, HasDistinctIds, valid_tables}
use g_pay.Http.Reply.{Response, ok, error_in_state, refunded_to}
use g_pay.Routes.Schemas.{ReleaseBody, RefundBody}
use g_pay.Routes.Public.{own_deposit, release_deposit, refundable}
use g_pay.Routes.Public.Overlap.{
  answers, writes, release_plan, refund_plan, perform, InFlight, Overlaps, done, reads_release,
  reads_refund, writes_back,
}
use g_pay.Routes.Public.Overlap.Isolation.{overlapping_requests_foreign}
use g_pay.Routes.Public.Overlap.Twice.{too_late, granted, overlapping_releases}
use g_pay.Tests.Samples.{bank, rival, env, own_deposit_1}
use g_pay.Tests.DatabaseTests.{database}

database-HasDistinctIds : HasDistinctIds database.deposits
unfolding new_row text_eq rows_where
database-HasDistinctIds = (refl, (refl, tt))

found_1 : get_deposit (codes "dep_1") database ≡ some own_deposit_1
unfolding get_deposit row_to_deposit new_row rows_where text_eq big_int to_string
found_1 = refl

-- Two calls that release the deposit to different addresses.
abbrev to_a : ReleaseBody
to_a = record { deposit_id = codes "dep_1"; target_addr_hex = replicate 64 b'a' }

abbrev to_b : ReleaseBody
to_b = record { deposit_id = codes "dep_1"; target_addr_hex = replicate 64 b'b' }

overlapping_releases_example :
    (t : Tables) × (u : Tables) × (perform postgres_store
        (release_plan postgres_store to_a bank database)
        database
      ≡ returned (granted own_deposit_1 to_a, t))
    × (perform postgres_store (release_plan postgres_store to_b bank database) t
        ≡ returned (granted own_deposit_1 to_b, u))
    × (get_deposit (codes "dep_1") u ≡ some (with_state released own_deposit_1))
    × (release_deposit postgres_store to_b bank t ≡ returned (too_late, t))
overlapping_releases_example =
    overlapping_releases postgres_store postgres_store_laws to_a to_b bank database own_deposit_1
      (valid_tables database database-HasDistinctIds) found_1 refl refl refl

-- The rival asks for a release, which is too early, and for a refund, and the refund writes first.
abbrev release_2 : ReleaseBody
release_2 = record { deposit_id = codes "dep_2"; target_addr_hex = replicate 64 b'a' }

abbrev refund_2 : RefundBody
refund_2 = record { deposit_id = codes "dep_2" }

abbrev too_early : Response
too_early = record { status = 409; reply = error_in_state (codes "not_approved") pending }

abbrev given_back : Response
given_back = ok (refunded_to (codes "dep_2") (bytes_to_hex (replicate 32 7)))

abbrev after_refund : Tables
after_refund = (set_deposit_state (codes "dep_2") refunded database).1

release_answers : release_plan postgres_store release_2 rival database ≡ answers too_early
unfolding release_plan own_deposit get_deposit row_to_deposit new_row rows_where text_eq
release_answers = refl

refund_writes :
    refund_plan postgres_store env.now refund_2 rival database
    ≡ writes (codes "dep_2") refunded given_back
unfolding refund_plan own_deposit get_deposit row_to_deposit new_row rows_where text_eq refundable
refund_writes = refl

abbrev asked_release : InFlight
asked_release = record { inst = rival; plan = release_plan postgres_store release_2 rival database }

abbrev asked_refund : InFlight
asked_refund = record {
  inst = rival;
  plan = refund_plan postgres_store env.now refund_2 rival database;
}

differ : own_deposit_1.institution_id ≢ rival.id
differ = cc

rivals :
    Overlaps postgres_store
      (λ inst. own_deposit_1.institution_id ≢ inst.id)
      database
      []
      after_refund
      []
rivals = reads_release release_2 rival database after_refund [] [] differ (
    reads_refund env.now refund_2 rival database after_refund (asked_release ∷ []) [] differ (
      writes_back asked_refund given_back database after_refund after_refund [] (asked_release ∷ [])
        [] (ap (λ p. perform postgres_store p database) refund_writes)
        (writes_back asked_release too_early after_refund after_refund after_refund [] [] []
          (ap (λ p. perform postgres_store p after_refund) release_answers)
          (done after_refund []))))

overlapping_requests_foreign_example : get_deposit (codes "dep_1") after_refund ≡ some own_deposit_1
overlapping_requests_foreign_example =
    overlapping_requests_foreign postgres_store postgres_store_laws (codes "dep_1") own_deposit_1
      database after_refund [] (valid_tables database database-HasDistinctIds) found_1 rivals
