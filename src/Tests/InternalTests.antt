-- ===== src/Tests/InternalTests.antt =====
-- The indexer's reports, at the sample store.
use g_pay.Base.{
  ◌≡◌, ◌⊎◌, inl, inr, refl, sym, ◌∙◌, none, some, [], ◌∷◌, Text, codes, text_eq, arith, replicate,
  if◌then◌else◌, returned, Bool-cases, some-injective,
}
use g_pay.Hex.{hex_to_bytes, is_hex_32}
use g_pay.Store.Types.{DepositRecord}
use g_pay.Store.JsMap.{get}
use g_pay.Store.Memory.{MemoryStore, memory_store, get_deposit}
use g_pay.Http.{Body, object, text, natural}
use g_pay.Http.Zod.{listed}
use g_pay.Http.Reply.{invalid_body, ok, observation}
use g_pay.Routes.Schemas.{InternalMatchBody, internal_match_body}
use g_pay.Routes.Internal.{post_deposit_detected}
use g_pay.Routes.Internal.Laws.{
  reported, Writes, IsRecorded, post_deposit_detected_cases, post_deposit_detected_granted,
}
use g_pay.Routes.Public.Settle.{Refused}
use g_pay.Tests.Samples.{env, first, first-IsValid, first_deposit, found_first}
use g_pay.Tests.ZodModel.{zod}

-- The bank's deposit is reported with its key in hexadecimal.
abbrev key_3 : Text
key_3 = codes "0303030303030303030303030303030303030303030303030303030303030303"

abbrev pub report : Body
report = object (
    (codes "slice_id", natural 7)
    ∷ (codes "deposit_pubkey", text (codes "acc"))
    ∷ (codes "stealth_pubkey", text key_3)
    ∷ (codes "amount", natural 50)
    ∷ (codes "state", text (codes "approved"))
    ∷ [])

abbrev report_body : InternalMatchBody
report_body = record {
  deposit_pubkey = codes "acc";
  stealth_pubkey = key_3;
  amount = 50;
  state = codes "approved";
}

report_accepted : internal_match_body zod report ≡ some report_body
unfolding internal_match_body get text_eq listed
report_accepted = refl

only_first : (e : DepositRecord) → get_deposit e.id first ≡ some e → e ≡ first_deposit
only_first e f = elim (Bool-cases (text_eq (codes "dep_1") e.id)) [
  | inl is ↦ sym (some-injective (sym (rw is at (found_first e.id)) ∙ f))
  | inr other ↦
      let missing : get_deposit e.id first ≡ none = rw other at (found_first e.id) in absurd cc
]

found_it : get_deposit (codes "dep_1") first ≡ some first_deposit
unfolding text_eq
found_it = found_first (codes "dep_1")

Writes-key : Writes key_3 (replicate 32 3)
unfolding is_hex_32 hex_to_bytes
Writes-key = inr (refl, refl)

-- The observation approves it.
post_deposit_detected_granted_example :
    (s' : MemoryStore) × (post_deposit_detected memory_store zod env (some report) first
      ≡ returned (
        ok (
            observation
              (codes "dep_1")
              (codes "bank")
              (reported env report_body first_deposit).state),
        s',
      ))
    × ((j : Text)
        → get_deposit j s' ≡ (
            if text_eq (codes "dep_1") j
            then some (reported env report_body first_deposit)
            else get_deposit j first))
post_deposit_detected_granted_example =
    post_deposit_detected_granted zod env report report_body first first_deposit first-IsValid
      report_accepted found_it (omega arith) refl Writes-key (λ e f _. only_first e f)

bad_report :
    post_deposit_detected memory_store zod env (some (object [])) first
    ≡ returned (invalid_body, first)
unfolding post_deposit_detected internal_match_body get
bad_report = refl

post_deposit_detected_cases_example :
    Refused memory_store first invalid_body first
    ⊎ ((b : Body) × (r : InternalMatchBody) × (some (object []) ≡ some b)
        × (internal_match_body zod b ≡ some r)
        × IsRecorded env r first invalid_body first)
post_deposit_detected_cases_example =
    post_deposit_detected_cases zod env (some (object [])) first first invalid_body first-IsValid
      bad_report
