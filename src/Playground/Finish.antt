-- ===== src/Playground/Finish.antt =====
-- How the actions of the playground go on when what they wait for is there.
use g_pay.Base.{ℕ, Option, none, some, List, [], ◌∷◌, ◌++◌, ◌+◌, Text, codes, if◌then◌else◌}
use g_pay.Radix.{to_string}
use g_pay.Http.Reply.{ReceivingAddressReply}
use g_pay.Playground.Texts.{short_addr, short_hex}
use g_pay.Playground.Log.{you, institution, indexer, oracles, info, success, Event, event}
use g_pay.Playground.Actions.{
  Page, emit, Verdict, verdict_name, clean, dirty, FetchAnswer, Fetched, failed, answered, is_ok,
  error_text, set_busy, with_detail, by, fail_with,
}

abbrev pub post : Text → ℕ → Event → Event
post path status e = record e {
  endpoint = some (record { method = codes "POST"; path = path; status = some status });
}

-- The JSON object of a success: with the stealth key as a text, or without, and then `shortHex` ends
-- in an exception after `setAddress`. The key of `keyless` stands for no text.
pub data Issued : Type 0 where
  whole : ReceivingAddressReply → Issued
  keyless : ReceivingAddressReply → (error : Text) → Issued

-- What `setAddress` stores.
abbrev pub address_of : Issued → ReceivingAddressReply
address_of (whole a) = a
address_of (keyless a e) = a

-- From `setAddress` on.
unfoldable pub got_address : ℕ → ℕ → Issued → Page → Page
got_address now status (whole a) p = set_busy none (
    emit now
      (post (codes "/v1/receiving-address") status (
        with_detail
          (codes "deposit_id "
            ++ a.deposit_id
            ++ codes " · stealth "
            ++ short_hex a.stealth_pubkey_hex)
          (by institution (event success (codes "Receiving address issued")))))
      (record p { address = some a }))
got_address now status (keyless a e) p =
    fail_with now (codes "Issue address failed") e (record p { address = some a })

unfoldable pub finish_issue : ℕ → Fetched Issued → Page → Page
finish_issue now (failed e) p = fail_with now (codes "Issue address failed") e p
finish_issue now (answered r) p =
    if is_ok r.status
    then got_address now r.status r.body p
    else fail_with now (codes "Issue address failed") (error_text r.error) p

-- How far `runSignAndPay` gets: the exception of computing the accounts; of building the
-- transaction; of the wallet; of the confirmation; or none.
pub data Payment : Type 0 where
  no_accounts : (error : Text) → Payment
  not_built not_sent : (pda error : Text) → Payment
  not_confirmed : (pda signature error : Text) → Payment
  confirmed : (pda signature : Text) → Payment

abbrev pub building : ℕ → Text → Page → Page
building now pda p =
    emit now
      (with_detail (codes "deposit PDA " ++ short_addr 6 pda)
        (by you (event info (codes "Building deposit instruction …"))))
      p

abbrev pub signing : ℕ → Text → Page → Page
signing now pda p =
    emit now
      (with_detail (codes "0.01 SOL (10,000,000 lamports)")
        (by you (event info (codes "Wallet popup — sign deposit transaction"))))
      (building now pda p)

abbrev pub submitted : ℕ → Text → Text → Page → Page
submitted now pda sig p =
    emit now
      (record (by you (event success (codes "Customer deposit submitted"))) {
        signature = some sig;
      })
      (signing now pda p)

unfoldable pub finish_pay : ℕ → Payment → Page → Page
finish_pay now (no_accounts e) p = fail_with now (codes "Deposit failed") e p
finish_pay now (not_built pda e) p = fail_with now (codes "Deposit failed") e (building now pda p)
finish_pay now (not_sent pda e) p = fail_with now (codes "Deposit failed") e (signing now pda p)
finish_pay now (not_confirmed pda sig e) p =
    fail_with now (codes "Deposit failed") e (submitted now pda sig p)
finish_pay now (confirmed pda sig) p = set_busy none (
    emit now
      (by indexer (event info (codes "Indexer is scanning. Status will move to on-chain in ~5s.")))
      (submitted now pda sig p))

-- `body.error ?? res.statusText`
abbrev pub message : {A : Type 0} → FetchAnswer A → Text
message r = elim r.error [ none ↦ r.status_text | some e ↦ e ]

-- `sigs.forEach((sig, i) => emit(…))`, from oracle `i` on.
unfoldable pub emit_signatures : ℕ → Verdict → ℕ → List Text → Page → Page
emit_signatures now v i [] p = p
emit_signatures now v i (sig ∷ sigs) p = emit_signatures now v (i + 1) sigs (
    emit now
      (record (by oracles (
        event success
          (codes "Oracle " ++ to_string 10 (i + 1) ++ codes " attested " ++ verdict_name v))) {
            signature = some sig;
          })
      p)

abbrev pub outcome_of : Verdict → Text
outcome_of clean = codes "Approved"
outcome_of dirty = codes "Rejected"

-- The body's `signatures`.
unfoldable pub finish_attest : ℕ → Verdict → Fetched (Option (List Text)) → Page → Page
finish_attest now v (failed e) p = fail_with now (codes "Attest failed") e p
finish_attest now v (answered r) p =
    if is_ok r.status
    then set_busy none (
        emit now
          (post (codes "/v1/demo/attest") r.status (
            by oracles (
              event info (
                codes "Threshold reached → state will move to "
                ++ outcome_of v
                ++ codes " on next indexer pass."))))
          (emit_signatures now v 0 (elim r.body [ none ↦ [] | some sigs ↦ sigs ]) p))
    else fail_with now (codes "Attest failed") (error_text (some (message r))) p

-- The body's `target` or `refund_target`, and `signature`.
pub record Paid : Type 0 where
  pub target : Option Text
  pub signature : Option Text

abbrev pub paid_event : Text → Text → ℕ → Paid → Event
paid_event label path status paid =
    post path status
      (record (with_detail
        (codes "target " ++ short_addr 6 (elim paid.target [ none ↦ [] | some t ↦ t ]))
        (by institution (event success label))) { signature = paid.signature })

unfoldable pub finish_release : ℕ → Fetched Paid → Page → Page
finish_release now (failed e) p = fail_with now (codes "Release failed") e p
finish_release now (answered r) p =
    if is_ok r.status
    then set_busy none (
        emit now
          (paid_event (codes "Released to fresh treasury slice") (codes "/v1/demo/release") r.status
            r.body)
          p)
    else fail_with now (codes "Release failed") (error_text (some (message r))) p

unfoldable pub finish_refund : ℕ → Fetched Paid → Page → Page
finish_refund now (failed e) p = fail_with now (codes "Refund failed") e p
finish_refund now (answered r) p =
    if is_ok r.status
    then set_busy none (
        emit now
          (paid_event (codes "Refunded to depositor") (codes "/v1/demo/refund") r.status r.body) p)
    else fail_with now (codes "Refund failed") (error_text (some (message r))) p
