-- ===== src/Tests/PageTests.antt =====
-- A customer with a connected wallet asks for an address, gets one, and pays.
use g_pay.Base.{◌≡◌, refl, arith, true, false, none, some, [], ◌∷◌, codes, replicate}
use g_pay.Hex.{hex_to_bytes}
use g_pay.Radix.{big_int}
use g_pay.Http.Reply.{ReceivingAddressReply}
use g_pay.Playground.Texts.{Wallet, issue_body}
use g_pay.Playground.Actions.{Page, initial, issue, clean, begin, when_idle, answered, present}
use g_pay.Playground.Finish.{not_sent}
use g_pay.Tests.Samples.{replicate-IsByte}
use g_pay.Client.{Sent}
use g_pay.Routes.Schemas.{receiving_address_body}
use g_pay.Playground.Sent.{issue_object, attest_sent}
use g_pay.Playground.Finish.{whole}
use g_pay.Playground.Deposit.{accepted_as, issue_body-accepted}
use g_pay.Tests.ZodModel.{zod, zod_laws}
use g_pay.Playground.Runs.{
  Session, clicked, replied, Reachable, first, next, Result, issue_result, pay_result, finish,
}
use g_pay.Playground.Exclusive.{Invariant, one_action_at_a_time}
use g_pay.Playground.Failures.{Ends, finish_cases}
use g_pay.Playground.View.{Connection, playground}
use g_pay.Playground.View.Buttons.{EachButton, enabled_starts}
use g_pay.Playground.View.Busy.{Reports, busy_reported}

abbrev pub wallet : Wallet
wallet = record { to_bytes = replicate 32 7; to_base58 = codes "Wa11et" }

abbrev reply : ReceivingAddressReply
reply = record {
  deposit_id = codes "dep_1";
  stealth_pubkey_hex = replicate 64 b'0';
  ephemeral_r_hex = replicate 64 b'1';
  view_tag = 7;
  expires_at = 9000;
}

abbrev got : Result
got =
    issue_result (
      answered
        (record { status = 200; status_text = codes "OK"; error = none; body = whole reply }))

asking : (q : Page) × (begin 1 (some wallet) issue initial ≡ some q)
unfolding begin when_idle
asking = (_, refl)

abbrev here : Session
here = record { page = finish 2 got asking.0; in_flight = [] }

here-Reachable : Reachable here
unfolding asking
here-Reachable =
    next _ _ (next _ _ first (clicked 1 (some wallet) issue initial asking.0 [] asking.1))
      (replied 2 got asking.0 (issue ∷ []) [] [] refl)

one_action_at_a_time_example : Invariant [] here.page
one_action_at_a_time_example = one_action_at_a_time here here-Reachable

abbrev connection : Connection
connection = record { connected = true; public_key = some wallet }

enabled_starts_example :
    EachButton
      (λ b. b.enabled ≡ true → present (begin 3 (some wallet) b.calls here.page) ≡ true)
      (playground (λ n. false) 3 connection here.page).sections
enabled_starts_example = enabled_starts here (λ n. false) 3 connection here-Reachable (λ e. refl)

busy_reported_example :
    EachButton (Reports asking.0.busy) (playground (λ n. true) 3 connection asking.0).sections
busy_reported_example = busy_reported (λ n. true) 3 connection asking.0

abbrev refusal : Result
refusal = pay_result (not_sent (codes "pda") (codes "User rejected"))

finish_cases_example : Ends true here.page.address here.page (finish 4 refusal here.page)
finish_cases_example = finish_cases 4 refusal here.page

issue_body-accepted_example :
    let b = issue_body (some wallet) in
    (receiving_address_body zod (issue_object b) ≡ some (accepted_as b))
    × (hex_to_bytes b.refund_addr_hex ≡ wallet.to_bytes)
    × (big_int 0 b.amount_hint ≡ 10_000_000)
issue_body-accepted_example =
    issue_body-accepted zod zod_laws wallet (replicate-IsByte 32 7 (omega arith)) refl (omega arith)

attested : Sent
attested = attest_sent (codes "k1") (codes "dep_1") clean
