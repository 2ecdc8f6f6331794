-- ===== src/Tests/PlaygroundTests.antt =====
-- What the playground offers for a pending deposit that expired at 9000.
use g_pay.Base.{◌≡◌, ◌↔◌, true, false, ◌&&◌, some, codes}
use g_pay.Store.Types.{approved, DepositState, with_state}
use g_pay.Http.Reply.{error_in_state}
use g_pay.Demo.Steps.{release_step, refund_step}
use g_pay.Tests.AppTests.{tools}
use g_pay.Routes.Public.{payment_status_reply, refundable}
use g_pay.Playground.{can_pay, can_attest, can_release, can_refund}
use g_pay.Playground.Agreement.{can_refund-payment_status_reply}
use g_pay.Tests.Samples.{foreign_deposit_2}

can_refund-payment_status_reply_example :
    let status = some (payment_status_reply foreign_deposit_2) in
    (can_refund 9500 status ≡ refundable 9500 foreign_deposit_2)
    × ((can_release status ≡ true) ↔ (foreign_deposit_2.state ≡ approved))
    × ((can_release status && can_refund 9500 status) ≡ false)
    × ((can_pay true true status && can_attest status) ≡ false)
    × (can_release status ≡ false
        → release_step tools foreign_deposit_2 ≡ record {
          status = 409;
          reply = error_in_state (codes "not_approved") foreign_deposit_2.state;
        })
    × ((st : DepositState)
        → refund_step tools (with_state st foreign_deposit_2) ≡ refund_step tools foreign_deposit_2)
can_refund-payment_status_reply_example =
    can_refund-payment_status_reply 9500 true true tools foreign_deposit_2
