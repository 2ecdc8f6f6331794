-- ===== src/Routes/Public/Calls.antt =====
-- The public routes as one function: a call names the route and what it reads of the request.
use g_pay.Base.{Option, Text, Outcome}
use g_pay.Stealth.Primitives.{Curve}
use g_pay.Store.Types.{Institution, Num}
use g_pay.Store.Interface.{Store}
use g_pay.Http.{Body, Env}
use g_pay.Http.Zod.{Zod}
use g_pay.Http.Reply.{Response}
use g_pay.Routes.Public.{
  get_payment_status, get_treasury_deposits, get_treasury_list, post_release, post_refund,
  post_receiving_address,
}

pub data Call : Type 0 where
  receiving_address release refund : Option Body → Call
  payment_status : Text → Call
  treasury : Call
  treasury_list : Option Num → Call

module _ (I : Store) (z : Zod) (c : Curve) where
  unfoldable pub serve : Env → Call → Institution → I.S → Outcome (Response × I.S)
  serve env (receiving_address body) = post_receiving_address I z c env body
  serve env (release body) = post_release I z body
  serve env (refund body) = post_refund I z env body
  serve env (payment_status id) = get_payment_status I id
  serve env treasury = get_treasury_deposits I
  serve env (treasury_list limit) = get_treasury_list I limit
