-- ===== src/Http.antt =====
-- What the handlers exchange with the HTTP framework: requests, replies, and what `hono` and `zod`
-- contribute, as parameters.
pub mod Zod
pub mod Reply
pub mod Hono
use g_pay.Base.{ℕ, Bool, Option, none, some, List, Text, Outcome, threw, returned, bad_json}
use g_pay.Hex.{Bytes}
use g_pay.Store.Interface.{Draw}
use g_pay.Store.JsMap.{JsMap}
use g_pay.Store.Types.{Num}

-- The value of a property of a JSON body. No schema of the gateway looks into an array or an object
-- there. A number is a natural, the negative of one (`negative n` is -(n + 1)), or has a fraction.
pub data Value : Type 0 where
  null compound fraction : Value
  boolean : Bool → Value
  natural negative : ℕ → Value
  text : Text → Value

pub data Body : Type 0 where
  object : JsMap Value → Body
  not_object : Body

-- `body` is none where `await c.req.json()` throws. `limit` is `Number(c.req.query("limit"))`, if
-- the query has it.
pub record Request : Type 0 where
  pub method : Text
  pub path : Text
  pub api_key : Option Text
  pub internal_secret : Option Text
  pub body : Option Body
  pub limit : Option Num

-- What a request reads of the outside world: the handler's first `Date.now()`, its second, what the
-- store draws, and the random seed of a stealth address.
pub record Env : Type 0 where
  pub now : ℕ
  pub later : ℕ
  pub draw : Draw
  pub seed : Bytes

-- `await c.req.json()`
abbrev pub json : Option Body → Outcome Body
json none = threw bad_json
json (some b) = returned b
