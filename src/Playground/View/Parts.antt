-- ===== src/Playground/View/Parts.antt =====
-- The components of page.tsx that the playground is put together from.
use g_pay.Base.{ℕ, Bool, Option, none, some, List, [], ◌∷◌, ◌++◌, map, Text, codes, if◌then◌else◌}
use g_pay.Radix.{to_string}
use g_pay.Store.Types.{
  DepositState, pending, approved, rejected, released, refunded, expired, state_name,
}
use g_pay.Playground.Texts.{address_link, tx_link, short_addr}
use g_pay.Playground.Log.{
  Actor, you, institution, indexer, oracles, Level, info, success, warn, error, Endpoint, LogEvent,
  RoleMeta, role_meta,
}

-- `x && …` on a text: an empty one shows nothing.
abbrev pub if_text : Option Text → Option Text
if_text none = none
if_text (some []) = none
if_text (some (c ∷ s)) = some (c ∷ s)

pub record Link : Type 0 where
  pub href : Text
  pub label : Text

pub record Chip : Type 0 where
  pub color : Text
  pub label : Text

unfoldable pub state_chip : DepositState → Chip
state_chip approved = record { color = codes "var(--accent)"; label = state_name approved }
state_chip released = record { color = codes "var(--success)"; label = state_name released }
state_chip rejected = record { color = codes "var(--danger)"; label = state_name rejected }
state_chip refunded = record { color = codes "var(--muted)"; label = state_name refunded }
state_chip expired = record { color = codes "var(--muted)"; label = state_name expired }
state_chip pending = record { color = codes "var(--warn)"; label = state_name pending }

unfoldable pub actor_chip : Actor → Chip
actor_chip actor = record { color = (role_meta actor).color; label = (role_meta actor).label }

-- `RoleLegend`: the cast, in this order.
abbrev pub cast : List Actor
cast = you ∷ institution ∷ indexer ∷ oracles ∷ []

abbrev pub role_legend : List RoleMeta
role_legend = map role_meta cast

-- `WalletStatusBanner`: the wallet's link and its balance in lamports, or the prompt to connect one.
pub data Banner : Type 0 where
  customer_wallet : Link → (balance : Option ℕ) → Banner
  connect_a_wallet : Banner

unfoldable pub wallet_status_banner : (connected : Bool) → Option Text → Option ℕ → Banner
wallet_status_banner connected none balance = connect_a_wallet
wallet_status_banner connected (some []) balance = connect_a_wallet
wallet_status_banner connected (some (c ∷ pubkey)) balance =
    if connected
    then customer_wallet
        (record {
          href = address_link (c ∷ pubkey);
          label = short_addr 6 (c ∷ pubkey) ++ codes " ↗";
        })
        balance
    else connect_a_wallet

-- A row of the log. The time is printed in the browser's locale.
pub record LogRow : Type 0 where
  pub dot : Text
  pub label : Text
  pub ts : ℕ
  pub endpoint : Option Text
  pub detail : Option Text
  pub signature : Option Link

unfoldable pub dot_color : Option Actor → Level → Text
dot_color (some actor) level = (role_meta actor).color
dot_color none error = codes "var(--danger)"
dot_color none warn = codes "var(--warn)"
dot_color none success = codes "var(--success)"
dot_color none info = codes "var(--accent)"

unfoldable pub endpoint_text : Endpoint → Text
endpoint_text e =
    e.method
    ++ codes " "
    ++ e.path
    ++ (elim e.status [ none ↦ [] | some status ↦ codes " → " ++ to_string 10 status ])

unfoldable pub signature_link : Option Text → Option Link
signature_link none = none
signature_link (some []) = none
signature_link (some (c ∷ s)) =
    some
      (record { href = tx_link (c ∷ s); label = codes "tx " ++ short_addr 6 (c ∷ s) ++ codes " ↗" })

unfoldable pub log_row : LogEvent → LogRow
log_row e = record {
  dot = dot_color e.event.actor e.event.level;
  label = e.event.label;
  ts = e.ts;
  endpoint = elim e.event.endpoint [ none ↦ none | some at ↦ some (endpoint_text at) ];
  detail = if_text e.event.detail;
  signature = signature_link e.event.signature;
}
