-- ===== src/Playground/View.antt =====
-- What the playground shows. A component is a function from its properties to what it renders; of
-- the markup only classes, the colours' transparency and icons are left out.
pub mod Parts
pub mod Rendering
pub mod Prose
pub mod Steps
pub mod Settling
pub mod Buttons
pub mod Busy
use g_pay.Base.{
  ℕ, Bool, Option, none, some, List, [], ◌∷◌, map, Text, codes, length, ◌==◌, ◌++◌, if◌then◌else◌,
}
use g_pay.Radix.{to_string}
use g_pay.Playground.Texts.{Wallet}
use g_pay.Playground.Log.{RoleMeta, LogEvent}
use g_pay.Playground.Actions.{Page}
use g_pay.Playground.View.Parts.{LogRow, log_row, role_legend, Banner, wallet_status_banner}
use g_pay.Playground.View.Rendering.{Section, step, StepProps}
use g_pay.Playground.View.Steps.{issue_step, pay_step, detection_step}
use g_pay.Playground.View.Settling.{attestation_step, settle_step}

-- What `useWallet` gives: whether a wallet is connected, and its key.
pub record Connection : Type 0 where
  pub connected : Bool
  pub public_key : Option Wallet

unfoldable pub steps : ℕ → Connection → Page → List StepProps
steps now c p =
    issue_step c.public_key p
    ∷ pay_step c.connected p
    ∷ detection_step p
    ∷ attestation_step p
    ∷ settle_step now p
    ∷ []

-- The right rail: the title, the text that stands for an empty log, and the rows.
pub record Rail : Type 0 where
  pub count : Text
  pub placeholder : Option Text
  pub rows : List LogRow

unfoldable pub rail : List LogEvent → Rail
rail log = record {
  count = codes "last " ++ to_string 10 (length log);
  placeholder =
      if length log == 0
      then some (codes "Events will land here as you click through the steps.")
      else none;
  rows = map log_row log;
}

-- The whole of `Playground`, but for the `ProductionNote`, which is prose only. `opened` is the
-- state of each step: whether its details are shown.
pub record Screen : Type 0 where
  pub legend : List RoleMeta
  pub banner : Banner
  pub sections : List Section
  pub events : Rail

unfoldable pub playground : (opened : ℕ → Bool) → ℕ → Connection → Page → Screen
playground opened now c p = record {
  legend = role_legend;
  banner =
      wallet_status_banner c.connected
        (elim c.public_key [ none ↦ none | some w ↦ some w.to_base58 ]) p.wallet_balance;
  sections = map (λ (props : StepProps). step (opened props.n) props) (steps now c p);
  events = rail p.log;
}
