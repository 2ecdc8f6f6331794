-- ===== src/Playground/Log.antt =====
-- The event log, and the roles that its events are put to.
use g_pay.Base.{ℕ, Option, none, [], Text, codes}

pub data Actor : Type 0 where
  you institution indexer oracles system : Actor

pub data Level : Type 0 where
  info success warn error : Level

pub record Endpoint : Type 0 where
  pub method : Text
  pub path : Text
  pub status : Option ℕ

-- `Omit<LogEvent, "ts">`, and the event with its time.
pub record Event : Type 0 where
  pub level : Level
  pub label : Text
  pub detail : Option Text
  pub endpoint : Option Endpoint
  pub signature : Option Text
  pub actor : Option Actor

pub record LogEvent : Type 0 where
  pub ts : ℕ
  pub event : Event

-- An event of a level with a label; the rest is set by `record`.
abbrev pub event : Level → Text → Event
event level label = record {
  level = level;
  label = label;
  detail = none;
  endpoint = none;
  signature = none;
  actor = none;
}

-- `{ emoji, label, tone, color }`; the emoji is one or two code units, and is left out.
pub record RoleMeta : Type 0 where
  pub label : Text
  pub tone : Text
  pub color : Text

unfoldable pub role_meta : Actor → RoleMeta
role_meta you = record {
  label = codes "You (customer)";
  tone = codes "your wallet plays the customer";
  color = codes "var(--accent)";
}
role_meta institution = record {
  label = codes "Institution";
  tone = codes "the on-server demo wallet plays the bank";
  color = codes "var(--success)";
}
role_meta indexer = record {
  label = codes "g-pay indexer";
  tone = codes "automatic — no human in the loop";
  color = codes "var(--muted)";
}
role_meta oracles = record {
  label = codes "AML oracles";
  tone = codes "Chainalysis/TRM-style risk scorers (V2 — keypairs in V1)";
  color = codes "var(--warn)";
}
role_meta system = record { label = codes "System"; tone = []; color = codes "var(--muted)" }
