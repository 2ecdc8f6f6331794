-- ===== src/Playground/View/Rendering.antt =====
-- The component `Step`: its properties, and what it renders.
use g_pay.Base.{ℕ, Bool, not, Option, none, some, List, [], ◌∷◌, Text, codes, if◌then◌else◌}
use g_pay.Http.{Body}
use g_pay.Client.{CreateAddressBody}
use g_pay.Http.Reply.{ReceivingAddressReply, PaymentStatusReply}
use g_pay.Playground.Log.{Actor}
use g_pay.Playground.Actions.{Action}
use g_pay.Playground.View.Parts.{if_text, Link, Chip, actor_chip}

-- The properties of a `Step`.
pub data StepStatus : Type 0 where
  ready done blocked : StepStatus

-- A button with what `onAction` or `onClick` calls.
pub record Button : Type 0 where
  pub label : Text
  pub disabled : Bool
  pub busy : Bool
  pub on_click : Action
  pub danger : Bool

-- The text of a request or an answer: one that `JSON.stringify(…, null, 2)` makes is left as the
-- object, and another is as it stands.
pub data Shown : Type 0 where
  address_json : ReceivingAddressReply → Shown
  status_json : PaymentStatusReply → Shown
  body_json : CreateAddressBody → Shown
  object_json : Body → Shown
  plain : Text → Shown

pub record Api : Type 0 where
  pub method : Text
  pub path : Text
  pub request : Option Shown
  pub response : Option Shown

-- What a step has between its tags: the rows of a `KvList`, or the two lines of the third step.
pub data Children : Type 0 where
  no_children : Children
  kv_list : List (Text × Text) → Children
  detection : Option Link → Chip → Children

pub record StepProps : Type 0 where
  pub n : ℕ
  pub title : Text
  pub tooltip : Text
  pub status : StepStatus
  pub actor : Actor
  pub summary : Option Text
  pub action : Option Button
  pub secondary_action : Option Button
  pub blocked_reason : Option Text
  pub api : Api
  pub children : Children

-- A button as it is rendered.
pub record ShownButton : Type 0 where
  pub text : Text
  pub enabled : Bool
  pub calls : Action
  pub danger : Bool

-- What a `Step` renders.
pub record Section : Type 0 where
  pub dot : Text
  pub n : ℕ
  pub title : Text
  pub actor : Chip
  pub tooltip : Text
  pub blocked_reason : Option Text
  pub what_just_happened : Option Text
  pub children : Children
  pub buttons : List ShownButton
  pub toggle : Text
  pub details : Option Api

unfoldable pub dot_of : StepStatus → Text
dot_of done = codes "bg-[var(--success)]"
dot_of ready = codes "bg-[var(--accent)]"
dot_of blocked = codes "bg-[var(--muted)]"

-- `status === "done" && summary`
unfoldable pub summary_if_done : StepStatus → Option Text → Option Text
summary_if_done done summary = summary
summary_if_done _ summary = none

unfoldable pub shown_button : Button → ShownButton
shown_button b = record {
  text = if b.busy then codes "Submitting…" else b.label;
  enabled = not b.disabled;
  calls = b.on_click;
  danger = b.danger;
}

-- The two buttons, of those that the step has. None of the steps has an empty label.
unfoldable pub shown_buttons : Option Button → Option Button → List ShownButton
shown_buttons none none = []
shown_buttons (some a) none = shown_button a ∷ []
shown_buttons none (some b) = shown_button b ∷ []
shown_buttons (some a) (some b) = shown_button a ∷ shown_button b ∷ []

-- The state `open` is whether the details are shown.
unfoldable pub step : (is_open : Bool) → StepProps → Section
step is_open props = record {
  dot = dot_of props.status;
  n = props.n;
  title = props.title;
  actor = actor_chip props.actor;
  tooltip = props.tooltip;
  blocked_reason = if_text props.blocked_reason;
  what_just_happened = summary_if_done props.status props.summary;
  children = props.children;
  buttons = shown_buttons props.action props.secondary_action;
  toggle = if is_open then codes "▾ Hide technical details" else codes "▸ Show technical details";
  details = if is_open then some props.api else none;
}
