-- ===== src/Playground/View/Steps.antt =====
-- The five steps, from the state of the playground.
use g_pay.Base.{
  ℕ, ◌-◌, Bool, true, false, ◌||◌, not, Option, none, some, [], ◌∷◌, ◌++◌, Text, codes, text_eq,
  length, replicate, if◌then◌else◌,
}
use g_pay.Radix.{to_string}
use g_pay.Http.Reply.{ReceivingAddressReply, PaymentStatusReply}
use g_pay.Playground.{on_chain_seen, can_pay}
use g_pay.Playground.Texts.{address_link, short_addr, request_body_for, Wallet}
use g_pay.Playground.Log.{you, institution, indexer}
use g_pay.Playground.Actions.{Page, Action, issue, pay, busy_name, present}
use g_pay.Playground.View.Parts.{if_text, state_chip}
use g_pay.Playground.View.Rendering.{
  StepStatus, ready, done, blocked, Button, Shown, address_json, status_json, body_json, plain,
  Children, no_children, kv_list, detection, StepProps,
}
use g_pay.Playground.View.Prose.{
  issue_tooltip, pay_tooltip, detection_tooltip, issued_summary, paid_summary, detected_summary,
}

-- `busy === name`
abbrev pub is_busy : Option Text → Text → Bool
is_busy none name = false
is_busy (some b) name = text_eq b name

-- A button that an action in progress disables.
abbrev pub button : Option Text → Text → (can : Bool) → Action → (danger : Bool) → Button
button busy label can a danger = record {
  label = label;
  disabled = not can || present busy;
  busy = is_busy busy (busy_name a);
  on_click = a;
  danger = danger;
}

-- `0x${n.toString(16).padStart(2, "0")}`
unfoldable pub hex_byte_text : ℕ → Text
hex_byte_text n = codes "0x" ++ replicate (2 - length (to_string 16 n)) b'0' ++ to_string 16 n

unfoldable pub issued_rows : Option ReceivingAddressReply → Children
issued_rows none = no_children
issued_rows (some address) = kv_list (
    (codes "deposit_id", address.deposit_id)
    ∷ (codes "stealth_pubkey_hex", address.stealth_pubkey_hex)
    ∷ (codes "ephemeral_r_hex", address.ephemeral_r_hex)
    ∷ (codes "view_tag", hex_byte_text address.view_tag)
    ∷ [])

unfoldable pub issue_step : Option Wallet → Page → StepProps
issue_step wallet p =
    let have_address = present p.address in
    record {
      n = 1;
      title = codes "Issue a receiving address";
      tooltip = issue_tooltip;
      status = if have_address then done else ready;
      actor = institution;
      summary = some issued_summary;
      action = some (
          button p.busy (if have_address then codes "Re-issue address" else codes "Issue address")
            true issue false);
      secondary_action = none;
      blocked_reason = none;
      api = record {
        method = codes "POST";
        path = codes "/v1/receiving-address";
        request = some (
            body_json (request_body_for (elim wallet [ none ↦ none | some w ↦ some w.to_base58 ])));
        response = elim p.address [ none ↦ none | some address ↦ some (address_json address) ];
      };
      children = issued_rows p.address;
    }

-- The second step's status and reason.
unfoldable pub pay_status : (have_address connected seen : Bool) → StepStatus
pay_status have_address connected seen =
    if not have_address
    then blocked
    else if not connected
    then blocked
    else if seen
    then done
    else ready

unfoldable pub pay_reason : (have_address connected seen : Bool) → Option Text
pay_reason have_address connected seen =
    if not have_address
    then some (codes "Run step 1 first.")
    else if not connected
    then some (codes "Connect your wallet first.")
    else if seen
    then some (codes "Already submitted.")
    else none

unfoldable pub pay_request : Option ReceivingAddressReply → Option Shown
pay_request none = none
pay_request (some address) = some (
    plain (
      codes "Anchor instruction (signed locally)\n\nDepositArgs {\n  stealth_pubkey:    "
      ++ address.stealth_pubkey_hex
      ++ codes ",\n  ephemeral_r:       "
      ++ address.ephemeral_r_hex
      ++ codes ",\n  view_tag:          "
      ++ to_string 10 address.view_tag
      ++ codes ",\n  amount:            "
      ++ to_string 10 10000000
      ++ codes
          ",\n  refund_addr:       <your wallet>,\n  release_authority: <your wallet>,\n  expire_seconds:    3599\n}"))

-- `${x}` of a text or null.
abbrev pub or_null : Option Text → Text
or_null none = codes "null"
or_null (some s) = s

unfoldable pub pay_response : Option PaymentStatusReply → Option Shown
pay_response none = none
pay_response (some status) = elim (if_text status.on_chain_address) [
  | none ↦ none
  | some address ↦ some (
      plain (
        codes "Deposit PDA: "
        ++ address
        ++ codes "\non_chain_amount: "
        ++ or_null status.on_chain_amount
        ++ codes "\non_chain_state: "
        ++ or_null status.on_chain_state))
]

unfoldable pub pay_step : (connected : Bool) → Page → StepProps
pay_step connected p =
    let have_address = present p.address in
    let seen = on_chain_seen p.status in
    record {
      n = 2;
      title = codes "Customer signs and submits the deposit";
      tooltip = pay_tooltip;
      status = pay_status have_address connected seen;
      actor = you;
      summary = some paid_summary;
      action = some (
          button p.busy (codes "Send 0.01 SOL") (can_pay connected have_address p.status) pay
            false);
      secondary_action = none;
      blocked_reason = pay_reason have_address connected seen;
      api = record {
        method = codes "On-chain ix";
        path = codes "quarantine_vault::deposit";
        request = pay_request p.address;
        response = pay_response p.status;
      };
      children = no_children;
    }

unfoldable pub detected : Option PaymentStatusReply → Children
detected none = no_children
detected (some status) =
    detection
      (elim (if_text status.on_chain_address) [
        | none ↦ none
        | some address ↦
            some
              (record { href = address_link address; label = short_addr 6 address ++ codes " ↗" })
      ])
      (state_chip status.state)

unfoldable pub detection_step : Page → StepProps
detection_step p = record {
  n = 3;
  title = codes "Indexer detection (automatic)";
  tooltip = detection_tooltip;
  status = if on_chain_seen p.status then done else if present p.address then ready else blocked;
  actor = indexer;
  summary = some detected_summary;
  action = none;
  secondary_action = none;
  blocked_reason = none;
  api = record {
    method = codes "GET";
    path =
        codes "/v1/payment-status/"
        ++ (elim p.address [ none ↦ codes "<id>" | some address ↦ address.deposit_id ]);
    request = none;
    response = elim p.status [ none ↦ none | some status ↦ some (status_json status) ];
  };
  children = detected p.status;
}
