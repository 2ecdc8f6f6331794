-- ===== src/Playground/Actions.antt =====
-- The state of `Playground`, and the actions behind its buttons. An action first runs up to its
-- `await` (`begin`), and goes on when the answer is there (`finish_…`); between the two, other
-- answers may arrive.
use g_pay.Base.{
  ℕ, Bool, true, false, ◌&&◌, Option, none, some, List, [], ◌∷◌, ◌++◌, ◌+◌, Text, codes, leb, take,
  if◌then◌else◌,
}
use g_pay.Hex.{Bytes, hex_to_bytes}
use g_pay.Http.Reply.{ReceivingAddressReply, PaymentStatusReply}
use g_pay.Playground.Texts.{demo_amount_lamports, Wallet}
use g_pay.Playground.Log.{Actor, institution, info, error, Event, LogEvent, event}

-- The states of the component. The balance is in lamports, and `busy` names the action in progress.
pub record Page : Type 0 where
  pub address : Option ReceivingAddressReply
  pub status : Option PaymentStatusReply
  pub busy : Option Text
  pub wallet_balance : Option ℕ
  pub log : List LogEvent
  pub log_id : ℕ

abbrev pub initial : Page
initial = record {
  address = none;
  status = none;
  busy = none;
  wallet_balance = none;
  log = [];
  log_id = 0;
}

unfoldable pub emit : ℕ → Event → Page → Page
emit now e p = record p {
  log = take 60 (record { ts = now; event = e } ∷ p.log);
  log_id = p.log_id + 1;
}

pub data Verdict : Type 0 where
  clean dirty : Verdict

abbrev pub verdict_name : Verdict → Text
verdict_name clean = codes "clean"
verdict_name dirty = codes "dirty"

pub data Action : Type 0 where
  issue pay release refund : Action
  attest : Verdict → Action

-- What an action sets `busy` to.
unfoldable pub busy_name : Action → Text
busy_name issue = codes "issue"
busy_name pay = codes "pay"
busy_name release = codes "release"
busy_name refund = codes "refund"
busy_name (attest v) = codes "attest-" ++ verdict_name v

-- What comes back from `fetch`: an exception, as text, of the call or of reading its answer, or an
-- answer. `error` and `body` are what
-- the code reads of the answer's JSON.
pub record FetchAnswer (A : Type 0) : Type 0 where
  pub status : ℕ
  pub status_text : Text
  pub error : Option Text
  pub body : A

pub data Fetched (A : Type 0) : Type 0 where
  failed : Text → Fetched A
  answered : FetchAnswer A → Fetched A

-- `res.ok`
abbrev pub is_ok : ℕ → Bool
is_ok status = leb 200 status && leb status 299

-- `String(new Error(message))`
unfoldable pub error_text : Option Text → Text
error_text none = codes "Error"
error_text (some []) = codes "Error"
error_text (some (c ∷ m)) = codes "Error: " ++ c ∷ m

-- `setBusy(name)` and `setBusy(null)`
abbrev pub set_busy : Option Text → Page → Page
set_busy b p = record p { busy = b }

abbrev pub with_detail : Text → Event → Event
with_detail d e = record e { detail = some d }

abbrev pub by : Actor → Event → Event
by a e = record e { actor = some a }

-- The `catch` and the `finally` of an action.
unfoldable pub fail_with : ℕ → Text → Text → Page → Page
fail_with now label detail p = set_busy none (emit now (with_detail detail (event error label)) p)

-- `if (busy …) return` and `if (… || !address) return`, before what the action does.
unfoldable pub when_idle : {A : Type 0} → Option Text → Option A → Option A
when_idle none next = next
when_idle (some b) next = none

unfoldable pub when_present : {A B : Type 0} → Option A → Option B → Option B
when_present none next = none
when_present (some a) next = next

-- `!!x`, of an object.
abbrev pub present : {A : Type 0} → Option A → Bool
present none = false
present (some a) = true

-- `setBusy(name)` at the start of an action.
abbrev pub busy_with : Action → Page → Page
busy_with a p = set_busy (some (busy_name a)) p

-- The start of an action; none where it returns at once.
unfoldable pub begin : ℕ → Option Wallet → Action → Page → Option Page
begin now wallet issue p = when_idle p.busy (
    some (
      emit now (by institution (event info (codes "Calling /v1/receiving-address …")))
        (busy_with issue p)))
begin now wallet pay p =
    when_idle p.busy (when_present p.address (when_present wallet (some (busy_with pay p))))
begin now wallet release p = when_idle p.busy (when_present p.address (some (busy_with release p)))
begin now wallet refund p = when_idle p.busy (when_present p.address (some (busy_with refund p)))
begin now wallet (attest v) p =
    when_idle p.busy (when_present p.address (some (busy_with (attest v) p)))

-- A poll of the status: dropped when it failed, when it was refused, and when the address has changed
-- since (`live`).
unfoldable pub poll_status : (live : Bool) → Fetched PaymentStatusReply → Page → Page
poll_status live (failed e) p = p
poll_status live (answered r) p =
    if is_ok r.status && live then record p { status = some r.body } else p

-- The wallet's balance: forgotten without a wallet, and else what the last query that still counts
-- returned.
unfoldable pub poll_balance : (live : Bool) → Option Wallet → Option ℕ → Page → Page
poll_balance live none lamports p = record p { wallet_balance = none }
poll_balance live (some w) none p = p
poll_balance live (some w) (some lamports) p =
    if live then record p { wallet_balance = some lamports } else p

-- What the deposit instruction is built from.
pub record DepositArgs : Type 0 where
  pub stealth_pubkey : Bytes
  pub ephemeral_r : Bytes
  pub view_tag : ℕ
  pub amount : ℕ
  pub refund_addr : Wallet
  pub release_authority : Text
  pub expire_seconds : ℕ

unfoldable pub deposit_instruction : ReceivingAddressReply → Wallet → DepositArgs
deposit_instruction address wallet = record {
  stealth_pubkey = hex_to_bytes address.stealth_pubkey_hex;
  ephemeral_r = hex_to_bytes address.ephemeral_r_hex;
  view_tag = address.view_tag;
  amount = demo_amount_lamports;
  refund_addr = wallet;
  release_authority = codes "E5sMsfpm77mEgW1gb1vo4C5ZbsDBhwv8VT3RLp28ZvW6";
  expire_seconds = 3599;
}
