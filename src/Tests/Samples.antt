-- ===== src/Tests/Samples.antt =====
-- Two banks, and a store with a deposit of each.
use g_pay.Base.{
  ℕ, All, ◌≡◌, refl, true, none, some, ◌∷◌, Text, codes, text_eq, replicate, if◌then◌else◌,
}
use g_pay.Hex.{Bytes}
use g_pay.Hex.Digits.{IsByte}
use g_pay.Radix.{to_string}
use g_pay.Store.Types.{
  Institution, DepositRecord, DepositCreate, fresh_deposit, with_state, approved,
}
use g_pay.Store.JsMap.{get, set, values}
use g_pay.Store.Memory.{
  MemoryStore, empty, put_institution, dep_id, create_deposit, get_deposit, set_deposit_state,
  find_by_api_key, first_with_key,
}
use g_pay.Store.Memory.Invariant.{
  IsValid, put_institution-IsValid, create_deposit-IsValid, set_deposit_state-IsValid,
}
use g_pay.Http.{Env}
use g_pay.Tests.CurveModel.{encode}

abbrev pub bank : Institution
bank = record {
  id = codes "bank";
  api_key = codes "k1";
  spend_pub = encode true;
  view_pub = encode true;
  release_authority = replicate 32 0;
  webhook_url = none;
}

abbrev pub rival : Institution
rival = record {
  id = codes "rival";
  api_key = codes "k2";
  spend_pub = encode true;
  view_pub = encode true;
  release_authority = replicate 32 0;
  webhook_url = none;
}

abbrev pub order_of : Institution → Bytes → DepositCreate
order_of inst key = record {
  institution_id = inst.id;
  customer_id = codes "c";
  amount_hint = 50;
  mint = codes "SOL";
  stealth_pubkey = key;
  ephemeral_r = encode true;
  view_tag = 1;
  refund_addr = replicate 32 7;
  expires_at = 9000;
}

abbrev pub env : Env
env = record {
  now = 10000;
  later = 10001;
  draw = record { now = 10002; random = 5 };
  seed = 1 ∷ replicate 63 0;
}

-- The bank's deposit is approved, the rival's has just been made.
abbrev pub banks : MemoryStore
banks = put_institution rival (put_institution bank empty)

abbrev pub first : MemoryStore
first = (create_deposit 1000 (order_of bank (replicate 32 3)) banks).1

abbrev pub both : MemoryStore
both = (create_deposit 2000 (order_of rival (replicate 32 4)) first).1

abbrev pub sample : MemoryStore
sample = (set_deposit_state (codes "dep_1") approved both).1

abbrev pub own_deposit_1 : DepositRecord
own_deposit_1 =
    with_state approved (fresh_deposit (codes "dep_1") 1000 (order_of bank (replicate 32 3)))

abbrev pub foreign_deposit_2 : DepositRecord
foreign_deposit_2 = fresh_deposit (codes "dep_2") 2000 (order_of rival (replicate 32 4))

pub banks-IsValid : IsValid banks
banks-IsValid =
    put_institution-IsValid rival (put_institution bank empty)
      (put_institution-IsValid bank empty (record { deposits = (tt, tt); institutions = (tt, tt) }))

pub first-IsValid : IsValid first
first-IsValid = create_deposit-IsValid 1000 (order_of bank (replicate 32 3)) banks banks-IsValid

pub sample-IsValid : IsValid sample
sample-IsValid =
    set_deposit_state-IsValid (codes "dep_1") approved both
      (create_deposit-IsValid 2000 (order_of rival (replicate 32 4)) first first-IsValid)

abbrev pub first_deposit : DepositRecord
first_deposit = fresh_deposit (codes "dep_1") 1000 (order_of bank (replicate 32 3))

pub found_first :
    (k : Text)
    → get_deposit k first ≡ (if text_eq (codes "dep_1") k then some first_deposit else none)
unfolding get_deposit create_deposit put_institution get set dep_id to_string
found_first k = refl

pub found_1 : get_deposit (codes "dep_1") sample ≡ some own_deposit_1
unfolding get_deposit set_deposit_state create_deposit put_institution get set dep_id to_string
    text_eq
found_1 = refl

pub found_2 : get_deposit (codes "dep_2") sample ≡ some foreign_deposit_2
unfolding get_deposit set_deposit_state create_deposit put_institution get set dep_id to_string
    text_eq
found_2 = refl

pub key_of_bank : find_by_api_key (codes "k1") sample ≡ some bank
unfolding find_by_api_key first_with_key set_deposit_state create_deposit put_institution get set
    values dep_id to_string text_eq
key_of_bank = refl

pub no_such_key : find_by_api_key (codes "k3") sample ≡ none
unfolding find_by_api_key first_with_key set_deposit_state create_deposit put_institution get set
    values dep_id to_string text_eq
no_such_key = refl

pub replicate-IsByte : (n b : ℕ) → IsByte b → All IsByte (replicate n b)
replicate-IsByte ℕ.zero b h = tt
replicate-IsByte (ℕ.suc n) b h = (h, replicate-IsByte n b h)
