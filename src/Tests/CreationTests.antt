-- ===== src/Tests/CreationTests.antt =====
-- A request for an address, at the sample store.
use g_pay.Base.{
  ap, sym, ◌+◌, ◌*◌, none, ◌≤◌, ◌≡◌, ◌≢◌, ◌⊎◌, inl, inr, refl, true, false, some, [], ◌∷◌, Text,
  codes, text_eq, All, length, returned,
}
use g_pay.Hex.{bytes_to_hex, is_hex_32, to_lower_case}
use g_pay.Hex.Digits.{IsByte}
use g_pay.Radix.{is_digits, big_int, to_string}
use g_pay.Stealth.{
  StealthAddress, derive_stealth_address, derive_stealth_address_deterministic,
  scalar_from_bytes_wide, scalar_from_hash, hash_point, shift_in, concat, total_length, write_parts,
  set_at, overwrite, view_tag_of, first_byte, little_endian,
}
use g_pay.Store.Types.{DepositRecord, pending}
use g_pay.Store.JsMap.{get}
use g_pay.Store.Memory.{MemoryStore, memory_store, create_deposit}
use g_pay.Store.Memory.Laws.{memory_store_laws, IsValid-iff}
use g_pay.Http.{Body, object, text, natural}
use g_pay.Http.Reply.{Response, ok, not_found, receiving_address, payment_status}
use g_pay.Routes.Schemas.{ReceivingAddressBody, receiving_address_body}
use g_pay.Routes.Schemas.Laws.{IsReceivingAddressBody, receiving_address_body_lem}
use g_pay.Routes.Public.{
  deposit_request, get_payment_status, create_receiving_address, post_receiving_address,
}
use g_pay.Routes.Public.Settle.{Refused}
use g_pay.Routes.Public.Creation.{
  IsIssued, address_reply, post_receiving_address_cases, IsIssued_bounds,
  get_payment_status-IsIssued,
}
use g_pay.Tests.Samples.{bank, rival, env, sample, sample-IsValid}
use g_pay.Tests.ZodModel.{zod, zod_laws}
use g_pay.Playground.Actions.{deposit_instruction}
use g_pay.Playground.Deposit.{scan_deposit-deposit_instruction}
use g_pay.Stealth.Scan.{scan_deposit}
use g_pay.Tests.PageTests.{wallet}
use g_pay.Tests.CurveModel.{toy, toy_laws, base_once, encode}

abbrev key_text : Text
key_text = codes "616e237719716e25ead63d831f9117f79b5aa05af8be30ff0eddb3dc43e8bdcf"

abbrev request : Body
request = object (
    (codes "customer_id", text (codes "ann"))
    ∷ (codes "amount_hint", text (codes "120"))
    ∷ (codes "mint", text (codes "SOL"))
    ∷ (codes "expire_seconds", natural 60)
    ∷ (codes "refund_addr_hex", text key_text)
    ∷ [])

abbrev request_body : ReceivingAddressBody
request_body = record {
  customer_id = codes "ann";
  amount_hint = codes "120";
  mint = codes "SOL";
  expire_seconds = 60;
  refund_addr_hex = key_text;
}

request_accepted : receiving_address_body zod request ≡ some request_body
unfolding receiving_address_body get text_eq is_hex_32 is_digits
request_accepted = refl

receiving_address_body_lem_example : IsReceivingAddressBody zod zod_laws request_body
receiving_address_body_lem_example =
    receiving_address_body_lem zod zod_laws request request_body request_accepted

abbrev address : StealthAddress
address = record { stealth_pubkey = encode false; ephemeral_r = encode true; view_tag = 1 }

derived : derive_stealth_address toy env.seed bank.spend_pub bank.view_pub ≡ returned address
unfolding derive_stealth_address derive_stealth_address_deterministic scalar_from_bytes_wide
    scalar_from_hash hash_point shift_in concat total_length write_parts set_at overwrite
    view_tag_of first_byte little_endian
derived = refl

abbrev made : DepositRecord × MemoryStore
made = create_deposit env.draw.now (deposit_request env bank request_body address) sample

abbrev answer : Response
answer = ok (receiving_address (address_reply env request_body address made.0))

issue :
    post_receiving_address memory_store zod toy env (some request) bank sample
    ≡ returned (answer, made.1)
unfolding post_receiving_address create_receiving_address
issue = rw (request_accepted, derived, create_receiving_address) refl

post_receiving_address_cases_example :
    Refused memory_store sample answer made.1
    ⊎ IsIssued memory_store memory_store_laws zod toy env bank sample answer made.1
post_receiving_address_cases_example =
    post_receiving_address_cases memory_store memory_store_laws zod toy env (some request) bank
      sample made.1 answer ((IsValid-iff sample).0 sample-IsValid) issue

issued : IsIssued memory_store memory_store_laws zod toy env bank sample answer made.1
issued = elim post_receiving_address_cases_example [
  | inl no_change ↦ absurd (no_change.0 refl)
  | inr done ↦ done
]

IsIssued_bounds_example :
    (10000 + 60_000 ≤ issued.deposit.expires_at)
    × (issued.deposit.expires_at ≤ 10000 + 2_592_000_000)
    × (length issued.deposit.refund_addr ≡ 32)
    × All IsByte issued.deposit.refund_addr
    × (bytes_to_hex issued.deposit.refund_addr ≡ to_lower_case issued.request.refund_addr_hex)
IsIssued_bounds_example =
    IsIssued_bounds memory_store memory_store_laws zod toy zod_laws env bank sample made.1 answer
      issued

get_payment_status-IsIssued_example :
    (get_payment_status memory_store issued.deposit.id bank made.1
      ≡ returned (
        ok (
            payment_status (record {
              deposit_id = issued.deposit.id;
              state = pending;
              amount_hint = to_string 10 (big_int 0 issued.request.amount_hint);
              stealth_pubkey_hex = bytes_to_hex issued.address.stealth_pubkey;
              view_tag = issued.address.view_tag;
              expires_at = env.now + issued.request.expire_seconds * 1000;
              on_chain_address = none;
              on_chain_amount = none;
              on_chain_state = none;
            })),
        made.1,
      ))
    × (issued.deposit.state ≡ pending)
    × (rival.id ≢ bank.id
        → get_payment_status memory_store issued.deposit.id rival made.1
          ≡ returned (not_found, made.1))
get_payment_status-IsIssued_example =
    get_payment_status-IsIssued memory_store memory_store_laws zod toy env bank rival sample made.1
      answer issued

-- The keys of the sample institution are encodings of the base point, so both its scalars are 1.
scan_deposit-deposit_instruction_example :
    let args =
      deposit_instruction (address_reply env issued.request issued.address issued.deposit) wallet in
    (args.stealth_pubkey ≡ issued.deposit.stealth_pubkey)
    × (args.ephemeral_r ≡ issued.deposit.ephemeral_r)
    × (scan_deposit toy toy_laws 1
          (toy_laws.times true 1)
          args.stealth_pubkey
          args.ephemeral_r
          args.view_tag
          0
        ≡ returned true)
scan_deposit-deposit_instruction_example =
    scan_deposit-deposit_instruction memory_store memory_store_laws zod toy toy_laws env bank sample
      made.1 answer issued 1 1 wallet (ap encode (sym base_once)) (ap encode (sym base_once))
