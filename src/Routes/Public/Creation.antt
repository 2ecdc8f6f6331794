-- ===== src/Routes/Public/Creation.antt =====
-- `POST /v1/receiving-address` and `GET /v1/payment-status/:id`.
use mathlib.Core.Path.{subst}
use g_pay.Base.{
  ◌+◌, ◌*◌, ◌≤◌, ◌≡◌, ◌≢◌, ◌⊎◌, inl, inr, refl, sym, ap, ◌∙◌, Option, none, some, arith, Text,
  text_eq, text_eq_refl, Option-cases, returned, returned-injective, >>=-eq-returned, if◌then◌else◌,
  length, All,
}
use g_pay.Hex.{bytes_to_hex, hex_to_bytes, to_lower_case}
use g_pay.Hex.Digits.{IsByte}
use g_pay.Hex.RoundTrip.{is_hex_32-hex_to_bytes}
use g_pay.Radix.{big_int, to_string}
use g_pay.Stealth.{StealthAddress, derive_stealth_address}
use g_pay.Stealth.Primitives.{Curve}
use g_pay.Store.Types.{Institution, DepositRecord, fresh_deposit, pending}
use g_pay.Store.Interface.{Store}
use g_pay.Store.Contract.{StoreLaws}
use g_pay.Http.{Body, Env}
use g_pay.Http.Zod.{Zod, ZodLaws}
use g_pay.Http.Reply.{
  Response, ReceivingAddressReply, receiving_address, payment_status, ok, not_found,
}
use g_pay.Routes.Schemas.{ReceivingAddressBody, receiving_address_body}
use g_pay.Routes.Schemas.Laws.{receiving_address_body_lem}
use g_pay.Routes.Public.{
  deposit_request, payment_status_reply, get_payment_status, create_receiving_address,
  post_receiving_address,
}
use g_pay.Routes.Public.Settle.{own_deposit_iff, own_deposit_foreign, Refused, refused}

-- The answer to a request for an address.
abbrev pub address_reply :
    Env → ReceivingAddressBody → StealthAddress → DepositRecord → ReceivingAddressReply
address_reply env r addr d = record {
  deposit_id = d.id;
  stealth_pubkey_hex = bytes_to_hex addr.stealth_pubkey;
  ephemeral_r_hex = bytes_to_hex addr.ephemeral_r;
  view_tag = addr.view_tag;
  expires_at = env.now + r.expire_seconds * 1000;
}

module _ (I : Store) (laws : StoreLaws I) (z : Zod) (c : Curve) where
  -- What has happened when an address was issued.
  pub record IsIssued (env : Env) (inst : Institution) (s : I.S) (resp : Response) (s' : I.S)
      : Type 0 where
    pub body : Body
    pub request : ReceivingAddressBody
    pub address : StealthAddress
    pub deposit : DepositRecord
    pub accepted : receiving_address_body z body ≡ some request
    pub derived : derive_stealth_address c env.seed inst.spend_pub inst.view_pub ≡ returned address
    pub new : I.get_deposit deposit.id s ≡ none
    pub holds : deposit ≡ record {
      id = deposit.id;
      institution_id = inst.id;
      customer_id = request.customer_id;
      amount_hint = big_int 0 request.amount_hint;
      mint = request.mint;
      stealth_pubkey = address.stealth_pubkey;
      ephemeral_r = address.ephemeral_r;
      view_tag = address.view_tag;
      refund_addr = hex_to_bytes request.refund_addr_hex;
      created_at = deposit.created_at;
      expires_at = env.now + request.expire_seconds * 1000;
      state = pending;
      on_chain_address = none;
      on_chain_amount = none;
      on_chain_state = none;
      on_chain_observed_at = none;
    }
    pub answer : resp ≡ ok (receiving_address (address_reply env request address deposit))
    pub stored :
        (j : Text)
        → I.get_deposit j s' ≡ (if text_eq deposit.id j then some deposit else I.get_deposit j s)
    pub keys : (key : Text) → I.find_by_api_key key s' ≡ I.find_by_api_key key s
    pub valid : laws.IsValid s'

  create_receiving_address-IsIssued :
      (env : Env) (b : Body) (r : ReceivingAddressBody) (inst : Institution) (s s' : I.S)
      (resp : Response)
      → laws.IsValid s
      → receiving_address_body z b ≡ some r
      → create_receiving_address I z c env r inst s ≡ returned (resp, s')
      → IsIssued env inst s resp s'
  unfolding create_receiving_address
  create_receiving_address-IsIssued env b r inst s s' resp v good h =
      let (addr, ea, h₁) =
        >>=-eq-returned (derive_stealth_address c env.seed inst.spend_pub inst.view_pub) _ h in
      let (made, ec, h₂) =
        >>=-eq-returned (I.create_deposit env.draw (deposit_request env inst r addr) s) _ h₁ in
      let same : ◌≡◌ {A = Response × I.S}
          (ok (receiving_address (address_reply env r addr made.0)), made.1) (resp, s') =
        returned-injective h₂ in
      let created = laws.create env.draw (deposit_request env inst r addr) s made.1 made.0 v ec in
      let (new, holds, stored, keys, valid) =
        subst
          (λ t.
            (I.get_deposit made.0.id s ≡ none)
            × (made.0 ≡ fresh_deposit made.0.id made.0.created_at (deposit_request env inst r addr))
            × ((j : Text)
                → I.get_deposit j t
                  ≡ (if text_eq made.0.id j then some made.0 else I.get_deposit j s))
            × ((key : Text) → I.find_by_api_key key t ≡ I.find_by_api_key key s)
            × laws.IsValid t)
          (ap (λ (p : Response × I.S). p.1) same) created in
      record {
        body = b;
        request = r;
        address = addr;
        deposit = made.0;
        accepted = good;
        derived = ea;
        new = new;
        holds = holds;
        answer = sym (ap (λ (p : Response × I.S). p.0) same);
        stored = stored;
        keys = keys;
        valid = valid;
      }

  pub post_receiving_address_cases :
      (env : Env) (body : Option Body) (inst : Institution) (s s' : I.S) (resp : Response)
      → laws.IsValid s
      → post_receiving_address I z c env body inst s ≡ returned (resp, s')
      → Refused I s resp s' ⊎ IsIssued env inst s resp s'
  unfolding post_receiving_address
  post_receiving_address_cases env none inst s s' resp v h = cc
  post_receiving_address_cases env (some b) inst s s' resp v h =
      elim (Option-cases (receiving_address_body z b)) [
        | inl bad ↦
            inl (refused I s s' _ resp (omega arith) (rw (bad, post_receiving_address) at h))
        | inr (r, good) ↦ inr (
            create_receiving_address-IsIssued env b r inst s s' resp v good
              (rw (good, post_receiving_address) at h))
      ]

  -- With the documented checks of zod, an issued deposit expires between a minute and thirty days
  -- after the request, and its refund address is the 32 bytes that the body spells.
  pub IsIssued_bounds :
      (zlaws : ZodLaws z) (env : Env) (inst : Institution) (s s' : I.S) (resp : Response)
      (d : IsIssued env inst s resp s')
      → (env.now + 60_000 ≤ d.deposit.expires_at)
        × (d.deposit.expires_at ≤ env.now + 2_592_000_000)
        × (length d.deposit.refund_addr ≡ 32)
        × All IsByte d.deposit.refund_addr
        × (bytes_to_hex d.deposit.refund_addr ≡ to_lower_case d.request.refund_addr_hex)
  IsIssued_bounds zlaws env inst s s' resp d =
      let r = receiving_address_body_lem z zlaws d.body d.request d.accepted in
      let expires = ap (λ (x : DepositRecord). x.expires_at) d.holds in
      let (long, bytes, prints) = is_hex_32-hex_to_bytes d.request.refund_addr_hex r.refund_key in
      let refunds : d.deposit.refund_addr ≡ hex_to_bytes d.request.refund_addr_hex =
        ap (λ (x : DepositRecord). x.refund_addr) d.holds in
      (
        omega (arith, expires, r.at_least),
        omega (arith, expires, r.at_most),
        ap length refunds ∙ long,
        subst (All IsByte) (sym refunds) bytes,
        ap bytes_to_hex refunds ∙ prints,
      )

  -- Over a store that meets the contract, asked for the status of a deposit that was just issued,
  -- the gateway answers its own institution with the pending state, the amount that was read from
  -- the body, the key and the view tag of the derived address, the end of the lifetime that was
  -- asked for, and no sign of the chain; and it answers any other institution with 404.
  pub get_payment_status-IsIssued :
      (env : Env) (inst other : Institution) (s s' : I.S) (resp : Response)
      (d : IsIssued env inst s resp s')
      → (get_payment_status I d.deposit.id inst s'
          ≡ returned (
            ok (
                payment_status (record {
                  deposit_id = d.deposit.id;
                  state = pending;
                  amount_hint = to_string 10 (big_int 0 d.request.amount_hint);
                  stealth_pubkey_hex = bytes_to_hex d.address.stealth_pubkey;
                  view_tag = d.address.view_tag;
                  expires_at = env.now + d.request.expire_seconds * 1000;
                  on_chain_address = none;
                  on_chain_amount = none;
                  on_chain_state = none;
                })),
            s',
          ))
        × (d.deposit.state ≡ pending)
        × (other.id ≢ inst.id
            → get_payment_status I d.deposit.id other s' ≡ returned (not_found, s'))
  unfolding get_payment_status payment_status_reply
  get_payment_status-IsIssued env inst other s s' resp d =
      let found : I.get_deposit d.deposit.id s' ≡ some d.deposit =
        d.stored d.deposit.id ∙ rw (text_eq_refl d.deposit.id) refl in
      let owner : d.deposit.institution_id ≡ inst.id =
        ap (λ (x : DepositRecord). x.institution_id) d.holds in
      let own = (own_deposit_iff I inst d.deposit.id s' d.deposit).1 (found, owner) in
      (
        rw (own, get_payment_status)
            (ap (λ (x : DepositRecord). returned (ok (payment_status (payment_status_reply x)), s'))
              d.holds),
        ap (λ (x : DepositRecord). x.state) d.holds,
        λ differs. rw (
          own_deposit_foreign I other d.deposit.id s' d.deposit found
              (λ e. differs (sym e ∙ owner)),
          get_payment_status,
        ),
      )
