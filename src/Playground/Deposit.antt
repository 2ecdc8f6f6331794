-- ===== src/Playground/Deposit.antt =====
-- The playground and the gateway: the body that asks for an address, and the deposit that is built
-- from the answer.
use g_pay.Base.{
  returned, text_eq, ℕ, ◌≤◌, ◌≡◌, refl, ap, sym, ◌∙◌, true, some, arith, codes, length, All,
}
use g_pay.Hex.{hex_to_bytes, is_hex_32}
use g_pay.Hex.Digits.{IsByte}
use g_pay.Hex.Print.{is_hex_32-bytes_to_hex}
use g_pay.Hex.RoundTrip.{hex_to_bytes-bytes_to_hex}
use g_pay.Radix.{to_string, big_int, is_digits}
use g_pay.Store.JsMap.{get}
use g_pay.Http.{text, natural}
use g_pay.Http.Zod.{Zod, ZodLaws}
use g_pay.Routes.Schemas.{ReceivingAddressBody, receiving_address_body}
use g_pay.Client.{CreateAddressBody}
use g_pay.Playground.Sent.{issue_object}
use g_pay.Playground.Actions.{deposit_instruction}
use g_pay.Stealth.{derive_stealth_address, derive_stealth_address_deterministic}
use g_pay.Stealth.Primitives.{Curve, CurveLaws}
use g_pay.Stealth.Scan.{scan_deposit, scan_deposit-derive, derive-IsByte}
use g_pay.Store.Types.{Institution, DepositRecord}
use g_pay.Store.Interface.{Store}
use g_pay.Store.Contract.{StoreLaws}
use g_pay.Http.{Env}
use g_pay.Http.Reply.{Response}
use g_pay.Routes.Public.Creation.{IsIssued, address_reply}
use mathlib.Core.Path.{subst}
use g_pay.Playground.Texts.{Wallet, issue_body, demo_amount_lamports}

-- The body as the gateway's schema reads it.
abbrev pub accepted_as : CreateAddressBody → ReceivingAddressBody
accepted_as b = record {
  customer_id = b.customer_id;
  amount_hint = b.amount_hint;
  mint = b.mint;
  expire_seconds = b.expire_seconds;
  refund_addr_hex = b.refund_addr_hex;
}

module _ (z : Zod) (laws : ZodLaws z) where
  receiving_address_body-sent :
      (b : CreateAddressBody)
      → 1 ≤ length b.customer_id
      → is_digits b.amount_hint ≡ true
      → 1 ≤ length b.mint
      → 60 ≤ b.expire_seconds
      → b.expire_seconds ≤ 2_592_000
      → is_hex_32 b.refund_addr_hex ≡ true
      → receiving_address_body z (issue_object b) ≡ some (accepted_as b)
  unfolding receiving_address_body get text_eq issue_object
  receiving_address_body-sent b customer hint mint least most refund =
      let o = issue_object b in
      let p₁ : z.property (codes "customer_id") o ≡ some (text b.customer_id) =
        (laws.property_iff (codes "customer_id") o _).1 (_, refl, refl) in
      let p₂ : z.property (codes "amount_hint") o ≡ some (text b.amount_hint) =
        (laws.property_iff (codes "amount_hint") o _).1 (_, refl, refl) in
      let p₃ : z.property (codes "mint") o ≡ some (text b.mint) =
        (laws.property_iff (codes "mint") o _).1 (_, refl, refl) in
      let p₄ : z.property (codes "expire_seconds") o ≡ some (natural b.expire_seconds) =
        (laws.property_iff (codes "expire_seconds") o _).1 (_, refl, refl) in
      let p₅ : z.property (codes "refund_addr_hex") o ≡ some (text b.refund_addr_hex) =
        (laws.property_iff (codes "refund_addr_hex") o _).1 (_, refl, refl) in
      let c₁ : z.string_min 1 (text b.customer_id) ≡ some b.customer_id =
        (laws.string_min_iff 1 _ b.customer_id).1 (refl, customer) in
      let c₂ : z.string_regex is_digits (text b.amount_hint) ≡ some b.amount_hint =
        (laws.string_regex_iff is_digits _ b.amount_hint).1 (refl, hint) in
      let c₃ : z.string_min 1 (text b.mint) ≡ some b.mint =
        (laws.string_min_iff 1 _ b.mint).1 (refl, mint) in
      let c₄ : z.int_between 60 2_592_000 (natural b.expire_seconds) ≡ some b.expire_seconds =
        (laws.int_between_iff 60 2_592_000 _ b.expire_seconds).1 (refl, least, most) in
      let c₅ : z.string_regex is_hex_32 (text b.refund_addr_hex) ≡ some b.refund_addr_hex =
        (laws.string_regex_iff is_hex_32 _ b.refund_addr_hex).1 (refl, refund) in
      rw (p₁, c₁, p₂, c₂, p₃, c₃, p₄, c₄, p₅, c₅) refl

amount_digits : is_digits (to_string 10 demo_amount_lamports) ≡ true
unfolding is_digits to_string
amount_digits = refl

amount_read : big_int 0 (to_string 10 demo_amount_lamports) ≡ 10_000_000
unfolding big_int to_string
amount_read = refl

-- With the documented checks of zod, the body that the playground sends for a wallet of 32 bytes is
-- accepted by the gateway with the fields as they were sent, and the gateway reads back the
-- wallet's bytes and the amount of ten million.
pub issue_body-accepted :
    (z : Zod) (laws : ZodLaws z) (w : Wallet)
    → All IsByte w.to_bytes
    → length w.to_bytes ≡ 32
    → 1 ≤ length w.to_base58
    → let b = issue_body (some w) in
      (receiving_address_body z (issue_object b) ≡ some (accepted_as b))
      × (hex_to_bytes b.refund_addr_hex ≡ w.to_bytes)
      × (big_int 0 b.amount_hint ≡ 10_000_000)
unfolding issue_body
issue_body-accepted z laws w bytes long named = (
  receiving_address_body-sent z laws (issue_body (some w)) named amount_digits (omega arith)
      (omega arith) (omega arith) (is_hex_32-bytes_to_hex w.to_bytes bytes long),
  hex_to_bytes-bytes_to_hex w.to_bytes bytes,
  amount_read,
)

module _ (I : Store) (laws : StoreLaws I) (z : Zod) (c : Curve) (curve_laws : CurveLaws c) where
  open c use {base, to_raw_bytes}
  open curve_laws use {times}

  -- Over a curve with the group laws, for an institution whose public keys are those of two
  -- scalars, the deposit that the playground builds from the gateway's answer carries the very
  -- stealth key and ephemeral key that the gateway has stored, and is recognised by the
  -- institution's scan.
  pub scan_deposit-deposit_instruction :
      (env : Env) (inst : Institution) (s s' : I.S) (resp : Response)
      (d : IsIssued I laws z c env inst s resp s') (spend view : ℕ) (w : Wallet)
      → inst.spend_pub ≡ to_raw_bytes (times base spend)
      → inst.view_pub ≡ to_raw_bytes (times base view)
      → let args = deposit_instruction (address_reply env d.request d.address d.deposit) w in
        (args.stealth_pubkey ≡ d.deposit.stealth_pubkey)
        × (args.ephemeral_r ≡ d.deposit.ephemeral_r)
        × (scan_deposit c curve_laws view
              (times base spend)
              args.stealth_pubkey
              args.ephemeral_r
              args.view_tag
              0
            ≡ returned true)
  unfolding deposit_instruction derive_stealth_address
  scan_deposit-deposit_instruction env inst s s' resp d spend view w hs hv =
      let derived : derive_stealth_address_deterministic c (to_raw_bytes (times base spend))
            (to_raw_bytes (times base view)) env.seed 0
          ≡ returned d.address =
        subst
          (λ k.
            derive_stealth_address_deterministic c k (to_raw_bytes (times base view)) env.seed 0
            ≡ returned d.address)
          hs
          (subst
            (λ k.
              derive_stealth_address_deterministic c inst.spend_pub k env.seed 0
              ≡ returned d.address)
            hv d.derived) in
      let (stealth_bytes, ephemeral_bytes) =
        derive-IsByte c curve_laws spend view env.seed 0 d.address derived in
      let stealth_back = hex_to_bytes-bytes_to_hex d.address.stealth_pubkey stealth_bytes in
      let ephemeral_back = hex_to_bytes-bytes_to_hex d.address.ephemeral_r ephemeral_bytes in
      (
        stealth_back ∙ sym (ap (λ (x : DepositRecord). x.stealth_pubkey) d.holds),
        ephemeral_back ∙ sym (ap (λ (x : DepositRecord). x.ephemeral_r) d.holds),
        rw (stealth_back, ephemeral_back)
            (scan_deposit-derive c curve_laws spend view env.seed 0 d.address derived),
      )
