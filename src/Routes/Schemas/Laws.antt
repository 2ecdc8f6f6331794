-- ===== src/Routes/Schemas/Laws.antt =====
-- What a body that a schema accepts is known to hold.
use mathlib.Core.Path.{subst}
use g_pay.Base.{some-injective, ℕ, ◌≤◌, ◌≡◌, refl, true, Option, none, some, Text, codes, length}
use g_pay.Hex.{is_hex_32}
use g_pay.Radix.{is_digits}
use g_pay.Http.{Value, Body}
use g_pay.Http.Zod.{Zod, ZodLaws}
use g_pay.Routes.Schemas.{◌>>=◌, ReceivingAddressBody, receiving_address_body}

>>=-eq-some {ℓ κ} :
    {A : Type ℓ} {B : Type κ} (m : Option A) (f : A → Option B) {b : B}
    → (m >>= f) ≡ some b
    → (a : A) × (m ≡ some a) × (f a ≡ some b)
>>=-eq-some none f h = cc
>>=-eq-some (some a) f h = (a, refl, h)

module _ (z : Zod) (laws : ZodLaws z) where
  pub record IsReceivingAddressBody (r : ReceivingAddressBody) : Type 0 where
    pub customer_named : 1 ≤ length r.customer_id
    pub hint_digits : is_digits r.amount_hint ≡ true
    pub mint_named : 1 ≤ length r.mint
    pub at_least : 60 ≤ r.expire_seconds
    pub at_most : r.expire_seconds ≤ 2_592_000
    pub refund_key : is_hex_32 r.refund_addr_hex ≡ true

  IsReceivingAddressBody-of :
      (b : Body) (v₁ v₂ v₃ v₄ v₅ : Value) (customer hint mint address : Text) (seconds : ℕ)
      (r : ReceivingAddressBody)
      → z.string_min 1 v₁ ≡ some customer
      → z.string_regex is_digits v₂ ≡ some hint
      → z.string_min 1 v₃ ≡ some mint
      → z.int_between 60 2_592_000 v₄ ≡ some seconds
      → z.string_regex is_hex_32 v₅ ≡ some address
      → some (record {
        customer_id = customer;
        amount_hint = hint;
        mint = mint;
        expire_seconds = seconds;
        refund_addr_hex = address;
      })
        ≡ some r
      → IsReceivingAddressBody r
  IsReceivingAddressBody-of b v₁ v₂ v₃ v₄ v₅ customer hint mint address seconds r h₁ h₂ h₃ h₄ h₅ e =
      let parts : IsReceivingAddressBody (record {
        customer_id = customer;
        amount_hint = hint;
        mint = mint;
        expire_seconds = seconds;
        refund_addr_hex = address;
      }) =
        record {
          customer_named = ((laws.string_min_iff 1 v₁ customer).0 h₁).1;
          hint_digits = ((laws.string_regex_iff is_digits v₂ hint).0 h₂).1;
          mint_named = ((laws.string_min_iff 1 v₃ mint).0 h₃).1;
          at_least = ((laws.int_between_iff 60 2_592_000 v₄ seconds).0 h₄).1;
          at_most = ((laws.int_between_iff 60 2_592_000 v₄ seconds).0 h₄).2;
          refund_key = ((laws.string_regex_iff is_hex_32 v₅ address).0 h₅).1;
        } in
      subst IsReceivingAddressBody (some-injective e) parts

  -- With the documented checks of zod, an accepted request for an address has named the customer
  -- and the mint, its amount is digits, its lifetime is from a minute to thirty days, and its
  -- refund address is 64 hexadecimal digits.
  pub receiving_address_body_lem :
      (b : Body) (r : ReceivingAddressBody)
      → receiving_address_body z b ≡ some r
      → IsReceivingAddressBody r
  unfolding receiving_address_body
  receiving_address_body_lem b r h =
      let (v₁, _, h₁) = >>=-eq-some (z.property (codes "customer_id") b) _ h in
      let (customer, c₁, k₁) = >>=-eq-some (z.string_min 1 v₁) _ h₁ in
      let (v₂, _, h₂) = >>=-eq-some (z.property (codes "amount_hint") b) _ k₁ in
      let (hint, c₂, k₂) = >>=-eq-some (z.string_regex is_digits v₂) _ h₂ in
      let (v₃, _, h₃) = >>=-eq-some (z.property (codes "mint") b) _ k₂ in
      let (mint, c₃, k₃) = >>=-eq-some (z.string_min 1 v₃) _ h₃ in
      let (v₄, _, h₄) = >>=-eq-some (z.property (codes "expire_seconds") b) _ k₃ in
      let (seconds, c₄, k₄) = >>=-eq-some (z.int_between 60 2_592_000 v₄) _ h₄ in
      let (v₅, _, h₅) = >>=-eq-some (z.property (codes "refund_addr_hex") b) _ k₄ in
      let (address, c₅, k₅) = >>=-eq-some (z.string_regex is_hex_32 v₅) _ h₅ in
      IsReceivingAddressBody-of b v₁ v₂ v₃ v₄ v₅ customer hint mint address seconds r c₁ c₂ c₃ c₄ c₅
        k₅
