-- ===== src/Playground/Texts.antt =====
-- The texts that the playground shows: the helpers at the end of page.tsx, and its links.
use g_pay.Base.{
  ℕ, suc, ◌+◌, ◌-◌, ◌*◌, Option, none, some, [], ◌∷◌, ◌++◌, Text, codes, leb, length, take,
  replicate, if◌then◌else◌,
}
use g_pay.Hex.{Bytes, bytes_to_hex}
use g_pay.Radix.{to_string}
use g_pay.Client.{CreateAddressBody}

abbrev pub demo_amount_lamports : ℕ
demo_amount_lamports = 10000000

unfoldable pub drop : ℕ → Text → Text
drop ℕ.zero s = s
drop (suc n) [] = []
drop (suc n) (c ∷ s) = drop n s

-- `s.slice(-n)`, where `-0` is 0.
unfoldable pub slice_last : ℕ → Text → Text
slice_last n s = drop (if leb n 0 then 0 else length s - n) s

-- `shortAddr` is called with 6, and in AppHeader.tsx with 4.
unfoldable pub short_addr : ℕ → Text → Text
short_addr n s = if leb (length s) (2 * n + 1) then s else take n s ++ codes "…" ++ slice_last n s

unfoldable pub short_hex : Text → Text
short_hex s = if leb (length s) (2 * 8 + 1) then s else take 8 s ++ codes "…" ++ slice_last 8 s

unfoldable pub address_link : Text → Text
address_link a = codes "https://explorer.solana.com/address/" ++ a ++ codes "?cluster=devnet"

unfoldable pub tx_link : Text → Text
tx_link sig = codes "https://explorer.solana.com/tx/" ++ sig ++ codes "?cluster=devnet"

-- A customer's wallet: its public key as bytes, and in base 58.
pub record Wallet : Type 0 where
  pub to_bytes : Bytes
  pub to_base58 : Text

-- The body that `runIssueAddress` sends.
unfoldable pub issue_body : Option Wallet → CreateAddressBody
issue_body wallet = record {
  customer_id = elim wallet [ none ↦ codes "anon" | some w ↦ w.to_base58 ];
  amount_hint = to_string 10 demo_amount_lamports;
  mint = codes "SOL";
  expire_seconds = 3600;
  refund_addr_hex = elim wallet [ none ↦ replicate 64 b'0' | some w ↦ bytes_to_hex w.to_bytes ];
}

-- `requestBodyFor`: what the first step shows as its request.
unfoldable pub request_body_for : Option Text → CreateAddressBody
request_body_for customer = record {
  customer_id = elim customer [ none ↦ codes "anon" | some c ↦ c ];
  amount_hint = to_string 10 demo_amount_lamports;
  mint = codes "SOL";
  expire_seconds = 3600;
  refund_addr_hex = codes "<your wallet pubkey, hex>";
}
