-- ===== src/Demo.antt =====
-- apps/api-gateway/src/routes/demo.ts: the playground's routes, which drive the payment program by
-- its command-line tool. The tool, the wallet's file and the packages `bs58` and `@solana/web3.js`
-- are parameters.
pub mod Schemas
pub mod Steps
pub mod Handlers
pub mod Effects
use g_pay.Base.{Option, none, some, List, Text, codes, ◌++◌, Outcome}
use g_pay.Hex.{Bytes}

-- What `runCli` settles to: an object with an `error`, or one whose `signature` and `deposit_pda`
-- are, after `String(… ?? "")`, the two texts.
pub data CliReply : Type 0 where
  failed : (error : Text) → CliReply
  succeeded : (signature deposit_pda : Text) → CliReply

-- `cfg`, and the code that the handlers call. `wallet` is what `demoWalletPubkey()` returns, and
-- `target` the base58 address of the next `Keypair.generate()`.
pub record Tools : Type 0 where
  pub vault_authority_pubkey : Text
  pub demo_wallet_keypair : Text
  pub oracle_1_keypair : Text
  pub oracle_2_keypair : Text
  pub wallet : Outcome Text
  pub target : Text
  pub bs58_encode : Bytes → Text
  pub bs58_decode : Text → Outcome Bytes
  pub run_cli : List Text → CliReply

abbrev pub explorer_tx : Text → Text
explorer_tx sig = codes "https://explorer.solana.com/tx/" ++ sig ++ codes "?cluster=devnet"

abbrev pub explorer_addr : Text → Text
explorer_addr addr = codes "https://explorer.solana.com/address/" ++ addr ++ codes "?cluster=devnet"

-- `s ? f(s) : null`
abbrev pub unless_empty : (Text → Text) → Text → Option Text
unless_empty f List.[] = none
unless_empty f (List.◌∷◌ c s) = some (f (List.◌∷◌ c s))
