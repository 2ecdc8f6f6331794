-- ===== src/Demo/Steps.antt =====
-- The demo's handlers.
use g_pay.Base.{
  ℕ, ◌+◌, ◌-◌, ◌*◌, ◌/◌, max, Option, none, some, List, [], ◌∷◌, ◌++◌, map, Text, codes,
  if◌then◌else◌,
}
use g_pay.Hex.{Bytes, bytes_to_hex}
use g_pay.Radix.{to_string}
use g_pay.Stealth.{StealthAddress}
use g_pay.Store.Types.{Institution, DepositRecord, DepositCreate, approved, state_eq}
use g_pay.Http.{Env}
use g_pay.Http.Reply.{
  Response, ok, error_in_state, error_with_hint, demo_failure, demo_step, demo_attested,
}
use g_pay.Demo.{Tools, failed, succeeded, explorer_tx, explorer_addr, unless_empty}

abbrev pub not_on_chain : Response
not_on_chain = record {
  status = 409;
  reply = error_with_hint (codes "no_onchain_record") (codes "run simulate-payment first");
}

abbrev pub step_failed : Text → Option Text → Text → Response
step_failed stage oracle error = record { status = 500; reply = demo_failure stage oracle error }

-- The record that `POST /v1/demo/init` asks for: 0.01 SOL, for an hour.
abbrev pub demo_request : Env → Institution → StealthAddress → Bytes → DepositCreate
demo_request env inst addr refund = record {
  institution_id = inst.id;
  customer_id = codes "demo-" ++ to_string 36 env.later;
  amount_hint = 10000000;
  mint = codes "SOL";
  stealth_pubkey = addr.stealth_pubkey;
  ephemeral_r = addr.ephemeral_r;
  view_tag = addr.view_tag;
  refund_addr = refund;
  expires_at = env.now + 3600 * 1000;
}

module _ (t : Tools) where
  unfoldable pub deposit_args : ℕ → Text → DepositRecord → List Text
  deposit_args now wallet dep =
      codes "deposit-sol-direct"
      ∷ codes "--depositor-keypair"
      ∷ t.demo_wallet_keypair
      ∷ codes "--vault-authority"
      ∷ t.vault_authority_pubkey
      ∷ codes "--stealth-pubkey-hex"
      ∷ bytes_to_hex dep.stealth_pubkey
      ∷ codes "--ephemeral-r-hex"
      ∷ bytes_to_hex dep.ephemeral_r
      ∷ codes "--view-tag"
      ∷ to_string 10 dep.view_tag
      ∷ codes "--amount-lamports"
      ∷ to_string 10 dep.amount_hint
      ∷ codes "--refund-addr"
      ∷ t.bs58_encode dep.refund_addr
      ∷ codes "--release-authority"
      ∷ wallet
      ∷ codes "--expire-seconds"
      ∷ to_string 10 (max 60 ((dep.expires_at - now) / 1000))
      ∷ []

  unfoldable pub attest_args : Text → Text → Text → DepositRecord → List Text
  attest_args oracle address verdict dep =
      codes "attest"
      ∷ codes "--oracle-keypair"
      ∷ oracle
      ∷ codes "--vault-authority"
      ∷ t.vault_authority_pubkey
      ∷ codes "--deposit-pubkey"
      ∷ address
      ∷ codes "--stealth-pubkey"
      ∷ t.bs58_encode dep.stealth_pubkey
      ∷ codes "--ephemeral-r-hex"
      ∷ bytes_to_hex dep.ephemeral_r
      ∷ codes "--verdict"
      ∷ verdict
      ∷ []

  unfoldable pub release_args : DepositRecord → List Text
  release_args dep =
      codes "release-sol"
      ∷ codes "--release-authority-keypair"
      ∷ t.demo_wallet_keypair
      ∷ codes "--vault-authority"
      ∷ t.vault_authority_pubkey
      ∷ codes "--stealth-pubkey"
      ∷ t.bs58_encode dep.stealth_pubkey
      ∷ codes "--ephemeral-r-hex"
      ∷ bytes_to_hex dep.ephemeral_r
      ∷ codes "--target"
      ∷ t.target
      ∷ []

  unfoldable pub refund_args : DepositRecord → List Text
  refund_args dep =
      codes "refund-sol"
      ∷ codes "--caller-keypair"
      ∷ t.demo_wallet_keypair
      ∷ codes "--vault-authority"
      ∷ t.vault_authority_pubkey
      ∷ codes "--stealth-pubkey"
      ∷ t.bs58_encode dep.stealth_pubkey
      ∷ codes "--ephemeral-r-hex"
      ∷ bytes_to_hex dep.ephemeral_r
      ∷ codes "--refund-target"
      ∷ t.bs58_encode dep.refund_addr
      ∷ []

  unfoldable pub simulate_step : ℕ → Text → DepositRecord → Response
  simulate_step now wallet dep = elim (t.run_cli (deposit_args now wallet dep)) [
    | failed e ↦ step_failed (codes "simulate") none e
    | succeeded sig pda ↦ ok (
        demo_step (codes "simulate") (
          (codes "signature", some sig)
          ∷ (codes "deposit_pda", some pda)
          ∷ (codes "explorer_tx", unless_empty explorer_tx sig)
          ∷ (codes "explorer_account", unless_empty explorer_addr pda)
          ∷ []))
  ]

  -- The loop over the oracles: it stops at the first that fails.
  unfoldable pub attest_all : List Text → List Text → Text → Text → DepositRecord → Response
  attest_all [] sigs address verdict dep = ok (demo_attested verdict sigs (map explorer_tx sigs))
  attest_all (oracle ∷ rest) sigs address verdict dep =
      elim (t.run_cli (attest_args oracle address verdict dep)) [
        | failed e ↦ step_failed (codes "attest") (some oracle) e
        | succeeded sig _ ↦ attest_all rest (sigs ++ sig ∷ []) address verdict dep
      ]

  unfoldable pub attest_step : Text → DepositRecord → Response
  attest_step verdict dep = elim dep.on_chain_address [
    | none ↦ not_on_chain
    | some [] ↦ not_on_chain
    | some (c ∷ address) ↦
        attest_all (t.oracle_1_keypair ∷ t.oracle_2_keypair ∷ []) [] (c ∷ address) verdict dep
  ]

  unfoldable pub release_step : DepositRecord → Response
  release_step dep =
      if state_eq dep.state approved
      then (elim (t.run_cli (release_args dep)) [
        | failed e ↦ step_failed (codes "release") none e
        | succeeded sig _ ↦ ok (
            demo_step (codes "release") (
              (codes "signature", some sig)
              ∷ (codes "target", some t.target)
              ∷ (codes "explorer_tx", unless_empty explorer_tx sig)
              ∷ (codes "explorer_target", some (explorer_addr t.target))
              ∷ []))
      ])
      else record { status = 409; reply = error_in_state (codes "not_approved") dep.state }

  unfoldable pub refund_step : DepositRecord → Response
  refund_step dep = elim (t.run_cli (refund_args dep)) [
    | failed e ↦ step_failed (codes "refund") none e
    | succeeded sig _ ↦ ok (
        demo_step (codes "refund") (
          (codes "signature", some sig)
          ∷ (codes "refund_target", some (t.bs58_encode dep.refund_addr))
          ∷ (codes "explorer_tx", unless_empty explorer_tx sig)
          ∷ []))
  ]
