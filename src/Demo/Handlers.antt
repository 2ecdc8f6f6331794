-- ===== src/Demo/Handlers.antt =====
-- The demo's handlers over the store. Only `POST /v1/demo/init` changes it. The `detail` that it sends
-- when the wallet's file cannot be read, the text of the exception, is left out.
use g_pay.Base.{◌+◌, ◌*◌, Option, none, some, Text, codes, Outcome, returned, threw, ◌>>=◌}
use g_pay.Hex.{bytes_to_hex}
use g_pay.Stealth.{derive_stealth_address}
use g_pay.Stealth.Primitives.{Curve}
use g_pay.Store.Types.{Institution, DepositRecord}
use g_pay.Store.Interface.{Store}
use g_pay.Http.{Body, Env, json}
use g_pay.Http.Zod.{Zod}
use g_pay.Http.Reply.{Response, ok, failure, not_found, when_valid, demo_address}
use g_pay.Routes.Public.{own_deposit}
use g_pay.Demo.{Tools}
use g_pay.Demo.Schemas.{deposit_body, attest_body}
use g_pay.Demo.Steps.{demo_request, simulate_step, attest_step, release_step, refund_step}

pub data DemoCall : Type 0 where
  init : DemoCall
  simulate_payment release refund attest : Option Body → DemoCall

module _ (I : Store) (z : Zod) (t : Tools) where
  -- The part that the handlers share: the institution's own deposit, or 404.
  unfoldable pub on_own_deposit :
      Text → Institution → (DepositRecord → Outcome Response) → I.S → Outcome (Response × I.S)
  on_own_deposit id inst answer s = elim (own_deposit I inst id s) [
    | none ↦ returned (not_found, s)
    | some dep ↦ answer dep >>= λ r. returned (r, s)
  ]

  unfoldable pub post_simulate : Env → Option Body → Institution → I.S → Outcome (Response × I.S)
  post_simulate env body inst s = do
    b ← json body
    when_valid (deposit_body z b)
        (λ id.
          on_own_deposit id inst
            (λ dep. t.wallet >>= λ wallet. returned (simulate_step t env.now wallet dep)))
        s

  unfoldable pub post_attest : Option Body → Institution → I.S → Outcome (Response × I.S)
  post_attest body inst s = do
    b ← json body
    when_valid (attest_body z b)
        (λ r. on_own_deposit r.deposit_id inst (λ dep. returned (attest_step t r.verdict dep))) s

  unfoldable pub post_release_step : Option Body → Institution → I.S → Outcome (Response × I.S)
  post_release_step body inst s = do
    b ← json body
    when_valid (deposit_body z b)
        (λ id. on_own_deposit id inst (λ dep. returned (release_step t dep))) s

  unfoldable pub post_refund_step : Option Body → Institution → I.S → Outcome (Response × I.S)
  post_refund_step body inst s = do
    b ← json body
    when_valid (deposit_body z b)
        (λ id. on_own_deposit id inst (λ dep. returned (refund_step t dep))) s

  module _ (c : Curve) where
    unfoldable pub create_demo_address : Env → Text → Institution → I.S → Outcome (Response × I.S)
    create_demo_address env wallet inst s = do
      refund_bytes ← t.bs58_decode wallet
      addr ← derive_stealth_address c env.seed inst.spend_pub inst.view_pub
      (dep, s') ← I.create_deposit env.draw (demo_request env inst addr refund_bytes) s
      returned (
        ok (
            demo_address (record {
              deposit_id = dep.id;
              stealth_pubkey_hex = bytes_to_hex dep.stealth_pubkey;
              ephemeral_r_hex = bytes_to_hex dep.ephemeral_r;
              view_tag = dep.view_tag;
              refund_pubkey = wallet;
              expires_at = env.now + 3600 * 1000;
            })),
        s',
      )

    unfoldable pub post_init : Env → Institution → I.S → Outcome (Response × I.S)
    post_init env inst s = elim t.wallet [
      | threw _ ↦ returned (failure 500 (codes "demo_wallet_unavailable"), s)
      | returned wallet ↦ create_demo_address env wallet inst s
    ]

    unfoldable pub demo_serve : Env → DemoCall → Institution → I.S → Outcome (Response × I.S)
    demo_serve env init = post_init env
    demo_serve env (simulate_payment body) = post_simulate env body
    demo_serve env (release body) = post_release_step body
    demo_serve env (refund body) = post_refund_step body
    demo_serve env (attest body) = post_attest body
