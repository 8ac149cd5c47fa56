-- ===== src/Wallets/Handle.antt =====
-- src/jobs/wallet-provisioning.handler.ts. The key store is the interface of Kms; the key pair that
-- Stellar's library generates, and whether it throws, is given.
use learnault_api.Base.{ℕ, ◌+◌, ◌-◌, ◌*◌, ◌^◌, Bool, Option, none, some, leb, if◌then◌else◌}
use learnault_api.Base.Result.{Result, ok, throw}
use learnault_api.Wallets.{
  FailureCode, key_generation_failed, kms_unavailable, kms_store_uncertain,
  database_finalization_failed, WalletJob, StoredStellarKey, Db, Outcome, Wallet,
}
use learnault_api.Wallets.Claim.{Claimed, claim_next, claim_by_wallet_id}
use learnault_api.Wallets.Finish.{complete, record_failure}
use learnault_api.Wallets.Kms.{Hooks, StoreInput, KmsSecretStore}

-- `WalletProvisioningHandleResult`
pub data HandleResult : Type 0 where
  idle : HandleResult
  completed : (wallet_id public_key : ℕ) → HandleResult
  retry_scheduled dead_letter : (wallet_id : ℕ) → FailureCode → HandleResult

pub record GeneratedKeypair : Type 0 where
  pub public_key : ℕ
  pub secret : ℕ

-- What one call meets: the times that it reads, its options and random values, the key pair or
-- nothing when the generator throws, the faults of the key store, and whether the database is out when
-- it writes the outcome.
pub record Run : Type 0 where
  pub now : ℕ
  pub later : ℕ
  pub lease_ms : ℕ
  pub base_retry_ms : ℕ
  pub lease_token : ℕ
  pub key_id : ℕ
  pub opaque_reference : ℕ
  pub keypair : Option GeneratedKeypair
  pub lookup_hooks : Hooks
  pub store_hooks : Hooks
  pub repair_hooks : Hooks
  pub is_complete_out : Bool
  pub is_failure_out : Bool

-- `retryAt` in `fail`
unfoldable pub retry_at : ℕ → ℕ → WalletJob → Option ℕ
retry_at now base_ms j =
    if leb j.max_attempts j.attempts then none else some (now + base_ms * 2 ^ (j.attempts - 1))

abbrev kept_db : Db → Outcome Db → Db
kept_db db (ok db') = db'
kept_db db (throw e) = db

-- The call of `recordFailure` in `fail`, whose errors are swallowed.
unfoldable pub try_record_failure : Run → Claimed → FailureCode → Db → Db
unfolding retry_at
try_record_failure run c code db =
    if run.is_failure_out
    then db
    else kept_db db (
        record_failure c.wallet.id run.lease_token code (retry_at run.later run.base_retry_ms c.job)
          run.later db)

unfoldable pub failure_result : Claimed → FailureCode → HandleResult
failure_result c code =
    if leb c.job.max_attempts c.job.attempts
    then dead_letter c.wallet.id code
    else retry_scheduled c.wallet.id code

-- `fail`; the claim's token is the one that was drawn for it.
unfoldable pub fail : Run → Claimed → FailureCode → Db → HandleResult × Db
unfolding try_record_failure failure_result
fail run c code db = (failure_result c code, try_record_failure run c code db)

abbrev result_or_fail :
    Run → Claimed → StoredStellarKey → Db → Outcome (Wallet × Db) → HandleResult × Db
result_or_fail run c m db (ok (w, db')) = (completed w.id m.public_key, db')
result_or_fail run c m db (throw e) = fail run c database_finalization_failed db

-- The last step of `handleClaimed`.
unfoldable pub finalize : Run → Claimed → StoredStellarKey → Db → HandleResult × Db
unfolding fail
finalize run c m db =
    if run.is_complete_out
    then fail run c database_finalization_failed db
    else result_or_fail run c m db (complete run.key_id c.wallet.id run.lease_token m run.later db)

module _ {S : Type 0} (kms : KmsSecretStore S) where
  -- The lookup that repairs an uncertain store.
  unfoldable pub repaired : Run → Claimed → S → Option StoredStellarKey
  repaired run c s = elim (kms.find_by_idempotency_key run.repair_hooks c.wallet.id s) [
    | ok o ↦ o
    | throw e ↦ none
  ]

  -- The material of a wallet that has none: the code of the failure, or what was stored.
  unfoldable pub store_new : Run → Claimed → S → Result FailureCode StoredStellarKey × S
  unfolding repaired
  store_new run c s = elim run.keypair [
    | none ↦ (throw key_generation_failed, s)
    | some pair ↦
        let input : StoreInput = record {
          idempotency_key = c.wallet.id;
          public_key = pair.public_key;
          secret = pair.secret;
        } in
        let (r, s') = kms.store_stellar_secret run.store_hooks run.opaque_reference input s in
        elim r [
          | ok m ↦ (ok m, s')
          | throw e ↦ elim (repaired run c s') [
            | some m ↦ (ok m, s')
            | none ↦ (throw kms_store_uncertain, s')
          ]
        ]
  ]

  -- The first half of `handleClaimed`.
  unfoldable pub material_for : Run → Claimed → S → Result FailureCode StoredStellarKey × S
  unfolding store_new
  material_for run c s = elim (kms.find_by_idempotency_key run.lookup_hooks c.wallet.id s) [
    | throw e ↦ (throw kms_unavailable, s)
    | ok o ↦ elim o [ some m ↦ (ok m, s) | none ↦ store_new run c s ]
  ]

  -- `handleClaimed`
  unfoldable pub handle_claimed : Run → Option Claimed → Db × S → HandleResult × Db × S
  unfolding material_for finalize
  handle_claimed run none (db, s) = (idle, db, s)
  handle_claimed run (some c) (db, s) =
      let (r, s') = material_for run c s in
      elim r [
        | throw code ↦ let (out, db') = fail run c code db in (out, db', s')
        | ok m ↦ let (out, db') = finalize run c m db in (out, db', s')
      ]

  -- `handleNext`
  unfoldable pub handle_next : Run → Db × S → HandleResult × Db × S
  unfolding handle_claimed
  handle_next run (db, s) =
      let (claimed, db') = claim_next run.lease_token run.now run.lease_ms db in
      handle_claimed run claimed (db', s)

  -- `handleWallet`
  unfoldable pub handle_wallet : ℕ → Run → Db × S → HandleResult × Db × S
  unfolding handle_claimed
  handle_wallet wallet_id run (db, s) =
      let (claimed, db') = claim_by_wallet_id wallet_id run.lease_token run.now run.lease_ms db in
      handle_claimed run claimed (db', s)
