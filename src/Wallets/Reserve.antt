-- ===== src/Wallets/Reserve.antt =====
-- wallet-provisioning.repository.ts: `assertEligible` and `reserveEligibleWallet`.
use learnault_api.Base.{
  ℕ, Bool, false, ◌&&◌, not, Option, none, some, List, [], ◌∷◌, ◌++◌, leb, ◌==◌, if◌then◌else◌,
}
use learnault_api.Base.Result.{ok, throw, ◌>>◌, throw_if}
use learnault_api.Base.Table.{find_where, update_where}
use learnault_api.Wallets.{
  reserved, pending, Wallet, WalletJob, User, ConsentRecord, wallet_reserved, wallet_requeued, Db,
  user_not_found, user_not_verified, custodial_consent_required, Outcome, is_failed, is_active,
}

-- The ids that the call creates rows with, where it does.
pub record Fresh : Type 0 where
  pub wallet_id : ℕ
  pub job_id : ℕ

-- `CUSTODIAL_WALLET_CONSENT_PURPOSE`
abbrev pub custodial_wallet : ℕ
custodial_wallet = 1

abbrev managed_custody : ℕ
managed_custody = 0

-- `orderBy: { createdAt: 'desc' }`: the later of a record and the latest of those behind it.
abbrev pub later : ConsentRecord → Option ConsentRecord → ConsentRecord
later c none = c
later c (some d) = if leb d.created_at c.created_at then c else d

abbrev pub latest_consent : ℕ → List ConsentRecord → Option ConsentRecord
latest_consent user_id [] = none
latest_consent user_id (c ∷ cs) =
    if c.user_id == user_id && c.purpose == custodial_wallet
    then some (later c (latest_consent user_id cs))
    else latest_consent user_id cs

-- `consent?.status !== 'granted'`
abbrev pub is_granted : Option ConsentRecord → Bool
is_granted none = false
is_granted (some c) = c.is_granted

abbrev find_user : ℕ → Db → Option User
find_user user_id db = find_where (λ u. u.id == user_id) db.users

-- `assertEligible`
unfoldable pub assert_eligible : ℕ → Db → Outcome (Unit {0})
assert_eligible user_id db = elim (find_user user_id db) [
  | none ↦ throw user_not_found
  | some u ↦
      throw_if (not u.is_verified) user_not_verified
      >> throw_if (not (is_granted (latest_consent user_id db.consents))) custodial_consent_required
]

abbrev pub find_by_user : ℕ → Db → Option Wallet
find_by_user user_id db = find_where (λ w. w.user_id == user_id) db.wallets

abbrev pub new_wallet : Fresh → ℕ → ℕ → ℕ → Wallet
new_wallet fresh user_id network now = record {
  id = fresh.wallet_id;
  user_id = user_id;
  network = network;
  custody = managed_custody;
  public_key = none;
  status = reserved;
  managed_key_reference_id = none;
  failure_code = none;
  attempt_count = 0;
  provisioned_at = none;
  status_changed_at = now;
  created_at = now;
}

abbrev pub as_reserved : ℕ → Wallet → Wallet
as_reserved now w = record w { status = reserved; failure_code = none; status_changed_at = now }

abbrev pub new_job : Fresh → ℕ → ℕ → WalletJob
new_job fresh wallet_id now = record {
  id = fresh.job_id;
  wallet_id = wallet_id;
  status = pending;
  available_at = now;
  lease_token = none;
  leased_until = none;
  attempts = 0;
  max_attempts = 8;
  last_failure_code = none;
  completed_at = none;
  created_at = now;
}

abbrev pub as_requeued : ℕ → WalletJob → WalletJob
as_requeued now j = record j {
  status = pending;
  available_at = now;
  lease_token = none;
  leased_until = none;
  last_failure_code = none;
  completed_at = none;
}

-- `walletProvisioningJob.upsert`
unfoldable pub upsert_job : Fresh → ℕ → ℕ → List WalletJob → List WalletJob
upsert_job fresh wallet_id now jobs = elim (find_where (λ j. j.wallet_id == wallet_id) jobs) [
  | none ↦ jobs ++ new_job fresh wallet_id now ∷ []
  | some _ ↦ update_where (λ j. j.wallet_id == wallet_id) (as_requeued now) jobs
]

-- A user without a wallet: the row is created, with its job.
unfoldable pub create_wallet : Fresh → ℕ → ℕ → ℕ → Db → Wallet × Db
unfolding upsert_job
create_wallet fresh user_id network now db =
    let w = new_wallet fresh user_id network now in
    (
      w,
      record db {
        wallets = db.wallets ++ w ∷ [];
        jobs = upsert_job fresh w.id now db.jobs;
        audit =
            db.audit
            ++ record { user_id = user_id; action = wallet_reserved; wallet_id = w.id } ∷ [];
      },
    )

-- A user whose wallet is there: a failed one is reserved again, and its job waits again unless the
-- wallet is active.
unfoldable pub requeue_wallet : Fresh → ℕ → Wallet → Db → Wallet × Db
unfolding upsert_job
requeue_wallet fresh now w db =
    if is_failed w.status
    then (
      as_reserved now w,
      record db {
        wallets = update_where (λ v. v.id == w.id) (as_reserved now) db.wallets;
        jobs = upsert_job fresh w.id now db.jobs;
        audit =
            db.audit
            ++ record { user_id = w.user_id; action = wallet_requeued; wallet_id = w.id } ∷ [];
      },
    )
    else (
      w,
      if is_active w.status then db else record db { jobs = upsert_job fresh w.id now db.jobs },
    )

-- `reserveEligibleWallet`; one transaction.
unfoldable pub reserve_eligible_wallet : Fresh → ℕ → ℕ → ℕ → Db → Outcome (Wallet × Db)
unfolding assert_eligible create_wallet requeue_wallet
reserve_eligible_wallet fresh user_id network now db =
    assert_eligible user_id db >> elim (find_by_user user_id db) [
      | none ↦ ok (create_wallet fresh user_id network now db)
      | some w ↦ ok (requeue_wallet fresh now w db)
    ]
