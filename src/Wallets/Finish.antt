-- ===== src/Wallets/Finish.antt =====
-- wallet-provisioning.repository.ts: `complete` and `recordFailure`.
use learnault_api.Base.{
  ℕ, Bool, true, false, ◌&&◌, not, Option, none, some, List, [], ◌∷◌, ◌++◌, ◌==◌, if◌then◌else◌,
}
use learnault_api.Base.Result.{ok, throw, ◌>>=◌, ◌>>◌, throw_if}
use learnault_api.Base.Table.{find_where, update_where}
use learnault_api.Wallets.{
  retryable, active, failed, retry, completed, dead_letter, FailureCode, Wallet, WalletJob,
  ManagedKeyReference, StoredStellarKey, wallet_completed, wallet_retry_scheduled, wallet_failed,
  Db, lease_lost, not_found, unique_violation, Outcome, is_active, is_processing,
}

-- `findUniqueOrThrow`
abbrev pub or_throw : {A : Type 0} → Option A → Outcome A
or_throw none = throw not_found
or_throw (some x) = ok x

abbrev pub find_job : ℕ → Db → Option WalletJob
find_job wallet_id db = find_where (λ j. j.wallet_id == wallet_id) db.jobs

abbrev pub find_wallet : ℕ → Db → Option Wallet
find_wallet wallet_id db = find_where (λ w. w.id == wallet_id) db.wallets

abbrev is_token : ℕ → Option ℕ → Bool
is_token token none = false
is_token token (some held) = held == token

-- `job.status === 'PROCESSING' && job.leaseToken === leaseToken`
abbrev pub holds_lease : ℕ → WalletJob → Bool
holds_lease token j = is_processing j.status && is_token token j.lease_token

-- `managedKeyReference.upsert`: the reference's id and the new table.
unfoldable pub upsert_key :
    ℕ → StoredStellarKey → List ManagedKeyReference → ℕ × List ManagedKeyReference
upsert_key fresh_id m keys =
    elim (find_where (λ k. k.opaque_reference == m.opaque_reference) keys) [
      | none ↦ (
        fresh_id,
        keys
            ++ record {
              id = fresh_id;
              provider = m.provider;
              opaque_reference = m.opaque_reference;
              key_version = m.key_version;
            }
              ∷ [],
      )
      | some k ↦ (
        k.id,
        update_where (λ l. l.opaque_reference == m.opaque_reference)
            (λ l. record l { provider = m.provider; key_version = m.key_version }) keys,
      )
    ]

abbrev is_same : ℕ → Option ℕ → Bool
is_same v none = false
is_same v (some w) = w == v

-- Another wallet with this public key or key reference: the unique indexes refuse the update.
abbrev pub is_taken : ℕ → ℕ → ℕ → List Wallet → Bool
is_taken wallet_id public_key key_id [] = false
is_taken wallet_id public_key key_id (w ∷ ws) =
    if not (w.id == wallet_id) && is_same public_key w.public_key
    then true
    else if not (w.id == wallet_id) && is_same key_id w.managed_key_reference_id
    then true
    else is_taken wallet_id public_key key_id ws

abbrev pub as_active : ℕ → ℕ → ℕ → Wallet → Wallet
as_active public_key key_id now w = record w {
  public_key = some public_key;
  managed_key_reference_id = some key_id;
  status = active;
  failure_code = none;
  provisioned_at = some now;
  status_changed_at = now;
}

abbrev pub as_completed : ℕ → WalletJob → WalletJob
as_completed now j = record j {
  status = completed;
  lease_token = none;
  leased_until = none;
  last_failure_code = none;
  completed_at = some now;
}

-- The writes of `complete`.
unfoldable pub activate : ℕ → StoredStellarKey → ℕ → Wallet → Db → Outcome (Wallet × Db)
unfolding upsert_key
activate fresh_id m now w db =
    let (key_id, keys) = upsert_key fresh_id m db.keys in
    throw_if (is_taken w.id m.public_key key_id db.wallets) unique_violation
    >> ok (
      as_active m.public_key key_id now w,
      record db {
        keys = keys;
        wallets = update_where (λ v. v.id == w.id) (as_active m.public_key key_id now) db.wallets;
        users =
            update_where (λ u. u.id == w.user_id)
              (λ u. record u { wallet_address = some m.public_key }) db.users;
        jobs = update_where (λ j. j.wallet_id == w.id) (as_completed now) db.jobs;
        audit =
            db.audit
            ++ record { user_id = w.user_id; action = wallet_completed; wallet_id = w.id } ∷ [];
      },
    )

-- `complete`, with the id for a new key reference; one transaction.
unfoldable pub complete : ℕ → ℕ → ℕ → StoredStellarKey → ℕ → Db → Outcome (Wallet × Db)
unfolding activate
complete fresh_id wallet_id token m now db = or_throw (find_job wallet_id db) >>= λ j.
    or_throw (find_wallet wallet_id db) >>= λ w.
    if is_active w.status
    then ok (w, db)
    else throw_if (not (holds_lease token j)) lease_lost >> activate fresh_id m now w db

abbrev is_none : Option ℕ → Bool
is_none none = true
is_none (some _) = false

abbrev or_else : ℕ → Option ℕ → ℕ
or_else n none = n
or_else n (some m) = m

abbrev pub as_failed_wallet : FailureCode → Option ℕ → ℕ → Wallet → Wallet
as_failed_wallet code retry_at now w = record w {
  status = if is_none retry_at then failed else retryable;
  failure_code = some code;
  status_changed_at = now;
}

abbrev pub as_failed_job : FailureCode → Option ℕ → ℕ → WalletJob → WalletJob
as_failed_job code retry_at now j = record j {
  status = if is_none retry_at then dead_letter else retry;
  available_at = or_else now retry_at;
  lease_token = none;
  leased_until = none;
  last_failure_code = some code;
}

-- The writes of `recordFailure`.
unfoldable pub write_failure : ℕ → FailureCode → Option ℕ → ℕ → Wallet → Db → Db
write_failure wallet_id code retry_at now w db = record db {
  wallets = update_where (λ v. v.id == wallet_id) (as_failed_wallet code retry_at now) db.wallets;
  jobs = update_where (λ k. k.wallet_id == wallet_id) (as_failed_job code retry_at now) db.jobs;
  audit =
      db.audit
      ++ record {
        user_id = w.user_id;
        action = if is_none retry_at then wallet_failed else wallet_retry_scheduled;
        wallet_id = wallet_id;
      }
        ∷ [];
}

-- `recordFailure`; one transaction. A caller without the lease changes nothing.
unfoldable pub record_failure : ℕ → ℕ → FailureCode → Option ℕ → ℕ → Db → Outcome Db
unfolding write_failure
record_failure wallet_id token code retry_at now db = or_throw (find_job wallet_id db) >>= λ j.
    or_throw (find_wallet wallet_id db) >>= λ w.
    if holds_lease token j then ok (write_failure wallet_id code retry_at now w db) else ok db
