-- ===== src/Wallets/Calls.antt =====
-- wallet-provisioning.repository.ts: its calls as data, by any worker, at a time.
use learnault_api.Base.{ℕ, ◌≢◌, Option}
use learnault_api.Base.Result.{ok, throw}
use learnault_api.Base.Table.{All}
use learnault_api.Wallets.{FailureCode, StoredStellarKey, Wallet, Db, Outcome}
use learnault_api.Wallets.Reserve.{Fresh, reserve_eligible_wallet}
use learnault_api.Wallets.Claim.{claim_candidate}
use learnault_api.Wallets.Finish.{complete, record_failure}

pub data Op : Type 0 where
  reserve : Fresh → (user_id network now : ℕ) → Op
  claim : (job_id token now lease_ms : ℕ) → Op
  finish : (fresh_id wallet_id token : ℕ) → StoredStellarKey → (now : ℕ) → Op
  fail : (wallet_id token : ℕ) → FailureCode → Option ℕ → (now : ℕ) → Op

-- A call that throws leaves the database alone.
abbrev pub db_or : Db → Outcome (Wallet × Db) → Db
db_or db (ok (_, db')) = db'
db_or db (throw e) = db

abbrev pub db_or_same : Db → Outcome Db → Db
db_or_same db (ok db') = db'
db_or_same db (throw e) = db

unfoldable pub run : Op → Db → Db
run (reserve fresh user_id network now) db =
    db_or db (reserve_eligible_wallet fresh user_id network now db)
run (claim job_id token now lease_ms) db = (claim_candidate job_id token now lease_ms db).1
run (finish fresh_id wallet_id token m now) db =
    db_or db (complete fresh_id wallet_id token m now db)
run (fail wallet_id token code retry_at now) db =
    db_or_same db (record_failure wallet_id token code retry_at now db)

-- The ids that a call draws are new: no row has them, and no job belongs to such a wallet.
pub record IsFreshFor (fresh : Fresh) (db : Db) : Type 0 where
  pub new_wallet_id : All (λ w. w.id ≢ fresh.wallet_id) db.wallets
  pub new_job_id : All (λ j. j.id ≢ fresh.job_id) db.jobs
  pub no_job_yet : All (λ j. j.wallet_id ≢ fresh.wallet_id) db.jobs

abbrev pub DrawsFresh : Op → Db → Type 0
DrawsFresh (reserve fresh user_id network now) db = IsFreshFor fresh db
DrawsFresh (claim job_id token now lease_ms) db = Unit
DrawsFresh (finish fresh_id wallet_id token m now) db = Unit
DrawsFresh (fail wallet_id token code retry_at now) db = Unit

infix 40 ◌⟶*◌
-- The databases that sequences of calls reach.
pub data ◌⟶*◌ : Db → Db → Type 0 where
  here : {db : Db} → db ⟶* db
  call : {db db' : Db} → db ⟶* db' → (op : Op) → DrawsFresh op db' → db ⟶* run op db'
