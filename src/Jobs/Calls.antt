-- ===== src/Jobs/Calls.antt =====
-- job-lease.service.ts: its calls as data, one run to its end before the next, and what it means to hold
-- a job.
use learnault_api.Base.{ℕ, ◌≤◌, ◌≡◌, ◌≢◌, some, List, [], ◌∷◌}
use learnault_api.Base.Result.{ok, throw}
use learnault_api.Base.Table.{All}
use learnault_api.Jobs.{JobStatus, JobAttempt, Db, Outcome}
use learnault_api.Jobs.Lease.{LeaseJobOptions, lease_job, recover_abandoned_leases}
use learnault_api.Jobs.Finish.{JobResult, complete_job, fail_job, reset_job_for_retry}

-- The rows with this id are leased under this token until this time. (The id is the primary key.)
abbrev pub IsHeldRow : ℕ → ℕ → ℕ → JobAttempt → Type 0
IsHeldRow id token until j =
    j.id ≡ id
    → (j.status ≡ JobStatus.leased) × (j.lease_token ≡ some token) × (j.leased_until ≡ some until)

abbrev pub IsHeld : ℕ → ℕ → ℕ → Db → Type 0
IsHeld id token until db = All (IsHeldRow id token until) db.jobs

-- A call of the service by any worker, at a time.
pub data Op : Type 0 where
  lease : LeaseJobOptions → (token now : ℕ) → Op
  complete : (id token : ℕ) → JobResult → (now : ℕ) → Op
  fail : (id token error now : ℕ) → Op
  recover : (now : ℕ) → Op
  reset : (id now : ℕ) → Op

-- A call that throws leaves the database alone.
abbrev pub db_or : Db → Outcome Db → Db
db_or db (ok db') = db'
db_or db (throw e) = db

unfoldable pub run : Op → Db → Db
run (lease o token now) db = (lease_job o token now db).1
run (complete id token r now) db = db_or db (complete_job id token r now db)
run (fail id token error now) db = db_or db (fail_job id token error now db)
run (recover now) db = (recover_abandoned_leases now db).1
run (reset id now) db = db_or db (reset_job_for_retry id now db)

unfoldable pub run_all : List Op → Db → Db
run_all [] db = db
run_all (op ∷ ops) db = run_all ops (run op db)

-- A call that is made before the lease ends, and that does not present its token.
abbrev pub IsOther : ℕ → ℕ → Op → Type 0
IsOther token until (lease o token' now) = now ≤ until
IsOther token until (complete id token' r now) = token' ≢ token
IsOther token until (fail id token' error now) = token' ≢ token
IsOther token until (recover now) = now ≤ until
IsOther token until (reset id now) = Unit
