-- ===== src/Jobs/Pieces.antt =====
-- job-lease.service.ts: the calls cut between a read and the write that follows it. `leaseJob`, `failJob`
-- and `resetJobForRetry` update the row that they read by its id alone, and nothing keeps other calls
-- from running in between.
use learnault_api.Base.{ℕ, ◌+◌, ◌≤◌, ◌≡◌, ◌≢◌, true, some, List, ◌∷◌, ◌++◌}
use learnault_api.Base.Result.{ok}
use learnault_api.Jobs.{JobAttempt, Db, is_value, is_dead_letter}
use learnault_api.Jobs.Lease.{
  LeaseJobOptions, lease_ms, job_to_lease, take_lease, recover_abandoned_leases,
}
use learnault_api.Jobs.Finish.{JobResult, find_job, complete_job, fail_held_job, write_reset}

-- A call that has read a row and not written it yet.
pub data Open : Type 0 where
  leasing : LeaseJobOptions → (token now : ℕ) → JobAttempt → Open
  failing : (error : ℕ) → JobAttempt → Open
  resetting : ℕ → Open

-- The job that the call is about to write.
abbrev pub job_of : Open → ℕ
job_of (leasing o token now j) = j.id
job_of (failing error j) = j.id
job_of (resetting id) = id

-- The database, and the calls that are between their read and their write.
pub record Live : Type 0 where
  pub db : Db
  pub calls : List Open

pub data Step (s : Live) : Live → Type 0 where
  lease_reads :
      (o : LeaseJobOptions) (token now : ℕ) (j : JobAttempt)
      → job_to_lease o.job_type now s.db ≡ some j
      → Step s (record { db = s.db; calls = leasing o token now j ∷ s.calls })
  lease_writes :
      (o : LeaseJobOptions) (token now : ℕ) (j : JobAttempt) (xs ys : List Open)
      → s.calls ≡ xs ++ leasing o token now j ∷ ys
      → Step s
          (record { db = (take_lease token (now + lease_ms o) now j s.db).1; calls = xs ++ ys })
  fail_reads :
      (id token error : ℕ) (j : JobAttempt)
      → find_job id s.db ≡ some j
      → is_value j.lease_token token ≡ true
      → Step s (record { db = s.db; calls = failing error j ∷ s.calls })
  fail_writes :
      (error now : ℕ) (j : JobAttempt) (db' : Db) (xs ys : List Open)
      → s.calls ≡ xs ++ failing error j ∷ ys
      → fail_held_job error now j s.db ≡ ok db'
      → Step s (record { db = db'; calls = xs ++ ys })
  reset_reads :
      (id : ℕ) (j : JobAttempt)
      → find_job id s.db ≡ some j
      → is_dead_letter j.status ≡ true
      → Step s (record { db = s.db; calls = resetting id ∷ s.calls })
  reset_writes :
      (id now : ℕ) (xs ys : List Open)
      → s.calls ≡ xs ++ resetting id ∷ ys
      → Step s (record { db = write_reset id now s.db; calls = xs ++ ys })
  completes :
      (id token : ℕ) (r : JobResult) (now : ℕ) (db' : Db)
      → complete_job id token r now s.db ≡ ok db'
      → Step s (record { db = db'; calls = s.calls })
  recovers :
      (now : ℕ) → Step s (record { db = (recover_abandoned_leases now s.db).1; calls = s.calls })

pub data Run (s : Live) : Live → Type 0 where
  here : Run s s
  next : {t u : Live} → Run s t → Step t u → Run s u

-- A step that starts before the lease ends, and that does not present its token.
abbrev pub ByOther : ℕ → ℕ → {s t : Live} → Step s t → Type 0
ByOther token until (lease_reads o token' now j e) = now ≤ until
ByOther token until (lease_writes o token' now j xs ys e) = Unit
ByOther token until (fail_reads id token' error j e h) = token' ≢ token
ByOther token until (fail_writes error now j db' xs ys e h) = Unit
ByOther token until (reset_reads id j e h) = Unit
ByOther token until (reset_writes id now xs ys e) = Unit
ByOther token until (completes id token' r now db' e) = token' ≢ token
ByOther token until (recovers now) = now ≤ until

abbrev pub AllByOther : ℕ → ℕ → {s t : Live} → Run s t → Type 0
AllByOther token until here = Unit
AllByOther token until (next path step) = AllByOther token until path × ByOther token until step
