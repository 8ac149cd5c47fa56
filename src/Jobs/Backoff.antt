-- ===== src/Jobs/Backoff.antt =====
-- job-lease.service.ts: what a reported failure does to its job.
use learnault_api.Base.{
  ℕ, ◌+◌, ◌*◌, ◌^◌, ◌≡◌, refl, false, none, some, ◌==◌, leb, if◌then◌else◌, Bool-cases, inl, inr,
  arith,
}
use learnault_api.Base.Result.{ok}
use learnault_api.Base.Rows.{find_where-update_where}
use learnault_api.Jobs.{JobStatus, JobAttempt, Db}
use learnault_api.Jobs.Lease.{is_ready}
use learnault_api.Jobs.Finish.{find_job, backoff_ms, fail_job}
use learnault_api.Jobs.Finish.Cases.{as_failed, fail_held_job-jobs, fail_job-at}

pub failed_shape :
    (error now : ℕ) (j : JobAttempt)
    → (if leb j.max_attempts (j.attempt + 1)
        then ((as_failed error now j j).status ≡ JobStatus.dead_letter)
          × ((as_failed error now j j).attempt ≡ j.attempt)
        else ((as_failed error now j j).attempt ≡ j.attempt + 1)
          × ((type time : ℕ)
              → is_ready type time (as_failed error now j j) ≡ (
                  if j.job_type == type
                  then leb (now + j.backoff_base_ms * j.backoff_multiplier ^ (j.attempt + 1)) time
                  else false)))
unfolding backoff_ms
failed_shape error now j = elim (Bool-cases (leb j.max_attempts (j.attempt + 1))) [
  | inl e ↦ rw e (refl, refl)
  | inr e ↦ rw e (refl, λ type time. ground arith)
]

-- The outcome of a failure that is accepted for a job: the lease is gone, the job is a dead letter
-- exactly when the attempts are used up, and otherwise one more is counted and the job is ready
-- again after `base * multiplier ^ attempt` milliseconds.
pub fail_job_outcome :
    (id token error now : ℕ) (j : JobAttempt) (db db' : Db)
    → find_job id db ≡ some j
    → fail_job id token error now db ≡ ok db'
    → (j' : JobAttempt) × (find_job id db' ≡ some j')
      × (j'.lease_token ≡ none)
      × (if leb j.max_attempts (j.attempt + 1)
          then (j'.status ≡ JobStatus.dead_letter) × (j'.attempt ≡ j.attempt)
          else (j'.attempt ≡ j.attempt + 1)
            × ((type time : ℕ)
                → is_ready type time j' ≡ (
                    if j.job_type == type
                    then leb (now + j.backoff_base_ms * j.backoff_multiplier ^ (j.attempt + 1)) time
                    else false)))
fail_job_outcome id token error now j db db' found e =
    let (_, held) = fail_job-at id token error now j db db' found e in
    let f = as_failed error now j in
    (
      f j,
      rw
          (
            fail_held_job-jobs error now j db db' held,
            find_where-update_where (λ k. k.id == id) (λ k. k.id == j.id) f db.jobs
                (λ x. ground arith),
            found,
          )
          (ground arith),
      ground arith,
      failed_shape error now j,
    )
