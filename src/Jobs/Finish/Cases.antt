-- ===== src/Jobs/Finish/Cases.antt =====
-- job-lease.service.ts: what a call that ends a lease found, and what it did to the job table.
use learnault_api.Base.{
  ℕ, ◌+◌, ◌≡◌, ◌≢◌, true, some, ◌==◌, leb, if◌then◌else◌, Option-cases, Bool-cases, inl, inr, arith,
}
use learnault_api.Base.Result.{ok}
use learnault_api.Base.Table.{update_where, count_where}
use learnault_api.Jobs.{OutboxEvent, JobAttempt, Db, is_value, is_dead_letter}
use learnault_api.Jobs.Finish.{
  JobResult, find_job, update_event, holds_lease, as_completed, publish_if_done, complete_job,
  as_dead_letter, as_retry, backoff_ms, update_job, event_as_dead_letter, fail_held_job, fail_job,
  as_reset, reset_job_for_retry,
}

pub update_event-jobs :
    (e : ℕ) (f : OutboxEvent → OutboxEvent) (db db' : Db)
    → update_event e f db ≡ ok db'
    → db'.jobs ≡ db.jobs
unfolding update_event
update_event-jobs e f db db' h = ground arith

pub publish_if_done-jobs :
    (id now : ℕ) (db db' : Db) → publish_if_done id now db ≡ ok db' → db'.jobs ≡ db.jobs
unfolding publish_if_done update_event
publish_if_done-jobs id now db db' h = ground arith

pub complete_job-found :
    (id token : ℕ) (r : JobResult) (now : ℕ) (db db' : Db)
    → complete_job id token r now db ≡ ok db'
    → (count_where (holds_lease id token) db.jobs ≢ 0)
      × (publish_if_done id now
            (record db { jobs = update_where (holds_lease id token) (as_completed r now) db.jobs })
          ≡ ok db')
unfolding complete_job
complete_job-found id token r now db db' h = ground arith

pub complete_job-jobs :
    (id token : ℕ) (r : JobResult) (now : ℕ) (db db' : Db)
    → complete_job id token r now db ≡ ok db'
    → db'.jobs ≡ update_where (holds_lease id token) (as_completed r now) db.jobs
complete_job-jobs id token r now db db' h =
    publish_if_done-jobs id now _ db' (complete_job-found id token r now db db' h).1

-- The job as `failJob` leaves it.
abbrev pub as_failed : ℕ → ℕ → JobAttempt → JobAttempt → JobAttempt
as_failed error now j =
    if leb j.max_attempts (j.attempt + 1)
    then as_dead_letter error
    else as_retry (j.attempt + 1) (now + backoff_ms j (j.attempt + 1)) error

pub fail_held_job-jobs :
    (error now : ℕ) (j : JobAttempt) (db db' : Db)
    → fail_held_job error now j db ≡ ok db'
    → db'.jobs ≡ update_where (λ k. k.id == j.id) (as_failed error now j) db.jobs
unfolding fail_held_job
fail_held_job-jobs error now j db db' h = elim (Bool-cases (leb j.max_attempts (j.attempt + 1))) [
  | inl e ↦ rw e (
      update_event-jobs j.outbox_event_id event_as_dead_letter
        (update_job j.id (as_dead_letter error) db) db' (ground arith))
  | inr e ↦ rw e (ground arith)
]

pub fail_job-at :
    (id token error now : ℕ) (j : JobAttempt) (db db' : Db)
    → find_job id db ≡ some j
    → fail_job id token error now db ≡ ok db'
    → (is_value j.lease_token token ≡ true) × (fail_held_job error now j db ≡ ok db')
unfolding fail_job
fail_job-at id token error now j db db' found h = (ground arith, ground arith)

pub fail_job-found :
    (id token error now : ℕ) (db db' : Db)
    → fail_job id token error now db ≡ ok db'
    → (j : JobAttempt) × (find_job id db ≡ some j)
      × (is_value j.lease_token token ≡ true)
      × (fail_held_job error now j db ≡ ok db')
unfolding fail_job
fail_job-found id token error now db db' h = elim (Option-cases (find_job id db)) [
  | inl e ↦ absurd (ground arith)
  | inr (j, e) ↦ (j, e, ground arith, ground arith)
]

pub reset_job-found :
    (id now : ℕ) (db db' : Db)
    → reset_job_for_retry id now db ≡ ok db'
    → (j : JobAttempt) × (find_job id db ≡ some j)
      × (is_dead_letter j.status ≡ true)
      × (db' ≡ update_job id (as_reset now) db)
unfolding reset_job_for_retry
reset_job-found id now db db' h = elim (Option-cases (find_job id db)) [
  | inl e ↦ absurd (ground arith)
  | inr (j, e) ↦ (j, e, ground arith, ground arith)
]
