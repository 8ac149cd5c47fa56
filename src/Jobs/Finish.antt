-- ===== src/Jobs/Finish.antt =====
-- src/lib/transactions/job-lease.service.ts: `completeJob`, `failJob`, `resetJobForRetry` and the two
-- lists for inspection.
pub mod Cases
use learnault_api.Base.{
  ℕ, suc, ◌+◌, ◌*◌, ◌^◌, Bool, true, false, not, ◌&&◌, Option, none, some, List, ltb, leb, ◌==◌,
  if◌then◌else◌, take,
}
use learnault_api.Base.Result.{ok, throw, ◌>>=◌, ◌>>◌, throw_if}
use learnault_api.Base.Table.{find_where, update_where, filter_where, count_where, sort_by}
use learnault_api.Jobs.{
  EventStatus, JobStatus, OutboxEvent, JobAttempt, Db, lease_mismatch, job_not_found,
  not_dead_letter, duplicate_key, event_not_found, Outcome, is_completed, is_dead_letter, is_value,
}

pub record JobResult : Type 0 where
  pub idempotency_key : Option ℕ
  pub result : Option ℕ

abbrev pub find_job : ℕ → Db → Option JobAttempt
find_job id db = find_where (λ j. j.id == id) db.jobs

-- `outboxEvent.update`, which throws where there is no such row.
unfoldable pub update_event : ℕ → (OutboxEvent → OutboxEvent) → Db → Outcome Db
update_event id f db = elim (find_where (λ e. e.id == id) db.events) [
  | none ↦ throw event_not_found
  | some _ ↦ ok (record db { events = update_where (λ e. e.id == id) f db.events })
]

abbrev pub as_completed : JobResult → ℕ → JobAttempt → JobAttempt
as_completed r now j = record j {
  status = JobStatus.completed;
  completed_at = some now;
  idempotency_key = r.idempotency_key;
  result = r.result;
  lease_token = none;
  leased_until = none;
}

abbrev pub holds_lease : ℕ → ℕ → JobAttempt → Bool
holds_lease id token j = j.id == id && is_value j.lease_token token

abbrev is_key : Option ℕ → ℕ → JobAttempt → Bool
is_key none id j = false
is_key (some k) id j = not (j.id == id) && is_value j.idempotency_key k

abbrev is_unfinished_of : ℕ → JobAttempt → Bool
is_unfinished_of event_id j = j.outbox_event_id == event_id && not (is_completed j.status)

abbrev pub unfinished : ℕ → Db → ℕ
unfinished event_id db = count_where (is_unfinished_of event_id) db.jobs

abbrev pub as_published : ℕ → OutboxEvent → OutboxEvent
as_published now e = record e { status = EventStatus.published; published_at = some now }

-- The end of `completeJob`: the event is published when none of its jobs is unfinished.
unfoldable pub publish_if_done : ℕ → ℕ → Db → Outcome Db
publish_if_done id now db = elim (find_job id db) [
  | none ↦ ok db
  | some j ↦
      if unfinished j.outbox_event_id db == 0
      then update_event j.outbox_event_id (as_published now) db
      else ok db
]

-- `completeJob`: its first write is one conditional statement, and an error leaves the database alone.
unfoldable pub complete_job : ℕ → ℕ → JobResult → ℕ → Db → Outcome Db
complete_job id token r now db =
    let jobs = update_where (holds_lease id token) (as_completed r now) db.jobs in
    do
      throw_if (count_where (holds_lease id token) db.jobs == 0) lease_mismatch
      throw_if (not (count_where (is_key r.idempotency_key id) db.jobs == 0)) duplicate_key
      publish_if_done id now (record db { jobs = jobs })

abbrev pub as_dead_letter : ℕ → JobAttempt → JobAttempt
as_dead_letter error j = record j {
  status = JobStatus.dead_letter;
  last_error = some error;
  lease_token = none;
  leased_until = none;
}

abbrev pub as_retry : ℕ → ℕ → ℕ → JobAttempt → JobAttempt
as_retry next available error j = record j {
  status = JobStatus.pending;
  attempt = next;
  available_at = available;
  last_error = some error;
  lease_token = none;
  leased_until = none;
}

-- `job.backoffBaseMs * Math.pow(job.backoffMultiplier, nextAttempt)`
unfoldable pub backoff_ms : JobAttempt → ℕ → ℕ
backoff_ms j next = j.backoff_base_ms * j.backoff_multiplier ^ next

abbrev pub update_job : ℕ → (JobAttempt → JobAttempt) → Db → Db
update_job id f db = record db { jobs = update_where (λ j. j.id == id) f db.jobs }

abbrev pub event_as_dead_letter : OutboxEvent → OutboxEvent
event_as_dead_letter e = record e { status = EventStatus.dead_letter }

-- What `failJob` does to a job whose lease was checked.
unfoldable pub fail_held_job : ℕ → ℕ → JobAttempt → Db → Outcome Db
unfolding update_event backoff_ms
fail_held_job error now j db =
    let next = j.attempt + 1 in
    if leb j.max_attempts next
    then update_event j.outbox_event_id event_as_dead_letter
        (update_job j.id (as_dead_letter error) db)
    else ok (update_job j.id (as_retry next (now + backoff_ms j next) error) db)

-- `failJob`, with no other call between its read and its writes; an error leaves the database alone.
unfoldable pub fail_job : ℕ → ℕ → ℕ → ℕ → Db → Outcome Db
fail_job id token error now db = elim (find_job id db) [
  | none ↦ throw job_not_found
  | some j ↦
      if is_value j.lease_token token then fail_held_job error now j db else throw lease_mismatch
]

abbrev pub as_reset : ℕ → JobAttempt → JobAttempt
as_reset now j = record j {
  status = JobStatus.pending;
  attempt = 0;
  available_at = now;
  last_error = none;
}

-- The second query of `resetJobForRetry`: it looks at the id alone.
abbrev pub write_reset : ℕ → ℕ → Db → Db
write_reset id now db = update_job id (as_reset now) db

-- `resetJobForRetry`, with no other call between its read and its write.
unfoldable pub reset_job_for_retry : ℕ → ℕ → Db → Outcome Db
reset_job_for_retry id now db = elim (find_job id db) [
  | none ↦ throw job_not_found
  | some j ↦ if is_dead_letter j.status then ok (write_reset id now db) else throw not_dead_letter
]

-- `getDeadLetterJobs`
unfoldable pub get_dead_letter_jobs : ℕ → Db → List JobAttempt
get_dead_letter_jobs limit db =
    take limit (sort_by (λ j. j.created_at) (filter_where (λ j. is_dead_letter j.status) db.jobs))

-- `getJobsForEvent`
unfoldable pub get_jobs_for_event : ℕ → Db → List JobAttempt
get_jobs_for_event event_id db =
    sort_by (λ j. j.created_at) (filter_where (λ j. j.outbox_event_id == event_id) db.jobs)
