-- ===== src/Jobs/Tests.antt =====
-- The queue of jobs on concrete inputs, and its theorems applied.
use learnault_api.Base.{
  List, ◌≤◌, ℕ, ◌+◌, ◌*◌, ◌^◌, ◌≡◌, ◌≢◌, refl, false, none, some, [], ◌∷◌, ◌==◌, leb, if◌then◌else◌,
  arith,
}
use learnault_api.Base.Result.{ok}
use learnault_api.Jobs.{EventStatus, JobStatus, OutboxEvent, JobAttempt, Db}
use learnault_api.Jobs.Lease.{
  LeaseJobOptions, LeaseJobResult, job_to_lease, take_lease, lease_job, is_ready,
}
use learnault_api.Jobs.Finish.{
  JobResult, complete_job, publish_if_done, update_event, fail_job, fail_held_job, backoff_ms,
  find_job,
}
use learnault_api.Jobs.Outbox.{mark_rolled_back}
use learnault_api.Jobs.QueueLeases.{AcquireQueueLeaseOptions, acquire_queue_lease, lease_result}
use learnault_api.Jobs.QueueLeases.Calls
use learnault_api.Jobs.QueueLeases.Mutex.{acquire_queue_lease_exclusive}
use learnault_api.Jobs.Pieces.{Open, resetting, Live, reset_writes, Run, here, next}
use learnault_api.Jobs.Overlap.{IsSafe, take_lease_exclusive}
use learnault_api.Jobs.Lease.{lease_ms}
use learnault_api.Jobs.Finish.{write_reset}
use learnault_api.Jobs.Calls.{lease, recover, run_all}
use learnault_api.Jobs.Attempts.{attempts_of, leases_never_count}
use learnault_api.Jobs.Backoff.{fail_job_outcome}
use learnault_api.Jobs.RolledBack.{leased_id, mark_rolled_back_leases}

abbrev event : OutboxEvent
event = record {
  id = 10;
  aggregate_id = 1;
  aggregate_type = 1;
  event_type = 3;
  event_version = 1;
  payload = 42;
  status = EventStatus.pending;
  published_at = none;
  source = none;
  caused_by = none;
  created_at = 0;
}

abbrev job : ℕ → JobAttempt
job id = record {
  id = id;
  outbox_event_id = 10;
  job_type = 5;
  status = JobStatus.pending;
  lease_token = none;
  leased_until = none;
  available_at = 0;
  attempt = 0;
  max_attempts = 3;
  backoff_multiplier = 2;
  backoff_base_ms = 1000;
  last_error = none;
  last_attempt_at = none;
  idempotency_key = none;
  completed_at = none;
  result = none;
  created_at = id;
}

abbrev leased_job : JobAttempt
leased_job = record (job 1) {
  status = JobStatus.leased;
  lease_token = some 7;
  leased_until = some 30_100;
  last_attempt_at = some 100;
}

abbrev db : Db
db = record {
  jobs = job 1 ∷ job 2 ∷ [];
  events = event ∷ [];
  rolled_back_records = [];
  queue_leases = [];
}

abbrev leased_db : Db
leased_db = record db { jobs = leased_job ∷ job 2 ∷ [] }

abbrev options : LeaseJobOptions
options = record { job_type = 5; max_lease_ms = none }

abbrev first_lease : LeaseJobResult
first_lease = record {
  job_id = 1;
  lease_token = 7;
  leased_until = 30_100;
  attempt = 0;
  payload = some 42;
}

leases_oldest : lease_job options 7 100 db ≡ (some first_lease, leased_db)
unfolding lease_job take_lease job_to_lease
leases_oldest = refl

abbrev answer : JobResult
answer = record { idempotency_key = some 77; result = some 1 }

abbrev completed_job : JobAttempt
completed_job = record leased_job {
  status = JobStatus.completed;
  completed_at = some 500;
  idempotency_key = some 77;
  result = some 1;
  lease_token = none;
  leased_until = none;
}

abbrev completed_db : Db
completed_db = record db { jobs = completed_job ∷ job 2 ∷ [] }

completes : complete_job 1 7 answer 500 leased_db ≡ ok completed_db
unfolding complete_job publish_if_done
completes = refl

abbrev retry_job : JobAttempt
retry_job = record (job 1) {
  last_attempt_at = some 100;
  attempt = 1;
  available_at = 2_500;
  last_error = some 4;
}

abbrev failed_db : Db
failed_db = record db { jobs = retry_job ∷ job 2 ∷ [] }

fails : fail_job 1 7 4 500 leased_db ≡ ok failed_db
unfolding fail_job fail_held_job backoff_ms
fails = refl

fail_job_outcome_example :
    (j : JobAttempt) × (find_job 1 failed_db ≡ some j)
    × (j.lease_token ≡ none)
    × ((j.attempt ≡ 1)
        × ((type time : ℕ)
            → is_ready type time j ≡ (if 5 == type then leb (500 + 1000 * 2 ^ 1) time else false)))
fail_job_outcome_example = fail_job_outcome 1 7 4 500 leased_job leased_db failed_db refl fails

leases_never_count_example :
    attempts_of (run_all (lease options 7 100 ∷ recover 40_000 ∷ []) db) ≡ 0 ∷ 0 ∷ []
leases_never_count_example =
    leases_never_count (lease options 7 100 ∷ recover 40_000 ∷ []) db (tt, (tt, tt))

marks :
    (mark_rolled_back 10 none 50 db).0
    ≡ ok (record db {
      events = record event { status = EventStatus.rolled_back } ∷ [];
      rolled_back_records = record { record_id = 10; reason = none; created_at = 50 } ∷ [];
    })
unfolding mark_rolled_back update_event
marks = refl

mark_rolled_back_leases_example :
    leased_id
      (lease_job options 7 100 (record db {
        events = record event { status = EventStatus.rolled_back } ∷ [];
        rolled_back_records = record { record_id = 10; reason = none; created_at = 50 } ∷ [];
      })).0
    ≡ leased_id (lease_job options 7 100 db).0
mark_rolled_back_leases_example = mark_rolled_back_leases 10 none 50 options 7 100 db _ marks

abbrev queue_options : AcquireQueueLeaseOptions
queue_options = record { queue_name = 3; lease_ms = none; owner = some 1 }

acquires :
    (acquire_queue_lease queue_options 21 100 db).0 ≡ some (lease_result queue_options 21 100)
unfolding acquire_queue_lease
acquires = refl

acquire_queue_lease_exclusive_example :
    (acquire_queue_lease queue_options 22 50_000 (
      Calls.run_all (Calls.release 3 5 200 ∷ []) (acquire_queue_lease queue_options 21 100 db).1)).0
    ≡ none
acquire_queue_lease_exclusive_example =
    acquire_queue_lease_exclusive queue_options queue_options 21 100 22 50_000 db
      (lease_result queue_options 21 100) (Calls.release 3 5 200 ∷ []) acquires
      ((λ e. absurd (ground arith)), tt) refl (omega arith)

-- The job is leased while a reset of another job is under way; an expired lease is looked for.
abbrev resetting_other : List Open
resetting_other = resetting 2 ∷ []

abbrev after_lease : Live
after_lease = record {
  db = (take_lease 7 (100 + lease_ms options) 100 (job 1) db).1;
  calls = resetting_other;
}

abbrev quiet_run : Run after_lease (record { db = write_reset 2 300 after_lease.db; calls = [] })
quiet_run = next here (reset_writes 2 300 [] [] refl)

take_lease_exclusive_example :
    IsSafe 1 7 30_100 (record { db = write_reset 2 300 after_lease.db; calls = [] })
    × ((type now' : ℕ) (k : JobAttempt)
        → now' ≤ 30_100
        → job_to_lease type now' (write_reset 2 300 after_lease.db) ≡ some k
        → k.id ≢ 1)
take_lease_exclusive_example =
    take_lease_exclusive options 7 100 (job 1) db resetting_other
      (record { db = write_reset 2 300 after_lease.db; calls = [] }) quiet_run ((λ same. cc), tt)
      (tt, tt)
