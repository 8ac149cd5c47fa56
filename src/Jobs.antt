-- ===== src/Jobs.antt =====
-- src/lib/transactions/types.ts and the tables of prisma/schema.prisma behind it: outbox events, job
-- attempts, rolled-back records and queue leases. Ids, names, tokens, error texts and JSON payloads
-- are only compared or passed on, so they are numbers; times are milliseconds. The back-off
-- multiplier, a float column, is taken at whole numbers, as its default 2.0 is.
pub mod Lease
pub mod Finish
pub mod Outbox
pub mod QueueLeases
pub mod Held
pub mod Calls
pub mod Exclusive
pub mod Pieces
pub mod Overlap
pub mod Backoff
pub mod Attempts
pub mod Publish
pub mod RolledBack
mod Tests
use learnault_api.Base.{ℕ, Bool, true, false, Option, none, some, List, [], ◌==◌}
use learnault_api.Base.Result.{Result}

-- `OutboxEventStatus`
pub data EventStatus : Type 0 where
  pending processing published dead_letter rolled_back : EventStatus

-- `JobAttemptStatus`
pub data JobStatus : Type 0 where
  pending leased completed failed dead_letter rolled_back : JobStatus

-- `OutboxEvent`
pub record OutboxEvent : Type 0 where
  pub id : ℕ
  pub aggregate_id : ℕ
  pub aggregate_type : ℕ
  pub event_type : ℕ
  pub event_version : ℕ
  pub payload : ℕ
  pub status : EventStatus
  pub published_at : Option ℕ
  pub source : Option ℕ
  pub caused_by : Option ℕ
  pub created_at : ℕ

-- `JobAttempt`
pub record JobAttempt : Type 0 where
  pub id : ℕ
  pub outbox_event_id : ℕ
  pub job_type : ℕ
  pub status : JobStatus
  pub lease_token : Option ℕ
  pub leased_until : Option ℕ
  pub available_at : ℕ
  pub attempt : ℕ
  pub max_attempts : ℕ
  pub backoff_multiplier : ℕ
  pub backoff_base_ms : ℕ
  pub last_error : Option ℕ
  pub last_attempt_at : Option ℕ
  pub idempotency_key : Option ℕ
  pub completed_at : Option ℕ
  pub result : Option ℕ
  pub created_at : ℕ

-- `RolledBackRecord` of an event.
pub record RolledBackRecord : Type 0 where
  pub record_id : ℕ
  pub reason : Option ℕ
  pub created_at : ℕ

-- A row of `queue_leases`.
pub record QueueLease : Type 0 where
  pub queue_name : ℕ
  pub lease_token : Option ℕ
  pub leased_until : Option ℕ
  pub owner : Option ℕ
  pub last_tick_at : Option ℕ

pub record Db : Type 0 where
  pub jobs : List JobAttempt
  pub events : List OutboxEvent
  pub rolled_back_records : List RolledBackRecord
  pub queue_leases : List QueueLease

-- What the services throw. A unique index refuses a second row with the same idempotency key, and
-- an update by id refuses a row that is not there.
pub data JobError : Type 0 where
  lease_mismatch job_not_found not_dead_letter duplicate_key event_not_found : JobError

abbrev pub Outcome : Type 0 → Type 0
Outcome A = Result JobError A

abbrev pub is_pending : JobStatus → Bool
is_pending JobStatus.pending = true
is_pending _ = false

abbrev pub is_leased : JobStatus → Bool
is_leased JobStatus.leased = true
is_leased _ = false

abbrev pub is_completed : JobStatus → Bool
is_completed JobStatus.completed = true
is_completed _ = false

abbrev pub is_dead_letter : JobStatus → Bool
is_dead_letter JobStatus.dead_letter = true
is_dead_letter _ = false

abbrev pub is_pending_event : EventStatus → Bool
is_pending_event EventStatus.pending = true
is_pending_event _ = false

-- `column = value`, which a null never satisfies.
abbrev pub is_value : Option ℕ → ℕ → Bool
is_value none v = false
is_value (some w) v = w == v

abbrev pub or_zero : Option ℕ → ℕ
or_zero none = 0
or_zero (some n) = n
