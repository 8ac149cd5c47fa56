-- ===== src/Jobs/Outbox.antt =====
-- src/lib/transactions/outbox.service.ts. The ids that the service makes from the clock and random
-- digits are arguments.
use learnault_api.Base.{ℕ, suc, ◌&&◌, Option, none, some, List, [], ◌∷◌, ◌++◌, ◌==◌, take}
use mathlib.Core.List.{reverse}
use learnault_api.Base.Table.{find_where, filter_where, sort_by}
use learnault_api.Jobs.{
  EventStatus, JobStatus, OutboxEvent, JobAttempt, Db, Outcome, is_pending_event,
}
use learnault_api.Jobs.Finish.{update_event, as_published, event_as_dead_letter}

pub record CreateOutboxEventOptions : Type 0 where
  pub aggregate_id : ℕ
  pub aggregate_type : ℕ
  pub event_type : ℕ
  pub event_version : ℕ
  pub payload : ℕ
  pub source : Option ℕ
  pub caused_by : Option ℕ

pub record JobConfig : Type 0 where
  pub job_type : ℕ
  pub max_attempts : Option ℕ
  pub backoff_multiplier : Option ℕ
  pub backoff_base_ms : Option ℕ

-- `createEvent`
unfoldable pub create_event : ℕ → ℕ → CreateOutboxEventOptions → Db → Db
create_event id now o db = record db {
  events =
      db.events
      ++ record {
        id = id;
        aggregate_id = o.aggregate_id;
        aggregate_type = o.aggregate_type;
        event_type = o.event_type;
        event_version = o.event_version;
        payload = o.payload;
        status = EventStatus.pending;
        published_at = none;
        source = o.source;
        caused_by = o.caused_by;
        created_at = now;
      }
        ∷ [];
}

abbrev pub or_else : Option ℕ → ℕ → ℕ
or_else none d = d
or_else (some n) d = n

abbrev pub new_job : ℕ → ℕ → ℕ → JobConfig → JobAttempt
new_job id now event_id c = record {
  id = id;
  outbox_event_id = event_id;
  job_type = c.job_type;
  status = JobStatus.pending;
  lease_token = none;
  leased_until = none;
  available_at = now;
  attempt = 0;
  max_attempts = or_else c.max_attempts 3;
  backoff_multiplier = or_else c.backoff_multiplier 2;
  backoff_base_ms = or_else c.backoff_base_ms 1000;
  last_error = none;
  last_attempt_at = none;
  idempotency_key = none;
  completed_at = none;
  result = none;
  created_at = now;
}

-- `createJobAttempts`; the ids of the new rows are numbered from `id`.
unfoldable pub create_job_attempts : ℕ → ℕ → ℕ → List JobConfig → Db → Db
create_job_attempts id now event_id [] db = db
create_job_attempts id now event_id (c ∷ cs) db =
    create_job_attempts (suc id) now event_id cs
      (record db { jobs = db.jobs ++ new_job id now event_id c ∷ [] })

-- `getPendingEvents`
unfoldable pub get_pending_events : ℕ → Db → List OutboxEvent
get_pending_events limit db =
    take limit
      (sort_by (λ e. e.created_at) (filter_where (λ e. is_pending_event e.status) db.events))

-- `markPublished`
unfoldable pub mark_published : ℕ → ℕ → Db → Outcome Db
mark_published id now = update_event id (as_published now)

-- `markDeadLetter`
unfoldable pub mark_dead_letter : ℕ → Db → Outcome Db
mark_dead_letter id = update_event id event_as_dead_letter

abbrev pub event_as_rolled_back : OutboxEvent → OutboxEvent
event_as_rolled_back e = record e { status = EventStatus.rolled_back }

abbrev pub add_rolled_back : ℕ → Option ℕ → ℕ → Db → Db
add_rolled_back id reason now db = record db {
  rolled_back_records =
      db.rolled_back_records ++ record { record_id = id; reason = reason; created_at = now } ∷ [];
}

-- `markRolledBack`. The two writes are no transaction: the marker stays where the second throws.
unfoldable pub mark_rolled_back : ℕ → Option ℕ → ℕ → Db → Outcome Db × Db
mark_rolled_back id reason now db =
    let marked = add_rolled_back id reason now db in
    (update_event id event_as_rolled_back marked, marked)

-- `getEvent`
unfoldable pub get_event : ℕ → Db → Option OutboxEvent
get_event id db = find_where (λ e. e.id == id) db.events

-- `getEventsByAggregate`, newest first.
unfoldable pub get_events_by_aggregate : ℕ → ℕ → ℕ → Db → List OutboxEvent
get_events_by_aggregate id type limit db = take limit (
    reverse (
      sort_by (λ e. e.created_at)
        (filter_where (λ e. e.aggregate_id == id && e.aggregate_type == type) db.events)))
