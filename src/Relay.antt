-- ===== src/Relay.antt =====
-- src/workers/outbox-relay.ts: `materializePending`, `replayDeadLetter` and `deadLetterEvents`. Log
-- lines are left out; the clock is read once a run, and the ids of new rows are numbered upwards.
pub mod Dispatch
pub mod Turns
pub mod Settled
pub mod Delivery
pub mod Returns
pub mod Total
pub mod Drained
pub mod Sound
mod Tests
use learnault_api.Base.{
  ℕ, suc, ◌+◌, Bool, true, false, not, ◌&&◌, Option, none, some, List, [], ◌∷◌, ◌==◌, if◌then◌else◌,
  take, map, length,
}
use learnault_api.Base.Result.{Result, ok, throw, ◌>>=◌}
use learnault_api.Base.Table.{filter_where, sort_by, count_where, find_where}
use learnault_api.Jobs.{
  EventStatus, JobStatus, OutboxEvent, JobAttempt, Db, Outcome, is_pending_event, is_dead_letter,
}
use learnault_api.Jobs.Finish.{update_event, event_as_dead_letter, reset_job_for_retry}
use learnault_api.Jobs.Outbox.{JobConfig, create_job_attempts}
use learnault_api.Registry.{EventKey, Handler, Registry, handlers_for, is_empty}

abbrev pub key_of : OutboxEvent → EventKey
key_of e = record { event_type = e.event_type; event_version = e.event_version }

-- `jobAttempts: { none: {} }`
abbrev pub jobs_of : ℕ → Db → ℕ
jobs_of id db = count_where (λ j. j.outbox_event_id == id) db.jobs

abbrev pub is_waiting : Db → OutboxEvent → Bool
is_waiting db e = is_pending_event e.status && jobs_of e.id db == 0

-- The events that one run of `materializePending` reads.
unfoldable pub waiting_events : ℕ → Db → List OutboxEvent
waiting_events batch_size db =
    take batch_size (sort_by (λ e. e.created_at) (filter_where (is_waiting db) db.events))

abbrev pub job_config : Handler → JobConfig
job_config h = record {
  job_type = h.name;
  max_attempts = h.max_attempts;
  backoff_multiplier = h.backoff_multiplier;
  backoff_base_ms = h.backoff_base_ms;
}

-- What a run has counted and written so far.
pub record Progress : Type 0 where
  pub materialized : ℕ
  pub unhandled : ℕ
  pub next_id : ℕ
  pub db : Db

-- One turn of the loop of `materializePending`.
unfoldable pub materialize_event : Registry → ℕ → OutboxEvent → Progress → Outcome Progress
materialize_event registry now e p =
    let handlers = handlers_for (key_of e) registry in
    if is_empty handlers
    then (update_event e.id event_as_dead_letter p.db >>= λ db.
        ok (record p { unhandled = suc p.unhandled; db = db }))
    else ok (record {
      materialized = suc p.materialized;
      unhandled = p.unhandled;
      next_id = p.next_id + length handlers;
      db = create_job_attempts p.next_id now e.id (map job_config handlers) p.db;
    })

unfoldable pub materialize_all : Registry → ℕ → List OutboxEvent → Progress → Outcome Progress
materialize_all registry now [] p = ok p
materialize_all registry now (e ∷ es) p =
    materialize_event registry now e p >>= materialize_all registry now es

-- `materializePending`
unfoldable pub materialize_pending : Registry → ℕ → ℕ → ℕ → Db → Outcome Progress
unfolding waiting_events materialize_all
materialize_pending registry batch_size id now db =
    materialize_all registry now (waiting_events batch_size db)
      (record { materialized = 0; unhandled = 0; next_id = id; db = db })

abbrev pub is_dead_job_of : ℕ → JobAttempt → Bool
is_dead_job_of event_id j = j.outbox_event_id == event_id && is_dead_letter j.status

unfoldable pub reset_all : ℕ → List JobAttempt → Db → Outcome Db
reset_all now [] db = ok db
reset_all now (j ∷ js) db = reset_job_for_retry j.id now db >>= reset_all now js

abbrev pub event_as_pending : OutboxEvent → OutboxEvent
event_as_pending e = record e { status = EventStatus.pending }

-- `replayDeadLetter`. Where a call throws, the resets before it stay; here the error is returned.
unfoldable pub replay_dead_letter : ℕ → ℕ → Db → Outcome (ℕ × Db)
unfolding reset_all update_event
replay_dead_letter event_id now db =
    let jobs = filter_where (is_dead_job_of event_id) db.jobs in
    do
      db' ← reset_all now jobs db
      db'' ← update_event event_id event_as_pending db'
      ok (length jobs, db'')

pub record DeadLetterEvent : Type 0 where
  pub id : ℕ
  pub event_type : ℕ
  pub last_error : Option ℕ

abbrev pub is_dead_letter_event : EventStatus → Bool
is_dead_letter_event EventStatus.dead_letter = true
is_dead_letter_event _ = false

abbrev pub last_error_of : ℕ → Db → Option ℕ
last_error_of event_id db = elim (find_where (is_dead_job_of event_id) db.jobs) [
  | none ↦ none
  | some j ↦ j.last_error
]

-- `deadLetterEvents`
unfoldable pub dead_letter_events : ℕ → Db → List DeadLetterEvent
dead_letter_events limit db =
    map (λ e. record { id = e.id; event_type = e.event_type; last_error = last_error_of e.id db })
      (take limit
        (sort_by (λ e. e.created_at) (filter_where (λ e. is_dead_letter_event e.status) db.events)))
