-- ===== src/Scheduler.antt =====
-- src/workers/queue-metrics.ts and the ticks of src/workers/scheduled-job-runner.ts, over the queue
-- leases of Jobs. Queue names, error texts and owners are numbers; times are milliseconds.
pub mod Runner
pub mod OneTick
pub mod Ticks
mod Tests
use learnault_api.Base.{
  ℕ, suc, ◌+◌, ◌-◌, ◌*◌, ◌/◌, Bool, true, false, Option, none, some, List, [], ◌∷◌, ◌++◌, ltb, ◌==◌,
  if◌then◌else◌,
}
use learnault_api.Base.Table.{find_where, update_where}
use learnault_api.Jobs.{Db}
use learnault_api.Jobs.QueueLeases.{
  AcquireQueueLeaseOptions, QueueLeaseResult, acquire_queue_lease, renew_queue_lease,
  release_queue_lease,
}

-- `TickOutcome`
pub data TickOutcome : Type 0 where
  ran skipped failed : TickOutcome

-- `QueueDepthSnapshot`
pub record Depth : Type 0 where
  pub depth : ℕ
  pub due : ℕ
  pub oldest_due_at : Option ℕ

-- `QueueTickSample`
pub record Sample : Type 0 where
  pub queue : ℕ
  pub outcome : TickOutcome
  pub duration_ms : ℕ
  pub depth : ℕ
  pub due : ℕ
  pub lag_ms : ℕ
  pub error : Option ℕ

-- `QueueMetricsSnapshot`
pub record Metrics : Type 0 where
  pub queue : ℕ
  pub attempts : ℕ
  pub failures : ℕ
  pub skips : ℕ
  pub depth : ℕ
  pub due : ℕ
  pub lag_ms : ℕ
  pub last_duration_ms : ℕ
  pub last_run_at : Option ℕ
  pub last_error : Option ℕ

-- `emptyMetrics`
abbrev pub empty_metrics : ℕ → Metrics
empty_metrics queue = record {
  queue = queue;
  attempts = 0;
  failures = 0;
  skips = 0;
  depth = 0;
  due = 0;
  lag_ms = 0;
  last_duration_ms = 0;
  last_run_at = none;
  last_error = none;
}

abbrev unknown_error : ℕ
unknown_error = 0

abbrev or_unknown : Option ℕ → ℕ
or_unknown none = unknown_error
or_unknown (some e) = e

-- The counters and the last error, by the outcome.
abbrev pub count_outcome : TickOutcome → Option ℕ → ℕ → Metrics → Metrics
count_outcome skipped error now m = record m { skips = suc m.skips }
count_outcome failed error now m = record m {
  attempts = suc m.attempts;
  last_run_at = some now;
  failures = suc m.failures;
  last_error = some (or_unknown error);
}
count_outcome ran error now m = record m {
  attempts = suc m.attempts;
  last_run_at = some now;
  last_error = none;
}

abbrev pub metrics_or_empty : ℕ → Option Metrics → Metrics
metrics_or_empty queue none = empty_metrics queue
metrics_or_empty queue (some m) = m

-- `this.queues.get(queue) ?? emptyMetrics(queue)`
abbrev pub metrics_of : ℕ → List Metrics → Metrics
metrics_of queue ms = metrics_or_empty queue (find_where (λ m. m.queue == queue) ms)

-- `this.queues.set(queue, next)`
unfoldable pub set_metrics : ℕ → Metrics → List Metrics → List Metrics
set_metrics queue next [] = next ∷ []
set_metrics queue next (m ∷ ms) =
    if m.queue == queue then next ∷ ms else m ∷ set_metrics queue next ms

abbrev pub next_metrics : Sample → ℕ → Metrics → Metrics
next_metrics s now m =
    count_outcome s.outcome s.error now (record m {
      depth = s.depth;
      due = s.due;
      lag_ms = s.lag_ms;
      last_duration_ms = s.duration_ms;
    })

-- `QueueMetricsRegistry.record`
unfoldable pub record_sample : Sample → ℕ → List Metrics → List Metrics
unfolding set_metrics
record_sample s now ms = set_metrics s.queue (next_metrics s now (metrics_of s.queue ms)) ms

-- What one tick meets: the times that it reads, the depth probe, which may fail, the options of the
-- lease, the fresh token, the faults of the lease service, and the times of the heartbeat.
pub record Tick : Type 0 where
  pub queue : ℕ
  pub now : ℕ
  pub started_at : ℕ
  pub ended_at : ℕ
  pub probe : Option Depth
  pub lease_ms : ℕ
  pub owner : ℕ
  pub token : ℕ
  pub acquire_error : Option ℕ
  pub is_release_lost : Bool
  pub heartbeats : List ℕ

abbrev empty_depth : Depth
empty_depth = record { depth = 0; due = 0; oldest_due_at = none }

-- `inspect`, whose errors are swallowed.
abbrev pub inspected : Option Depth → Depth
inspected none = empty_depth
inspected (some d) = d

-- `Math.max(0, now - oldestDueAt)`
abbrev pub lag_of : ℕ → Option ℕ → ℕ
lag_of now none = 0
lag_of now (some at) = now - at

abbrev pub sample_of : Tick → TickOutcome → ℕ → Option ℕ → Sample
sample_of t outcome duration error =
    let d = inspected t.probe in
    record {
      queue = t.queue;
      outcome = outcome;
      duration_ms = duration;
      depth = d.depth;
      due = d.due;
      lag_ms = lag_of t.now d.oldest_due_at;
      error = error;
    }

abbrev pub lease_options : Tick → AcquireQueueLeaseOptions
lease_options t = record { queue_name = t.queue; lease_ms = some t.lease_ms; owner = some t.owner }

-- The renewals of the heartbeat, with the lease's token.
unfoldable pub heartbeat : Tick → ℕ → List ℕ → Db → Db
heartbeat t token [] db = db
heartbeat t token (at ∷ ats) db =
    heartbeat t token ats (renew_queue_lease t.queue token (some t.lease_ms) at db).1

-- The end of a tick that holds the lease: what it recorded, and the release.
unfoldable pub finish_tick :
    Tick → ℕ → TickOutcome → Option ℕ → Db × List Metrics → TickOutcome × Db × List Metrics
unfolding record_sample
finish_tick t token outcome error (db, ms) = (
  outcome,
  if t.is_release_lost then db else (release_queue_lease t.queue token t.ended_at db).1,
  record_sample (sample_of t outcome (t.ended_at - t.started_at) error) t.ended_at ms,
)

abbrev pub outcome_of : Option ℕ → TickOutcome
outcome_of none = ran
outcome_of (some e) = failed

-- `runQueue` after the call of `acquireQueueLease`, with the queue's `drain`: an error or none, and what
-- it made of the database.
unfoldable pub after_acquire :
    (Db → Option ℕ × Db)
    → Tick
    → List Metrics
    → Option QueueLeaseResult × Db
    → TickOutcome × Db × List Metrics
unfolding heartbeat finish_tick
after_acquire drain t ms (none, held) =
    (skipped, held, record_sample (sample_of t skipped 0 none) t.now ms)
after_acquire drain t ms (some l, held) =
    let (error, drained) = drain held in
    finish_tick t l.lease_token (outcome_of error) error
      (heartbeat t l.lease_token t.heartbeats drained, ms)

-- `runQueue`, by the error of the call of `acquireQueueLease`.
unfoldable pub start_tick :
    (Db → Option ℕ × Db) → Tick → Db × List Metrics → Option ℕ → TickOutcome × Db × List Metrics
unfolding after_acquire
start_tick drain t (db, ms) (some e) =
    (failed, db, record_sample (sample_of t failed 0 (some e)) t.now ms)
start_tick drain t (db, ms) none =
    after_acquire drain t ms (acquire_queue_lease (lease_options t) t.token t.now db)

-- `runQueue`
unfoldable pub run_queue :
    (Db → Option ℕ × Db) → Tick → Db × List Metrics → TickOutcome × Db × List Metrics
unfolding start_tick
run_queue drain t state = start_tick drain t state t.acquire_error
