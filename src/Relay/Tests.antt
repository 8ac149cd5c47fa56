-- ===== src/Relay/Tests.antt =====
-- The relay on concrete inputs, and its theorems applied.
use learnault_api.Base.{◌++◌, ◌+◌, ◌*◌, ◌≤◌, ◌≡◌, refl, none, some, [], ◌∷◌, ◌==◌, length}
use learnault_api.Base.Result.{ok}
use learnault_api.Base.Table.{All}
use learnault_api.Jobs.{EventStatus, JobStatus, OutboxEvent, Db}
use learnault_api.Jobs.Lease.{lease_job, job_to_lease, take_lease}
use learnault_api.Jobs.Finish.{complete_job, publish_if_done, update_event}
use learnault_api.Jobs.Outbox.{new_job, create_job_attempts}
use learnault_api.Registry.{
  EventKey, Handler, Registry, handlers_for, handlers_at, handler_by_name, get_name,
  registered_names, find_schema, validate,
}
use learnault_api.Relay.{
  Progress, job_config, waiting_events, materialize_event, materialize_all, materialize_pending,
}
use learnault_api.Relay.Dispatch.{
  Relay, Tick, handled, settle_handled, call_handler, deliver, dispatch_lease, dispatch_one,
  count_outcome, Drain, drain, drain_names, dispatch_leasable,
}
use learnault_api.Relay.Settled.{materialize_pending-settles}
use learnault_api.Relay.Turns.{IsSettled}
use learnault_api.Relay.Delivery.{Handling, dispatch_one-Handling}
use learnault_api.Relay.Total.{dispatch_leasable_returns}

abbrev key : EventKey
key = record { event_type = 3; event_version = 1 }

abbrev handler : Handler
handler = record {
  name = 5;
  key = key;
  max_attempts = none;
  backoff_base_ms = none;
  backoff_multiplier = none;
}

abbrev registry : Registry
registry = record { by_event = (key, handler ∷ []) ∷ []; by_name = (5, handler) ∷ [] }

abbrev event : OutboxEvent
event = record {
  id = 10;
  aggregate_id = 1;
  aggregate_type = 1;
  event_type = 3;
  event_version = 1;
  payload = 42;
  status = EventStatus.pending;
  published_at = none;
  source = none;
  caused_by = none;
  created_at = 0;
}

-- Nobody handles this one.
abbrev stray : OutboxEvent
stray = record event { id = 11; event_type = 4 }

abbrev db : Db
db = record { jobs = []; events = event ∷ stray ∷ []; rolled_back_records = []; queue_leases = [] }

abbrev job_db : Db
job_db = record db {
  jobs = new_job 1 20 10 (job_config handler) ∷ [];
  events = event ∷ record stray { status = EventStatus.dead_letter } ∷ [];
}

materializes :
    materialize_pending registry 50 1 20 db
    ≡ ok (record { materialized = 1; unhandled = 1; next_id = 2; db = job_db })
unfolding materialize_pending materialize_all materialize_event waiting_events handlers_for
    handlers_at create_job_attempts update_event
materializes = refl

materialize_pending-settles_example :
    (p : Progress) × (materialize_pending registry 50 1 20 db ≡ ok p)
    × All (λ e. IsSettled e.id p.db) (waiting_events 50 db)
materialize_pending-settles_example = materialize_pending-settles registry 50 1 20 db

abbrev relay : Relay
relay = record {
  schemas = record { key = key; validate = λ payload. payload == 42 } ∷ [];
  registry = registry;
  lease_ms = 30_000;
  batch_size = 50;
  handle = λ h x db. (ok (record { idempotency_key = none; result = some 1 }), db);
  message = λ e. 0;
  missing_message = 1;
  default_key = λ event name. 77;
}

abbrev tick : Tick
tick = record { token = 7; now = 100; done = 150 }

abbrev done_db : Db
done_db = record job_db {
  jobs =
      record (new_job 1 20 10 (job_config handler)) {
        status = JobStatus.completed;
        last_attempt_at = some 100;
        completed_at = some 150;
        idempotency_key = some 77;
        result = some 1;
      }
      ∷ [];
  events =
      record event { status = EventStatus.published; published_at = some 150 }
      ∷ record stray { status = EventStatus.dead_letter }
      ∷ [];
}

dispatches : dispatch_one relay tick 5 job_db ≡ (ok handled, done_db)
unfolding dispatch_one dispatch_lease deliver call_handler settle_handled handler_by_name get_name
    validate find_schema lease_job job_to_lease take_lease complete_job publish_if_done update_event
dispatches = refl

dispatch_one-Handling_example : Handling relay tick 5 job_db done_db
dispatch_one-Handling_example = dispatch_one-Handling relay tick 5 job_db done_db dispatches

abbrev drained : Drain
drained = record { dispatched = 1; failures = 0; calls = 2; db = done_db }

drains : dispatch_leasable relay (λ n. tick) job_db ≡ ok drained
unfolding dispatch_leasable drain_names drain count_outcome registered_names dispatch_one
    dispatch_lease deliver call_handler settle_handled handler_by_name get_name validate find_schema
    lease_job job_to_lease take_lease complete_job publish_if_done update_event
drains = refl

-- A handler that publishes an event.
abbrev publishing : Relay
publishing = record relay {
  handle = λ h x db. (
    ok (record { idempotency_key = none; result = some 1 }),
    record db { events = db.events ++ record event { id = 30 } ∷ [] },
  );
}

dispatch_leasable_returns_example :
    (d : Drain) × (dispatch_leasable publishing (λ n. tick) job_db ≡ ok d)
    × (d.dispatched + d.failures ≤ length (registered_names registry) * 50)
    × (d.calls ≤ d.dispatched + d.failures + length (registered_names registry))
dispatch_leasable_returns_example =
    dispatch_leasable_returns publishing (λ n. tick) job_db (λ h x db. (refl, (_, refl)))
      ((λ e. cc), tt)
