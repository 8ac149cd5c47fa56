-- ===== src/Relay/Dispatch.antt =====
-- src/workers/outbox-relay.ts: `dispatchOne`, `dispatchLeasable` and `runOnce`. What a handler does is
-- an argument: it gets the database and returns what it and everybody else made of it meanwhile.
use learnault_api.Base.{
  ℕ, zero, suc, Bool, true, false, Option, none, some, List, [], ◌∷◌, ◌==◌, if◌then◌else◌,
}
use learnault_api.Base.Result.{Result, ok, throw, ◌>>=◌}
use learnault_api.Base.Table.{find_where}
use learnault_api.Jobs.{OutboxEvent, Db, JobError, Outcome, or_zero}
use learnault_api.Jobs.Lease.{LeaseJobResult, lease_job}
use learnault_api.Jobs.Finish.{JobResult, find_job, complete_job, fail_job}
use learnault_api.Registry.{
  Handler, Schemas, SchemaError, validate, Registry, handler_by_name, registered_names,
}
use learnault_api.Relay.{key_of, Progress, materialize_pending}

-- The error that `dispatchOne` catches.
pub data HandlingError : Type 0 where
  refused : SchemaError → HandlingError
  handler_threw : ℕ → HandlingError
  not_completed : JobError → HandlingError

-- `OutboxDelivery`
pub record Delivery : Type 0 where
  pub event : OutboxEvent
  pub payload : ℕ
  pub attempt : ℕ

pub record Relay : Type 0 where
  pub schemas : Schemas
  pub registry : Registry
  pub lease_ms : ℕ
  pub batch_size : ℕ
  pub handle : Handler → Delivery → Db → Result ℕ JobResult × Db
  pub message : HandlingError → ℕ
  pub missing_message : ℕ
  pub default_key : ℕ → ℕ → ℕ

-- A fresh token, and the times at which the job is leased and settled.
pub record Tick : Type 0 where
  pub token : ℕ
  pub now : ℕ
  pub done : ℕ

pub data Dispatched : Type 0 where
  handled failed idle : Dispatched

-- `failJob` and then `return 'failed'`.
unfoldable pub settle_failed : ℕ → ℕ → ℕ → ℕ → Db → Outcome Dispatched × Db
settle_failed id token error now db = elim (fail_job id token error now db) [
  | throw e ↦ (throw e, db)
  | ok db' ↦ (ok failed, db')
]

-- `result?.idempotencyKey ?? ...`
abbrev pub with_key : Relay → Handler → OutboxEvent → JobResult → JobResult
with_key relay h e r = elim r.idempotency_key [
  | none ↦ record r { idempotency_key = some (relay.default_key e.id h.name) }
  | some k ↦ r
]

-- The `completeJob` that follows the handler.
unfoldable pub settle_handled :
    Relay → Tick → LeaseJobResult → JobResult → Db → Outcome Dispatched × Db
settle_handled relay t lease r db = elim (complete_job lease.job_id t.token r t.done db) [
  | throw e ↦ settle_failed lease.job_id t.token (relay.message (not_completed e)) t.done db
  | ok db' ↦ (ok handled, db')
]

unfoldable pub call_handler :
    Relay → Tick → Handler → OutboxEvent → LeaseJobResult → Db → Outcome Dispatched × Db
unfolding settle_handled settle_failed
call_handler relay t h e lease db =
    let delivery : Delivery = record {
      event = e;
      payload = or_zero lease.payload;
      attempt = lease.attempt;
    } in
    let (answer, db') = relay.handle h delivery db in
    elim answer [
      | throw error ↦
          settle_failed lease.job_id t.token (relay.message (handler_threw error)) t.done db'
      | ok r ↦ settle_handled relay t lease (with_key relay h e r) db'
    ]

-- The `try` of `dispatchOne`.
unfoldable pub deliver :
    Relay → Tick → Handler → OutboxEvent → LeaseJobResult → Db → Outcome Dispatched × Db
unfolding call_handler
deliver relay t h e lease db = elim (validate (key_of e) (or_zero lease.payload) relay.schemas) [
  | throw error ↦ settle_failed lease.job_id t.token (relay.message (refused error)) t.done db
  | ok _ ↦ call_handler relay t h e lease db
]

-- `job?.outboxEvent`
abbrev pub event_of_job : ℕ → Db → Option OutboxEvent
event_of_job id db = elim (find_job id db) [
  | none ↦ none
  | some j ↦ find_where (λ e. e.id == j.outbox_event_id) db.events
]

unfoldable pub dispatch_lease :
    Relay → Tick → Handler → LeaseJobResult → Db → Outcome Dispatched × Db
unfolding deliver
dispatch_lease relay t h lease db = elim (event_of_job lease.job_id db) [
  | none ↦ settle_failed lease.job_id t.token relay.missing_message t.done db
  | some e ↦ deliver relay t h e lease db
]

-- `dispatchOne`
unfoldable pub dispatch_one : Relay → Tick → ℕ → Db → Outcome Dispatched × Db
unfolding dispatch_lease
dispatch_one relay t name db = elim (handler_by_name name relay.registry) [
  | none ↦ (ok idle, db)
  | some h ↦
      let (lease, db') =
        lease_job (record { job_type = name; max_lease_ms = some relay.lease_ms }) t.token t.now
          db in
      elim lease [ none ↦ (ok idle, db') | some l ↦ dispatch_lease relay t h l db' ]
]

-- What `dispatchLeasable` has counted, the number of calls that were made, and the database.
pub record Drain : Type 0 where
  pub dispatched : ℕ
  pub failures : ℕ
  pub calls : ℕ
  pub db : Db

-- What a call that ended adds to the counts, and whether the loop goes on.
unfoldable pub count_outcome : Dispatched → Db → Drain → Bool × Drain
count_outcome handled db d =
    (true, record d { dispatched = suc d.dispatched; calls = suc d.calls; db = db })
count_outcome failed db d =
    (true, record d { failures = suc d.failures; calls = suc d.calls; db = db })
count_outcome idle db d = (false, record d { calls = suc d.calls; db = db })

-- The inner loop: at most `fuel` jobs of a name.
unfoldable pub drain : Relay → (ℕ → Tick) → ℕ → ℕ → Drain → Outcome Drain
unfolding count_outcome
drain relay ticks name zero d = ok d
drain relay ticks name (suc fuel) d =
    let (outcome, db) = dispatch_one relay (ticks d.calls) name d.db in
    elim outcome [
      | throw e ↦ throw e
      | ok o ↦
          let (goes_on, d') = count_outcome o db d in
          let rest = drain relay ticks name fuel d' in if goes_on then rest else ok d'
    ]

unfoldable pub drain_names : Relay → (ℕ → Tick) → List ℕ → Drain → Outcome Drain
unfolding drain
drain_names relay ticks [] d = ok d
drain_names relay ticks (name ∷ names) d =
    drain relay ticks name relay.batch_size d >>= drain_names relay ticks names

-- `dispatchLeasable`
unfoldable pub dispatch_leasable : Relay → (ℕ → Tick) → Db → Outcome Drain
unfolding drain_names
dispatch_leasable relay ticks db =
    drain_names relay ticks (registered_names relay.registry)
      (record { dispatched = 0; failures = 0; calls = 0; db = db })

-- `runOnce`
unfoldable pub run_once : Relay → (ℕ → Tick) → ℕ → ℕ → Db → Outcome (Progress × Drain)
unfolding dispatch_leasable
run_once relay ticks id now db = do
  p ← materialize_pending relay.registry relay.batch_size id now db
  d ← dispatch_leasable relay ticks p.db
  ok (p, d)
