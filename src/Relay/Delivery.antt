-- ===== src/Relay/Delivery.antt =====
-- outbox-relay.ts: the steps behind a job that `dispatchOne` reports as handled.
use learnault_api.Base.{ℕ, ◌≡◌, ◌≢◌, ap, some, Option-cases, inl, inr, arith}
use learnault_api.Base.Result.{ok}
use learnault_api.Base.Inversion.{Result-cases}
use learnault_api.Jobs.{OutboxEvent, Db, or_zero}
use learnault_api.Jobs.Lease.{LeaseJobOptions, LeaseJobResult, lease_job}
use learnault_api.Jobs.Finish.{JobResult, complete_job}
use learnault_api.Registry.{Handler, validate, handler_by_name}
use learnault_api.Relay.{key_of}
use learnault_api.Relay.Dispatch.{
  refused, handler_threw, not_completed, Delivery, Relay, Tick, handled, settle_failed, with_key,
  settle_handled, call_handler, deliver, event_of_job, dispatch_lease, dispatch_one,
}

abbrev pub lease_options : Relay → ℕ → LeaseJobOptions
lease_options relay name = record { job_type = name; max_lease_ms = some relay.lease_ms }

abbrev pub delivery_of : OutboxEvent → LeaseJobResult → Delivery
delivery_of e l = record { event = e; payload = or_zero l.payload; attempt = l.attempt }

-- The steps of a job that was handled.
pub record Handling (relay : Relay) (t : Tick) (name : ℕ) (db db' : Db) : Type 0 where
  pub handler : Handler
  pub leased : LeaseJobResult
  pub event : OutboxEvent
  pub answer : JobResult
  pub before : Db
  pub after : Db
  pub by_name : handler_by_name name relay.registry ≡ some handler
  pub was_leased : lease_job (lease_options relay name) t.token t.now db ≡ (some leased, before)
  pub of_event : event_of_job leased.job_id before ≡ some event
  pub valid : validate (key_of event) (or_zero leased.payload) relay.schemas ≡ ok tt
  pub answered : relay.handle handler (delivery_of event leased) before ≡ (ok answer, after)
  pub completed :
      complete_job leased.job_id t.token (with_key relay handler event answer) t.done after ≡ ok db'

settle_failed-ne :
    (id token error now : ℕ) (db db' : Db) → settle_failed id token error now db ≢ (ok handled, db')
unfolding settle_failed
settle_failed-ne id token error now db db' h = ground arith

-- A helper for each step, from the last one to the first.
settle_handled-completed :
    (relay : Relay) (t : Tick) (l : LeaseJobResult) (r : JobResult) (db db' : Db)
    → settle_handled relay t l r db ≡ (ok handled, db')
    → complete_job l.job_id t.token r t.done db ≡ ok db'
unfolding settle_handled
settle_handled-completed relay t l r db db' h =
    elim (Result-cases (complete_job l.job_id t.token r t.done db)) [
      | inl (e, thrown) ↦ absurd (
          settle_failed-ne l.job_id t.token (relay.message (not_completed e)) t.done db db'
            (ground arith))
      | inr (x, e) ↦ ground arith
    ]

call_handler-answered :
    (relay : Relay) (t : Tick) (g : Handler) (e : OutboxEvent) (l : LeaseJobResult) (db db' : Db)
    → call_handler relay t g e l db ≡ (ok handled, db')
    → (r : JobResult) × (relay.handle g (delivery_of e l) db
        ≡ (ok r, (relay.handle g (delivery_of e l) db).1))
      × (complete_job l.job_id t.token
            (with_key relay g e r)
            t.done
            (relay.handle g (delivery_of e l) db).1
          ≡ ok db')
unfolding call_handler
call_handler-answered relay t g e l db db' h =
    let after = (relay.handle g (delivery_of e l) db).1 in
    elim (Result-cases (relay.handle g (delivery_of e l) db).0) [
      | inl (x, thrown) ↦ absurd (
          settle_failed-ne l.job_id t.token (relay.message (handler_threw x)) t.done after db'
            (ground arith))
      | inr (r, answered) ↦ (
        r,
        ap (λ a. (a, after)) answered,
        settle_handled-completed relay t l (with_key relay g e r) after db' (ground arith),
      )
    ]

deliver-valid :
    (relay : Relay) (t : Tick) (g : Handler) (e : OutboxEvent) (l : LeaseJobResult) (db db' : Db)
    → deliver relay t g e l db ≡ (ok handled, db')
    → (validate (key_of e) (or_zero l.payload) relay.schemas ≡ ok tt)
      × (call_handler relay t g e l db ≡ (ok handled, db'))
unfolding deliver
deliver-valid relay t g e l db db' h =
    elim (Result-cases (validate (key_of e) (or_zero l.payload) relay.schemas)) [
      | inl (x, thrown) ↦ absurd (
          settle_failed-ne l.job_id t.token (relay.message (refused x)) t.done db db'
            (ground arith))
      | inr (tt, valid) ↦ (valid, ground arith)
    ]

dispatch_lease-event :
    (relay : Relay) (t : Tick) (g : Handler) (l : LeaseJobResult) (db db' : Db)
    → dispatch_lease relay t g l db ≡ (ok handled, db')
    → (e : OutboxEvent) × (event_of_job l.job_id db ≡ some e)
      × (deliver relay t g e l db ≡ (ok handled, db'))
unfolding dispatch_lease
dispatch_lease-event relay t g l db db' h = elim (Option-cases (event_of_job l.job_id db)) [
  | inl missing ↦
      absurd (settle_failed-ne l.job_id t.token relay.missing_message t.done db db' (ground arith))
  | inr (e, found) ↦ (e, found, ground arith)
]

dispatch_one-leased :
    (relay : Relay) (t : Tick) (name : ℕ) (db db' : Db)
    → dispatch_one relay t name db ≡ (ok handled, db')
    → (g : Handler) × (l : LeaseJobResult) × (handler_by_name name relay.registry ≡ some g)
      × ((lease_job (lease_options relay name) t.token t.now db).0 ≡ some l)
      × (dispatch_lease relay t g l (lease_job (lease_options relay name) t.token t.now db).1
          ≡ (ok handled, db'))
unfolding dispatch_one
dispatch_one-leased relay t name db db' h =
    elim (Option-cases (handler_by_name name relay.registry)) [
      | inl missing ↦ absurd (ground arith)
      | inr (g, found) ↦
          elim (Option-cases (lease_job (lease_options relay name) t.token t.now db).0) [
            | inl no_lease ↦ absurd (ground arith)
            | inr (l, leased) ↦ (g, l, found, leased, ground arith)
          ]
    ]

-- A job is reported as handled only after it was leased, its payload satisfied the schema of its
-- event, the handler returned, and the job was completed under that lease.
pub dispatch_one-Handling :
    (relay : Relay) (t : Tick) (name : ℕ) (db db' : Db)
    → dispatch_one relay t name db ≡ (ok handled, db')
    → Handling relay t name db db'
dispatch_one-Handling relay t name db db' h =
    let (g, l, found, leased, next) = dispatch_one-leased relay t name db db' h in
    let before = (lease_job (lease_options relay name) t.token t.now db).1 in
    let (e, event, delivered) = dispatch_lease-event relay t g l before db' next in
    let (valid, called) = deliver-valid relay t g e l before db' delivered in
    let (r, answered, completed) = call_handler-answered relay t g e l before db' called in
    record {
      handler = g;
      leased = l;
      event = e;
      answer = r;
      before = before;
      after = (relay.handle g (delivery_of e l) before).1;
      by_name = found;
      was_leased = ap (λ x. (x, before)) leased;
      of_event = event;
      valid = valid;
      answered = answered;
      completed = completed;
    }
