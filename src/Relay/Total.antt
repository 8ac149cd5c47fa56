-- ===== src/Relay/Total.antt =====
-- outbox-relay.ts: `dispatchLeasable` with handlers that leave the jobs alone and may add events.
use learnault_api.Base.{
  ℕ, zero, suc, ◌+◌, ◌*◌, ◌≤◌, ◌≡◌, refl, true, none, some, ◌≢◌, ◌++◌, ◌==◌, List, [], ◌∷◌, length,
  Option-cases, inl, inr,
}
use learnault_api.Base.Result.{ok}
use learnault_api.Base.Table.{find_where, All-map}
use learnault_api.Base.Unique.{find_where-append}
use learnault_api.Base.Inversion.{Result-cases}
use learnault_api.Jobs.{OutboxEvent, JobAttempt, Db, Outcome, is_value, or_zero}
use learnault_api.Jobs.Lease.{LeaseJobResult, lease_job}
use learnault_api.Jobs.Finish.{JobResult, find_job, complete_job}
use learnault_api.Registry.{Handler, validate, handler_by_name, registered_names}
use learnault_api.Relay.{key_of}
use learnault_api.Relay.Dispatch.{
  refused, handler_threw, not_completed, Delivery, Relay, Tick, Dispatched, handled, failed, idle,
  settle_failed, with_key, settle_handled, call_handler, deliver, event_of_job, dispatch_lease,
  dispatch_one, Drain, count_outcome, drain, drain_names, dispatch_leasable,
}
use learnault_api.Relay.Delivery.{lease_options, delivery_of}
use learnault_api.Relay.Drained.{counted, dispatch_leasable_bounded}
use learnault_api.Relay.Returns.{
  IsBacked, lease_job-IsBacked, leased, fail_job-IsBacked, complete_job-IsBacked,
}

-- A call that returned, and left every job with its event.
abbrev Returned : Outcome Dispatched × Db → Type 0
Returned x = ((o : Dispatched) × (x.0 ≡ ok o)) × IsBacked x.1

-- The job of the lease is found under its token.
abbrev IsLeased : Tick → LeaseJobResult → Db → Type 0
IsLeased t l db =
    (j : JobAttempt) × (find_job l.job_id db ≡ some j) × (is_value j.lease_token t.token ≡ true)

-- A handler that leaves the job attempts alone, and may publish further events.
abbrev pub AddsEvents : Relay → Type 0
AddsEvents relay =
    (h : Handler) (x : Delivery) (db : Db)
    → ((relay.handle h x db).1.jobs ≡ db.jobs)
      × ((es : List OutboxEvent) × ((relay.handle h x db).1.events ≡ db.events ++ es))

still_there :
    (id : ℕ) (xs ys : List OutboxEvent)
    → find_where (λ e. e.id == id) xs ≢ none
    → find_where (λ e. e.id == id) (xs ++ ys) ≢ none
still_there id xs ys has = elim (Option-cases (find_where (λ e. e.id == id) xs)) [
  | inl missing ↦ absurd (has missing)
  | inr (e, found) ↦ let more = find_where-append (λ e. e.id == id) xs ys e found in λ gone. cc
]

-- What holds of the tables after a handler.
added-IsBacked :
    (db db' : Db) (es : List OutboxEvent)
    → db'.jobs ≡ db.jobs
    → db'.events ≡ db.events ++ es
    → IsBacked db
    → IsBacked db'
added-IsBacked db db' es jobs events backed =
    rw (jobs, events)
      (All-map _ _ db.jobs (λ j has. still_there j.outbox_event_id db.events es has) backed)

added-IsLeased :
    (t : Tick) (l : LeaseJobResult) (db db' : Db)
    → db'.jobs ≡ db.jobs
    → IsLeased t l db
    → IsLeased t l db'
added-IsLeased t l db db' jobs (j, found, held) = (j, rw jobs found, held)

module _ (relay : Relay) (adds : AddsEvents relay) where
  settle_failed_returns :
      (t : Tick) (l : LeaseJobResult) (error : ℕ) (db : Db)
      → IsLeased t l db
      → IsBacked db
      → Returned (settle_failed l.job_id t.token error t.done db)
  unfolding settle_failed
  settle_failed_returns t l error db (j, found, held) backed =
      let (db', done, kept) =
        fail_job-IsBacked l.job_id t.token error t.done j db found held backed in
      rw (done, settle_failed) ((failed, refl), kept)

  settle_handled_returns :
      (t : Tick) (l : LeaseJobResult) (r : JobResult) (db : Db)
      → IsLeased t l db
      → IsBacked db
      → Returned (settle_handled relay t l r db)
  unfolding settle_handled
  settle_handled_returns t l r db row backed =
      elim (Result-cases (complete_job l.job_id t.token r t.done db)) [
        | inl (e, thrown) ↦
            rw (thrown, settle_handled)
              (settle_failed_returns t l (relay.message (not_completed e)) db row backed)
        | inr (db', done) ↦
            rw (done, settle_handled)
              ((handled, refl), complete_job-IsBacked l.job_id t.token r t.done db db' done backed)
      ]

  call_handler_returns :
      (t : Tick) (g : Handler) (e : OutboxEvent) (l : LeaseJobResult) (db : Db)
      → IsLeased t l db
      → IsBacked db
      → Returned (call_handler relay t g e l db)
  unfolding call_handler
  call_handler_returns t g e l db row backed =
      let after = (relay.handle g (delivery_of e l) db).1 in
      let (jobs, (es, events)) = adds g (delivery_of e l) db in
      let row' = added-IsLeased t l db after jobs row in
      let backed' = added-IsBacked db after es jobs events backed in
      elim (Result-cases (relay.handle g (delivery_of e l) db).0) [
        | inl (x, thrown) ↦
            rw (call_handler, thrown)
              (settle_failed_returns t l (relay.message (handler_threw x)) after row' backed')
        | inr (r, answered) ↦
            rw (call_handler, answered)
              (settle_handled_returns t l (with_key relay g e r) after row' backed')
      ]

  deliver_returns :
      (t : Tick) (g : Handler) (e : OutboxEvent) (l : LeaseJobResult) (db : Db)
      → IsLeased t l db
      → IsBacked db
      → Returned (deliver relay t g e l db)
  unfolding deliver
  deliver_returns t g e l db row backed =
      elim (Result-cases (validate (key_of e) (or_zero l.payload) relay.schemas)) [
        | inl (x, thrown) ↦
            rw (thrown, deliver)
              (settle_failed_returns t l (relay.message (refused x)) db row backed)
        | inr (tt, valid) ↦ rw (valid, deliver) (call_handler_returns t g e l db row backed)
      ]

  dispatch_lease_returns :
      (t : Tick) (g : Handler) (l : LeaseJobResult) (db : Db)
      → IsLeased t l db
      → IsBacked db
      → Returned (dispatch_lease relay t g l db)
  unfolding dispatch_lease
  dispatch_lease_returns t g l db row backed = elim (Option-cases (event_of_job l.job_id db)) [
    | inl missing ↦
        rw (missing, dispatch_lease) (settle_failed_returns t l relay.missing_message db row backed)
    | inr (e, found) ↦ rw (found, dispatch_lease) (deliver_returns t g e l db row backed)
  ]

  dispatch_one_returns :
      (t : Tick) (name : ℕ) (db : Db) → IsBacked db → Returned (dispatch_one relay t name db)
  unfolding dispatch_one
  dispatch_one_returns t name db backed =
      elim (Option-cases (handler_by_name name relay.registry)) [
        | inl missing ↦ rw (missing, dispatch_one) ((idle, refl), backed)
        | inr (g, found) ↦
            elim (Option-cases (lease_job (lease_options relay name) t.token t.now db).0) [
              | inl no_lease ↦
                  rw (found, dispatch_one, no_lease)
                    (
                      (idle, refl),
                      lease_job-IsBacked (lease_options relay name) t.token t.now db backed,
                    )
              | inr (l, was_leased) ↦
                  let (j, row, held, kept) =
                    leased (lease_options relay name) t.token t.now l db was_leased backed in
                  rw (found, dispatch_one, was_leased)
                    (dispatch_lease_returns t g l _ (j, row, held) kept)
            ]
      ]

  turn_returns :
      (ticks : ℕ → Tick) (name fuel : ℕ) (d : Drain) (o : Dispatched)
      → (dispatch_one relay (ticks d.calls) name d.db).0 ≡ ok o
      → IsBacked (dispatch_one relay (ticks d.calls) name d.db).1
      → ((q : Drain)
          → IsBacked q.db
          → (d' : Drain) × (drain relay ticks name fuel q ≡ ok d') × IsBacked d'.db)
      → (d' : Drain) × (drain relay ticks name (suc fuel) d ≡ ok d') × IsBacked d'.db
  unfolding drain count_outcome
  turn_returns ticks name fuel d idle e kept k =
      (counted idle (dispatch_one relay (ticks d.calls) name d.db).1 d, rw (drain, e) refl, kept)
  turn_returns ticks name fuel d handled e kept k =
      let (d', rest, last) =
        k (counted handled (dispatch_one relay (ticks d.calls) name d.db).1 d) kept in
      (d', rw (drain, e) rest, last)
  turn_returns ticks name fuel d failed e kept k =
      let (d', rest, last) =
        k (counted failed (dispatch_one relay (ticks d.calls) name d.db).1 d) kept in
      (d', rw (drain, e) rest, last)

  drain_returns :
      (ticks : ℕ → Tick) (name fuel : ℕ) (d : Drain)
      → IsBacked d.db
      → (d' : Drain) × (drain relay ticks name fuel d ≡ ok d') × IsBacked d'.db
  unfolding drain
  drain_returns ticks name zero d backed = (d, refl, backed)
  drain_returns ticks name (suc fuel) d backed =
      let ((o, e), kept) = dispatch_one_returns (ticks d.calls) name d.db backed in
      turn_returns ticks name fuel d o e kept (drain_returns ticks name fuel)

  drain_names_returns :
      (ticks : ℕ → Tick) (names : List ℕ) (d : Drain)
      → IsBacked d.db
      → (d' : Drain) × (drain_names relay ticks names d ≡ ok d')
  unfolding drain_names
  drain_names_returns ticks [] d backed = (d, refl)
  drain_names_returns ticks (name ∷ names) d backed =
      let (q, first, kept) = drain_returns ticks name relay.batch_size d backed in
      let (d', rest) = drain_names_returns ticks names q kept in (d', rw (drain_names, first) rest)

-- If no job is changed while a handler runs, though the handler may add events, and every job has its
-- event, `dispatchLeasable` does not fail; it takes at most a batch of jobs for each handler, and calls `dispatchOne` at most once more
-- for each handler than it takes jobs.
pub dispatch_leasable_returns :
    (relay : Relay) (ticks : ℕ → Tick) (db : Db)
    → AddsEvents relay
    → IsBacked db
    → (d : Drain) × (dispatch_leasable relay ticks db ≡ ok d)
      × (d.dispatched + d.failures ≤ length (registered_names relay.registry) * relay.batch_size)
      × (d.calls ≤ d.dispatched + d.failures + length (registered_names relay.registry))
unfolding dispatch_leasable
dispatch_leasable_returns relay ticks db adds backed =
    let (d, done) =
      drain_names_returns relay adds ticks (registered_names relay.registry) _ backed in
    let (taken, called) = dispatch_leasable_bounded relay ticks db d done in
    (d, done, taken, called)
