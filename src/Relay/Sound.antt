-- ===== src/Relay/Sound.antt =====
-- outbox-relay.ts: the dispatch loop and the ids and counters of the job table.
use learnault_api.Base.{ℕ, zero, suc, ◌≡◌, sym, List, [], ◌∷◌, Option-cases, inl, inr}
use learnault_api.Base.Result.{ok}
use learnault_api.Base.Inversion.{>>=-ok, ok-injective, Result-cases}
use learnault_api.Jobs.{OutboxEvent, Db, or_zero}
use learnault_api.Jobs.Lease.{LeaseJobResult, lease_job}
use learnault_api.Jobs.Finish.{JobResult, complete_job, fail_job}
use learnault_api.Jobs.Attempts.{IsSound, lease_job-IsSound, complete_job-IsSound, fail_job-IsSound}
use learnault_api.Registry.{Handler, validate, handler_by_name, registered_names}
use learnault_api.Relay.{key_of}
use learnault_api.Relay.Dispatch.{
  refused, handler_threw, not_completed, Delivery, Relay, Tick, Dispatched, handled, failed, idle,
  settle_failed, with_key, settle_handled, call_handler, deliver, event_of_job, dispatch_lease,
  dispatch_one, Drain, drain, drain_names, dispatch_leasable,
}
use learnault_api.Relay.Delivery.{lease_options, delivery_of}
use learnault_api.Relay.Drained.{counted, GoesOn, drain-turn}

-- The job table after each step of a dispatch.
module _ (relay : Relay)
    (keeps : (h : Handler) (x : Delivery) (db : Db)
      → IsSound db.jobs
      → IsSound (relay.handle h x db).1.jobs) where
  settle_failed-IsSound :
      (id token error now : ℕ) (db : Db)
      → IsSound db.jobs
      → IsSound (settle_failed id token error now db).1.jobs
  unfolding settle_failed
  settle_failed-IsSound id token error now db s =
      elim (Result-cases (fail_job id token error now db)) [
        | inl (e, thrown) ↦ rw (thrown, settle_failed) s
        | inr (db', done) ↦
            rw (done, settle_failed) (fail_job-IsSound id token error now db db' s done)
      ]

  settle_handled-IsSound :
      (t : Tick) (l : LeaseJobResult) (r : JobResult) (db : Db)
      → IsSound db.jobs
      → IsSound (settle_handled relay t l r db).1.jobs
  unfolding settle_handled
  settle_handled-IsSound t l r db s =
      elim (Result-cases (complete_job l.job_id t.token r t.done db)) [
        | inl (e, thrown) ↦
            rw (thrown, settle_handled)
              (settle_failed-IsSound l.job_id t.token (relay.message (not_completed e)) t.done db s)
        | inr (db', done) ↦
            rw (done, settle_handled) (complete_job-IsSound l.job_id t.token r t.done db db' s done)
      ]

  call_handler-IsSound :
      (t : Tick) (g : Handler) (e : OutboxEvent) (l : LeaseJobResult) (db : Db)
      → IsSound db.jobs
      → IsSound (call_handler relay t g e l db).1.jobs
  unfolding call_handler
  call_handler-IsSound t g e l db s =
      let after = (relay.handle g (delivery_of e l) db).1 in
      let kept = keeps g (delivery_of e l) db s in
      elim (Result-cases (relay.handle g (delivery_of e l) db).0) [
        | inl (x, thrown) ↦
            rw (thrown, call_handler)
              (settle_failed-IsSound l.job_id t.token (relay.message (handler_threw x)) t.done after
                kept)
        | inr (r, answered) ↦
            rw (answered, call_handler)
              (settle_handled-IsSound t l (with_key relay g e r) after kept)
      ]

  deliver-IsSound :
      (t : Tick) (g : Handler) (e : OutboxEvent) (l : LeaseJobResult) (db : Db)
      → IsSound db.jobs
      → IsSound (deliver relay t g e l db).1.jobs
  unfolding deliver
  deliver-IsSound t g e l db s =
      elim (Result-cases (validate (key_of e) (or_zero l.payload) relay.schemas)) [
        | inl (x, thrown) ↦
            rw (thrown, deliver)
              (settle_failed-IsSound l.job_id t.token (relay.message (refused x)) t.done db s)
        | inr (tt, valid) ↦ rw (valid, deliver) (call_handler-IsSound t g e l db s)
      ]

  dispatch_lease-IsSound :
      (t : Tick) (g : Handler) (l : LeaseJobResult) (db : Db)
      → IsSound db.jobs
      → IsSound (dispatch_lease relay t g l db).1.jobs
  unfolding dispatch_lease
  dispatch_lease-IsSound t g l db s = elim (Option-cases (event_of_job l.job_id db)) [
    | inl missing ↦
        rw (missing, dispatch_lease)
          (settle_failed-IsSound l.job_id t.token relay.missing_message t.done db s)
    | inr (e, found) ↦ rw (found, dispatch_lease) (deliver-IsSound t g e l db s)
  ]

  dispatch_one-IsSound :
      (t : Tick) (name : ℕ) (db : Db)
      → IsSound db.jobs
      → IsSound (dispatch_one relay t name db).1.jobs
  unfolding dispatch_one
  dispatch_one-IsSound t name db s = elim (Option-cases (handler_by_name name relay.registry)) [
    | inl missing ↦ rw (missing, dispatch_one) s
    | inr (g, found) ↦
        let kept = lease_job-IsSound (lease_options relay name) t.token t.now db s in
        elim (Option-cases (lease_job (lease_options relay name) t.token t.now db).0) [
          | inl no_lease ↦ rw (found, dispatch_one, no_lease) kept
          | inr (l, leased) ↦ rw (found, dispatch_one, leased) (dispatch_lease-IsSound t g l _ kept)
        ]
  ]

  turn-IsSound :
      (ticks : ℕ → Tick) (name fuel : ℕ) (d d' : Drain) (o : Dispatched) (db : Db)
      → IsSound db.jobs
      → GoesOn relay ticks name fuel (counted o db d) d' o
      → ((q : Drain)
          → IsSound q.db.jobs
          → drain relay ticks name fuel q ≡ ok d'
          → IsSound d'.db.jobs)
      → IsSound d'.db.jobs
  turn-IsSound ticks name fuel d d' idle db s e k = rw e s
  turn-IsSound ticks name fuel d d' handled db s e k = k _ s e
  turn-IsSound ticks name fuel d d' failed db s e k = k _ s e

  drain-IsSound :
      (ticks : ℕ → Tick) (name fuel : ℕ) (d d' : Drain)
      → IsSound d.db.jobs
      → drain relay ticks name fuel d ≡ ok d'
      → IsSound d'.db.jobs
  unfolding drain
  drain-IsSound ticks name zero d d' s h = rw (sym (ok-injective h)) s
  drain-IsSound ticks name (suc fuel) d d' s h =
      let (o, _, next) = drain-turn relay ticks name fuel d d' h in
      turn-IsSound ticks name fuel d d' o _ (dispatch_one-IsSound (ticks d.calls) name d.db s) next
        (λ q. drain-IsSound ticks name fuel q d')

  drain_names-IsSound :
      (ticks : ℕ → Tick) (names : List ℕ) (d d' : Drain)
      → IsSound d.db.jobs
      → drain_names relay ticks names d ≡ ok d'
      → IsSound d'.db.jobs
  unfolding drain_names
  drain_names-IsSound ticks [] d d' s h = rw (sym (ok-injective h)) s
  drain_names-IsSound ticks (name ∷ names) d d' s h =
      let (q, first, rest) =
        >>=-ok (drain relay ticks name relay.batch_size d) (drain_names relay ticks names) h in
      drain_names-IsSound ticks names q d' (drain-IsSound ticks name relay.batch_size d q s first)
        rest

-- If no handler harms a sound job table, a call of `dispatchLeasable` that returns keeps it sound:
-- the ids stay distinct, and no job's attempt counter reaches its limit.
pub dispatch_leasable-IsSound :
    (relay : Relay) (ticks : ℕ → Tick) (db : Db) (d : Drain)
    → ((h : Handler) (x : Delivery) (db : Db)
        → IsSound db.jobs
        → IsSound (relay.handle h x db).1.jobs)
    → IsSound db.jobs
    → dispatch_leasable relay ticks db ≡ ok d
    → IsSound d.db.jobs
unfolding dispatch_leasable
dispatch_leasable-IsSound relay ticks db d keeps s h =
    drain_names-IsSound relay keeps ticks (registered_names relay.registry) _ d s h
