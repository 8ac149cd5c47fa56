-- ===== src/Scheduler/Ticks.antt =====
-- scheduled-job-runner.ts and queue-metrics.ts: one tick of a queue, over the leases of job-lease.service.ts.
use learnault_api.Base.{
  ℕ, suc, ◌+◌, ◌-◌, ◌<◌, ◌≡◌, ◌≢◌, refl, sym, ap, ◌∙◌, Bool, true, false, Option, none, some, List,
  [], ◌∷◌, ◌==◌, if◌then◌else◌, Bool-cases, Option-cases, inl, inr, arith,
}
use mathlib.Core.Path.{subst}
use mathlib.Core.Option.{some-injective}
use learnault_api.Base.Table.{find_where}
use learnault_api.Base.Rows.{find_where-true, find_where-update_where}
use learnault_api.Jobs.{QueueLease, Db}
use learnault_api.Jobs.QueueLeases.{
  QueueLeaseResult, find_queue, acquire_queue_lease, renew_queue_lease, release_queue_lease,
  holds_queue, renewed, released, queue_lease_ms,
}
use learnault_api.Jobs.QueueLeases.Calls.{IsHolder}
use learnault_api.Jobs.QueueLeases.Mutex.{refused, acquire_queue_lease-Acquired}
use learnault_api.Scheduler.{
  TickOutcome, ran, skipped, failed, Sample, Metrics, metrics_of, set_metrics, next_metrics,
  record_sample, outcome_of, Tick, start_tick, after_acquire, sample_of, lease_options, heartbeat,
  finish_tick, run_queue, count_outcome,
}

set_metrics-same :
    (queue : ℕ) (next : Metrics) (ms : List Metrics)
    → next.queue ≡ queue
    → metrics_of queue (set_metrics queue next ms) ≡ next
unfolding set_metrics
set_metrics-same queue next [] same =
    let itself : (next.queue == queue) ≡ true = ground arith in rw itself
set_metrics-same queue next (m ∷ ms) same = elim (Bool-cases (m.queue == queue)) [
  | inl e ↦ let itself : (next.queue == queue) ≡ true = ground arith in rw (e, itself)
  | inr e ↦ rw (e, e) (set_metrics-same queue next ms same)
]

set_metrics-other :
    (queue other : ℕ) (next : Metrics) (ms : List Metrics)
    → next.queue ≡ queue
    → other ≢ queue
    → metrics_of other (set_metrics queue next ms) ≡ metrics_of other ms
unfolding set_metrics
set_metrics-other queue other next [] same ne =
    let not_it : (next.queue == other) ≡ false = elim (Bool-cases (next.queue == other)) [
      | inl e ↦ absurd (ne (ground arith))
      | inr e ↦ e
    ] in
    rw not_it
set_metrics-other queue other next (m ∷ ms) same ne = elim (Bool-cases (m.queue == queue)) [
  | inl e ↦
      let not_it : (next.queue == other) ≡ false = elim (Bool-cases (next.queue == other)) [
        | inl g ↦ absurd (ne (ground arith))
        | inr g ↦ g
      ] in
      let nor_it : (m.queue == other) ≡ false = elim (Bool-cases (m.queue == other)) [
        | inl g ↦ absurd (ne (ground arith))
        | inr g ↦ g
      ] in
      rw (e, not_it, nor_it)
  | inr e ↦ elim (Bool-cases (m.queue == other)) [
    | inl g ↦ rw (e, g)
    | inr g ↦ rw (e, g) (set_metrics-other queue other next ms same ne)
  ]
]

metrics_of-queue : (queue : ℕ) (ms : List Metrics) → (metrics_of queue ms).queue ≡ queue
metrics_of-queue queue ms = elim (Option-cases (find_where (λ m. m.queue == queue) ms)) [
  | inl e ↦ rw e
  | inr (m, e) ↦ let is = find_where-true (λ m. m.queue == queue) ms m e in rw e (ground arith)
]

outcome_queue :
    (o : TickOutcome) (error : Option ℕ) (now : ℕ) (m : Metrics)
    → (count_outcome o error now m).queue ≡ m.queue
outcome_queue ran error now m = refl
outcome_queue skipped error now m = refl
outcome_queue failed error now m = refl

next_metrics-queue : (s : Sample) (now : ℕ) (m : Metrics) → (next_metrics s now m).queue ≡ m.queue
next_metrics-queue s now m = outcome_queue s.outcome s.error now _

-- A tick's books: what the queue's counters are after it, by its outcome.
abbrev pub Booked : ℕ → TickOutcome → List Metrics → List Metrics → Type 0
Booked queue ran ms ms' =
    ((metrics_of queue ms').attempts ≡ suc (metrics_of queue ms).attempts)
    × ((metrics_of queue ms').failures ≡ (metrics_of queue ms).failures)
    × ((metrics_of queue ms').skips ≡ (metrics_of queue ms).skips)
Booked queue failed ms ms' =
    ((metrics_of queue ms').attempts ≡ suc (metrics_of queue ms).attempts)
    × ((metrics_of queue ms').failures ≡ suc (metrics_of queue ms).failures)
    × ((metrics_of queue ms').skips ≡ (metrics_of queue ms).skips)
Booked queue skipped ms ms' =
    ((metrics_of queue ms').attempts ≡ (metrics_of queue ms).attempts)
    × ((metrics_of queue ms').failures ≡ (metrics_of queue ms).failures)
    × ((metrics_of queue ms').skips ≡ suc (metrics_of queue ms).skips)

-- The counters of another queue stand.
abbrev pub OthersKept : ℕ → List Metrics → List Metrics → Type 0
OthersKept queue ms ms' = (other : ℕ) → other ≢ queue → metrics_of other ms' ≡ metrics_of other ms

-- What `record` leaves of the queue's metrics and of the others'.
recorded :
    (s : Sample) (now : ℕ) (ms : List Metrics)
    → (metrics_of s.queue (record_sample s now ms) ≡ next_metrics s now (metrics_of s.queue ms))
      × OthersKept s.queue ms (record_sample s now ms)
unfolding record_sample
recorded s now ms =
    let m = metrics_of s.queue ms in
    let same = next_metrics-queue s now m ∙ metrics_of-queue s.queue ms in
    (
      set_metrics-same s.queue (next_metrics s now m) ms same,
      λ other ne. set_metrics-other s.queue other (next_metrics s now m) ms same ne,
    )

record_sample-Booked :
    (t : Tick) (outcome : TickOutcome) (duration now : ℕ) (error : Option ℕ) (ms : List Metrics)
    → Booked t.queue outcome ms (record_sample (sample_of t outcome duration error) now ms)
      × OthersKept t.queue ms (record_sample (sample_of t outcome duration error) now ms)
record_sample-Booked t ran duration now error ms =
    let (eq, others) = recorded (sample_of t ran duration error) now ms in
    ((ap Metrics.attempts eq, ap Metrics.failures eq, ap Metrics.skips eq), others)
record_sample-Booked t skipped duration now error ms =
    let (eq, others) = recorded (sample_of t skipped duration error) now ms in
    ((ap Metrics.attempts eq, ap Metrics.failures eq, ap Metrics.skips eq), others)
record_sample-Booked t failed duration now error ms =
    let (eq, others) = recorded (sample_of t failed duration error) now ms in
    ((ap Metrics.attempts eq, ap Metrics.failures eq, ap Metrics.skips eq), others)

module _ (drain : Db → Option ℕ × Db) (t : Tick) (db : Db) (ms : List Metrics) where
  failed_tick :
      (e : ℕ)
      → t.acquire_error ≡ some e
      → run_queue drain t (db, ms)
        ≡ (failed, db, record_sample (sample_of t failed 0 (some e)) t.now ms)
  unfolding run_queue start_tick
  failed_tick e h = ap (start_tick drain t (db, ms)) h

  skipped_tick :
      (held : Db)
      → t.acquire_error ≡ none
      → acquire_queue_lease (lease_options t) t.token t.now db ≡ (none, held)
      → run_queue drain t (db, ms)
        ≡ (skipped, held, record_sample (sample_of t skipped 0 none) t.now ms)
  unfolding run_queue start_tick after_acquire
  skipped_tick held up h = ap (start_tick drain t (db, ms)) up ∙ ap (after_acquire drain t ms) h

  -- The lease is there: the queue is drained, and the tick ends.
  drained_tick :
      (l : QueueLeaseResult) (held : Db)
      → t.acquire_error ≡ none
      → acquire_queue_lease (lease_options t) t.token t.now db ≡ (some l, held)
      → run_queue drain t (db, ms)
        ≡ finish_tick t l.lease_token
            (outcome_of (drain held).0)
            (drain held).0
            (heartbeat t l.lease_token t.heartbeats (drain held).1, ms)
  unfolding run_queue start_tick after_acquire
  drained_tick l held up h = ap (start_tick drain t (db, ms)) up ∙ ap (after_acquire drain t ms) h

  -- Every tick is booked once, under the outcome that it answers: an attempt, a failed attempt or a
  -- skip of its queue; the books of the other queues stand.
  pub run_queue-Booked :
      Booked t.queue (run_queue drain t (db, ms)).0 ms (run_queue drain t (db, ms)).2
      × OthersKept t.queue ms (run_queue drain t (db, ms)).2
  unfolding finish_tick
  run_queue-Booked = elim (Option-cases t.acquire_error) [
    | inr (e, h) ↦ rw (failed_tick e h) (record_sample-Booked t failed 0 t.now (some e) ms)
    | inl up ↦
        let call = acquire_queue_lease (lease_options t) t.token t.now db in
        elim (Option-cases call.0) [
          | inl h ↦
              rw (skipped_tick call.1 up (ap (λ o. (o, call.1)) h))
                (record_sample-Booked t skipped 0 t.now none ms)
          | inr (l, h) ↦ rw (drained_tick l call.1 up (ap (λ o. (o, call.1)) h)) (
              record_sample-Booked t (outcome_of (drain call.1).0) (t.ended_at - t.started_at)
                t.ended_at (drain call.1).0 ms)
        ]
  ]

  -- While another worker holds the queue's lease, a tick before the end of that lease drains nothing:
  -- it leaves the database alone and is booked as skipped, if the call for the lease does not fail.
  pub run_queue-IsHolder :
      (token until : ℕ)
      → IsHolder t.queue token until db
      → t.now < until
      → t.acquire_error ≡ none
      → run_queue drain t (db, ms)
        ≡ (skipped, db, record_sample (sample_of t skipped 0 none) t.now ms)
  run_queue-IsHolder token until held early up =
      skipped_tick db up
        (refused t.queue token until (lease_options t) t.token t.now db held refl early)

-- The queue's row carries this token.
abbrev HasToken : ℕ → ℕ → Db → Type 0
HasToken name token db =
    (row : QueueLease) × (find_queue name db ≡ some row) × (row.lease_token ≡ some token)

renew-HasToken :
    (name token at : ℕ) (lease_ms : Option ℕ) (db : Db)
    → HasToken name token db
    → HasToken name token (renew_queue_lease name token lease_ms at db).1
unfolding renew_queue_lease
renew-HasToken name token at lease_ms db (row, found, has) =
    let named = find_where-true (λ l. l.queue_name == name) db.queue_leases row found in
    let holds : holds_queue name token row ≡ true = ground arith in
    let f = renewed (at + queue_lease_ms lease_ms) in
    (
      f row,
      rw (
        find_where-update_where (λ l. l.queue_name == name) (holds_queue name token) f
            db.queue_leases (λ _. refl),
        found,
        holds,
      ),
      has,
    )

heartbeat-HasToken :
    (t : Tick) (token : ℕ) (ats : List ℕ) (db : Db)
    → HasToken t.queue token db
    → HasToken t.queue token (heartbeat t token ats db)
unfolding heartbeat
heartbeat-HasToken t token [] db h = h
heartbeat-HasToken t token (at ∷ ats) db h =
    heartbeat-HasToken t token ats _ (renew-HasToken t.queue token at (some t.lease_ms) db h)

-- The queue is free: its row has no token and no end of a lease.
abbrev pub IsReleased : ℕ → Db → Type 0
IsReleased name db =
    (row : QueueLease) × (find_queue name db ≡ some row)
    × (row.lease_token ≡ none)
    × (row.leased_until ≡ none)

release-IsReleased :
    (name token now : ℕ) (db : Db)
    → HasToken name token db
    → IsReleased name (release_queue_lease name token now db).1
unfolding release_queue_lease
release-IsReleased name token now db (row, found, has) =
    let named = find_where-true (λ l. l.queue_name == name) db.queue_leases row found in
    let holds : holds_queue name token row ≡ true = ground arith in
    (
      released now row,
      rw (
        find_where-update_where (λ l. l.queue_name == name) (holds_queue name token) (released now)
            db.queue_leases (λ _. refl),
        found,
        holds,
      ),
      refl,
      refl,
    )

if_false : {b : Bool} (x y : Db) → b ≡ false → (if b then x else y) ≡ y
if_false x y e = rw e

-- A tick that gets the lease gives it back, whether the queue's drain succeeds or throws and
-- however often the lease is renewed meanwhile, if the drain leaves the queue leases alone and the
-- release is not lost.
pub run_queue-IsReleased :
    (drain : Db → Option ℕ × Db) (t : Tick) (db : Db) (ms : List Metrics) (l : QueueLeaseResult)
    → ((d : Db) → (drain d).1.queue_leases ≡ d.queue_leases)
    → t.acquire_error ≡ none
    → t.is_release_lost ≡ false
    → (acquire_queue_lease (lease_options t) t.token t.now db).0 ≡ some l
    → IsReleased t.queue (run_queue drain t (db, ms)).1
unfolding finish_tick
run_queue-IsReleased drain t db ms l leaves up sent got =
    let o = lease_options t in
    let call = acquire_queue_lease o t.token t.now db in
    let (m, holder) = acquire_queue_lease-Acquired o t.token t.now db l got in
    let token : l.lease_token ≡ t.token =
      ap QueueLeaseResult.lease_token (some-injective _ _ (sym got ∙ m)) in
    let has : HasToken t.queue t.token (drain call.1).1 = (
      holder.row,
      ap (find_where (λ k. k.queue_name == t.queue)) (leaves call.1) ∙ holder.found,
      holder.has_token,
    ) in
    let kept = heartbeat t l.lease_token t.heartbeats (drain call.1).1 in
    let freed = (release_queue_lease t.queue l.lease_token t.ended_at kept).1 in
    let out = drained_tick drain t db ms l call.1 up (ap (λ x. (x, call.1)) got) in
    subst (IsReleased t.queue)
      (sym (ap (λ (x : TickOutcome × Db × List Metrics). x.1) out ∙ if_false kept freed sent))
      (release-IsReleased t.queue l.lease_token t.ended_at kept (
        heartbeat-HasToken t l.lease_token t.heartbeats (drain call.1).1
          (subst (λ k. HasToken t.queue k (drain call.1).1) (sym token) has)))
