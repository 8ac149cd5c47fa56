-- ===== src/Jobs/Publish.antt =====
-- job-lease.service.ts: when completing a job publishes its event.
use learnault_api.Base.{
  ℕ, ◌≡◌, refl, Option, some, ◌==◌, if◌then◌else◌, Option-cases, Bool-cases, inl, inr, arith,
}
use learnault_api.Base.Result.{ok, throw}
use learnault_api.Base.Table.{find_where, update_where, count_where}
use learnault_api.Base.Rows.{find_where-true, find_where-update_where, count_where-update_where}
use learnault_api.Jobs.{OutboxEvent, JobAttempt, Db, lease_mismatch}
use learnault_api.Jobs.Finish.{
  JobResult, find_job, update_event, holds_lease, as_completed, unfinished, as_published,
  publish_if_done, complete_job,
}
use learnault_api.Jobs.Finish.Cases.{complete_job-found, complete_job-jobs}

abbrev pub find_event : ℕ → Db → Option OutboxEvent
find_event id db = find_where (λ e. e.id == id) db.events

event_after :
    (id : ℕ) (f : OutboxEvent → OutboxEvent) (db db' : Db) (e : OutboxEvent)
    → ((e : OutboxEvent) → (f e).id ≡ e.id)
    → find_event id db ≡ some e
    → update_event id f db ≡ ok db'
    → find_event id db' ≡ some (f e)
unfolding update_event
event_after id f db db' e same found h =
    let events : db'.events ≡ update_where (λ x. x.id == id) f db.events = ground arith in
    let there = find_where-true (λ x. x.id == id) db.events e found in
    rw (
      events,
      find_where-update_where (λ x. x.id == id) (λ x. x.id == id) f db.events
          (λ x. ground (arith, same x)),
      found,
      there,
    )

update_event-found :
    (id : ℕ) (f : OutboxEvent → OutboxEvent) (db db' : Db)
    → ((e : OutboxEvent) → (f e).id ≡ e.id)
    → update_event id f db ≡ ok db'
    → (e : OutboxEvent) × (find_event id db ≡ some e) × (find_event id db' ≡ some (f e))
update_event-found id f db db' same h = elim (Option-cases (find_event id db)) [
  | inl none_found ↦ absurd (unfold update_event in ground arith)
  | inr (e, found) ↦ (e, found, event_after id f db db' e same found h)
]

published :
    (id now : ℕ) (j : JobAttempt) (db db' : Db)
    → find_job id db ≡ some j
    → publish_if_done id now db ≡ ok db'
    → if unfinished j.outbox_event_id db == 0
      then ((e : OutboxEvent) × (find_event j.outbox_event_id db ≡ some e)
          × (find_event j.outbox_event_id db' ≡ some (as_published now e)))
      else (db'.events ≡ db.events)
unfolding publish_if_done
published id now j db db' found h = elim (Bool-cases (unfinished j.outbox_event_id db == 0)) [
  | inl e ↦
      rw e
        (update_event-found j.outbox_event_id (as_published now) db db' (λ _. refl) (ground arith))
  | inr e ↦ rw e (ground arith)
]

-- After a successful completion the event of the job is published if none of its jobs is left
-- unfinished, and no event has changed if one is.
pub complete_job_publishes :
    (id token : ℕ) (r : JobResult) (now : ℕ) (j : JobAttempt) (db db' : Db)
    → complete_job id token r now db ≡ ok db'
    → find_job id db' ≡ some j
    → if unfinished j.outbox_event_id db' == 0
      then ((e : OutboxEvent) × (find_event j.outbox_event_id db ≡ some e)
          × (find_event j.outbox_event_id db' ≡ some (as_published now e)))
      else (db'.events ≡ db.events)
complete_job_publishes id token r now j db db' h found =
    let (_, rest) = complete_job-found id token r now db db' h in
    let jobs = complete_job-jobs id token r now db db' h in
    rw jobs (
      published id now j
        (record db { jobs = update_where (holds_lease id token) (as_completed r now) db.jobs }) db'
        (rw jobs at found) rest)

-- After a successful completion a second completion of the job with its token is refused.
pub complete_job_once :
    (id token : ℕ) (r r' : JobResult) (now now' : ℕ) (db db' : Db)
    → complete_job id token r now db ≡ ok db'
    → complete_job id token r' now' db' ≡ throw lease_mismatch
unfolding complete_job
complete_job_once id token r r' now now' db db' h =
    let none_left : count_where (holds_lease id token) db'.jobs ≡ 0 =
      rw (complete_job-jobs id token r now db db' h) (
        count_where-update_where (holds_lease id token) (as_completed r now) db.jobs
          (λ x. ground arith)) in
    rw (none_left, complete_job)
