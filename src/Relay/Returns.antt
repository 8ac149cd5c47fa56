-- ===== src/Relay/Returns.antt =====
-- outbox-relay.ts: the calls of the lease service that `dispatchOne` makes, where every job has
-- its event.
use mathlib.Core.Option.{some-injective}
use learnault_api.Base.{
  ℕ, ◌+◌, ◌≡◌, ◌≢◌, refl, sym, ap, ◌∙◌, Bool, true, none, some, List, ◌==◌, leb, Option-cases,
  Bool-cases, inl, inr, arith,
}
use learnault_api.Base.Result.{ok}
use learnault_api.Base.Inversion.{returns}
use learnault_api.Base.Table.{find_where, update_where, first_by, All, All-map, All-update}
use learnault_api.Base.Rows.{
  find_where-All, find_where-true, find_where-update_where, first_by-All, rows_found,
}
use learnault_api.Jobs.{OutboxEvent, JobAttempt, Db, is_value, or_zero}
use learnault_api.Jobs.Lease.{
  LeaseJobOptions, LeaseJobResult, job_to_lease, take_lease, lease_job, with_lease, is_ready,
  is_abandoned_of, lease_ms,
}
use learnault_api.Jobs.Lease.Cases.{lease_job-none, lease_job-some}
use learnault_api.Jobs.Finish.Cases.{complete_job-found, fail_job-at}
use learnault_api.Jobs.Finish.{
  JobResult, find_job, update_event, fail_job, fail_held_job, complete_job, publish_if_done,
  as_completed, as_published, holds_lease, as_retry, backoff_ms, unfinished, update_job,
  as_dead_letter, event_as_dead_letter,
}
use learnault_api.Jobs.Publish.{find_event}

-- Every job has its event, as the foreign key says.
abbrev pub IsBacked : Db → Type 0
IsBacked db = All (λ j. find_event j.outbox_event_id db ≢ none) db.jobs

-- The job that is leased is a row of the table.
job_to_lease-row :
    (type now : ℕ) (db : Db) (j : JobAttempt)
    → job_to_lease type now db ≡ some j
    → find_job j.id db ≢ none
unfolding job_to_lease
job_to_lease-row type now db j e =
    let rows = rows_found JobAttempt.id db.jobs in
    let row : All (λ k. is_ready type now k ≡ true → find_job k.id db ≢ none) db.jobs =
      All-map _ _ db.jobs (λ k h _. h) rows in
    let row' : All (λ k. is_abandoned_of type now k ≡ true → find_job k.id db ≢ none) db.jobs =
      All-map _ _ db.jobs (λ k h _. h) rows in
    elim (Option-cases (first_by (λ j. j.created_at) (is_ready type now) db.jobs)) [
      | inl none_ready ↦
          first_by-All (λ k. find_job k.id db ≢ none) (λ j. or_zero j.leased_until)
            (is_abandoned_of type now) db.jobs j row' (ground arith)
      | inr (k, ready) ↦
          first_by-All (λ k. find_job k.id db ≢ none) (λ j. j.created_at) (is_ready type now)
            db.jobs j row (ground arith)
    ]

-- After a lease the job is found, and it is held under the token.
leased_row :
    (token until now : ℕ) (j : JobAttempt) (db : Db)
    → find_job j.id db ≢ none
    → (k : JobAttempt) × (find_where
          (λ x. x.id == j.id)
          (update_where (λ x. x.id == j.id) (with_lease token until now) db.jobs)
        ≡ some k)
      × (is_value k.lease_token token ≡ true)
leased_row token until now j db there = elim (Option-cases (find_job j.id db)) [
  | inl missing ↦ absurd (there missing)
  | inr (x, found) ↦
      let here = find_where-true (λ x. x.id == j.id) db.jobs x found in
      (
        with_lease token until now x,
        find_where-update_where (λ x. x.id == j.id) (λ x. x.id == j.id) (with_lease token until now)
              db.jobs (λ _. refl)
            ∙ rw (found, here) refl,
        ground arith,
      )
]

fail_job_returns :
    (id token error now : ℕ) (j : JobAttempt) (db : Db)
    → find_job id db ≡ some j
    → is_value j.lease_token token ≡ true
    → IsBacked db
    → (db' : Db) × (fail_job id token error now db ≡ ok db')
unfolding fail_job fail_held_job update_event
fail_job_returns id token error now j db found held backed =
    let has =
      find_where-All (λ j. find_event j.outbox_event_id db ≢ none) (λ k. k.id == id) db.jobs j
        backed found in
    elim (Option-cases (find_event j.outbox_event_id db)) [
      | inl missing ↦ absurd (has missing)
      | inr (e, there) ↦ returns (fail_job id token error now db) (λ x h.
          elim (Bool-cases (leb j.max_attempts (j.attempt + 1))) [
            | inl last ↦ ground arith
            | inr more ↦ ground arith
          ])
    ]

IsBacked-jobs :
    (p : JobAttempt → Bool) (f : JobAttempt → JobAttempt) (db : Db)
    → ((j : JobAttempt) → (f j).outbox_event_id ≡ j.outbox_event_id)
    → IsBacked db
    → IsBacked (record db { jobs = update_where p f db.jobs })
IsBacked-jobs p f db same backed =
    All-update (λ j. find_event j.outbox_event_id db ≢ none) p f db.jobs (λ j h e. rw (same j) h)
      backed

find_event-update :
    (k : ℕ) (q : OutboxEvent → Bool) (g : OutboxEvent → OutboxEvent) (events : List OutboxEvent)
    → ((e : OutboxEvent) → (g e).id ≡ e.id)
    → find_where (λ e. e.id == k) events ≢ none
    → find_where (λ e. e.id == k) (update_where q g events) ≢ none
find_event-update k q g events same there =
    elim (Option-cases (find_where (λ e. e.id == k) events)) [
      | inl missing ↦ absurd (there missing)
      | inr (e, found) ↦
          rw
            (
              find_where-update_where (λ e. e.id == k) q g events (λ e. ground (arith, same e)),
              found,
            )
            (λ h. cc)
    ]

IsBacked-events :
    (q : OutboxEvent → Bool) (g : OutboxEvent → OutboxEvent) (db : Db)
    → ((e : OutboxEvent) → (g e).id ≡ e.id)
    → IsBacked db
    → IsBacked (record db { events = update_where q g db.events })
IsBacked-events q g db same backed =
    All-map _ _ db.jobs (λ j. find_event-update j.outbox_event_id q g db.events same) backed

update_event-made :
    (id : ℕ) (g : OutboxEvent → OutboxEvent) (db db' : Db)
    → update_event id g db ≡ ok db'
    → db' ≡ record db { events = update_where (λ e. e.id == id) g db.events }
unfolding update_event
update_event-made id g db db' h = ground arith

publish_if_done-IsBacked :
    (id now : ℕ) (db db' : Db) → publish_if_done id now db ≡ ok db' → IsBacked db → IsBacked db'
unfolding publish_if_done
publish_if_done-IsBacked id now db db' h backed = elim (Option-cases (find_job id db)) [
  | inl missing ↦ let same : db' ≡ db = ground arith in rw same backed
  | inr (j, found) ↦ elim (Bool-cases (unfinished j.outbox_event_id db == 0)) [
    | inl done ↦
        rw (update_event-made j.outbox_event_id (as_published now) db db' (ground arith))
          (IsBacked-events _ (as_published now) db (λ _. refl) backed)
    | inr more ↦ let same : db' ≡ db = ground arith in rw same backed
  ]
]

pub complete_job-IsBacked :
    (id token : ℕ) (r : JobResult) (now : ℕ) (db db' : Db)
    → complete_job id token r now db ≡ ok db'
    → IsBacked db
    → IsBacked db'
complete_job-IsBacked id token r now db db' h backed =
    publish_if_done-IsBacked id now _ db' (complete_job-found id token r now db db' h).1
      (IsBacked-jobs (holds_lease id token) (as_completed r now) db (λ _. refl) backed)

fail_held_job-IsBacked :
    (error now : ℕ) (j : JobAttempt) (db db' : Db)
    → fail_held_job error now j db ≡ ok db'
    → IsBacked db
    → IsBacked db'
unfolding fail_held_job
fail_held_job-IsBacked error now j db db' h backed =
    elim (Bool-cases (leb j.max_attempts (j.attempt + 1))) [
      | inl last ↦
          rw
            (update_event-made j.outbox_event_id event_as_dead_letter
              (update_job j.id (as_dead_letter error) db) db' (ground arith))
            (IsBacked-events _ event_as_dead_letter (update_job j.id (as_dead_letter error) db)
              (λ _. refl)
              (IsBacked-jobs (λ k. k.id == j.id) (as_dead_letter error) db (λ _. refl) backed))
      | inr more ↦
          let next = j.attempt + 1 in
          let same : db' ≡ update_job j.id (as_retry next (now + backoff_ms j next) error) db =
            ground arith in
          rw same (
            IsBacked-jobs (λ k. k.id == j.id) (as_retry next (now + backoff_ms j next) error) db
              (λ _. refl) backed)
    ]

-- A lease keeps the events of the jobs, and the job that it took is found under its token.
pub leased :
    (o : LeaseJobOptions) (token now : ℕ) (l : LeaseJobResult) (db : Db)
    → (lease_job o token now db).0 ≡ some l
    → IsBacked db
    → (j : JobAttempt) × (find_job l.job_id (lease_job o token now db).1 ≡ some j)
      × (is_value j.lease_token token ≡ true)
      × IsBacked (lease_job o token now db).1
unfolding take_lease
leased o token now l db h backed = elim (Option-cases (job_to_lease o.job_type now db)) [
  | inl none_found ↦
      let none_leased = lease_job-none o token now db none_found in
      absurd (cc (ap (λ x. x.0) none_leased))
  | inr (j, found) ↦
      let until = now + lease_ms o in
      let made = lease_job-some o token now db j found in
      let is_l : (take_lease token until now j db).0 ≡ l =
        some-injective _ l (sym (ap (λ x. x.0) made) ∙ h) in
      let (k, row, held) =
        leased_row token until now j db (job_to_lease-row o.job_type now db j found) in
      rw (made, sym is_l)
        (
          k,
          row,
          held,
          IsBacked-jobs (λ x. x.id == j.id) (with_lease token until now) db (λ _. refl) backed,
        )
]

-- A call that reports the failure of a held job returns.
pub fail_job-IsBacked :
    (id token error now : ℕ) (j : JobAttempt) (db : Db)
    → find_job id db ≡ some j
    → is_value j.lease_token token ≡ true
    → IsBacked db
    → (db' : Db) × (fail_job id token error now db ≡ ok db') × IsBacked db'
fail_job-IsBacked id token error now j db found held backed =
    let (db', done) = fail_job_returns id token error now j db found held backed in
    let (_, rest) = fail_job-at id token error now j db db' found done in
    (db', done, fail_held_job-IsBacked error now j db db' rest backed)

pub lease_job-IsBacked :
    (o : LeaseJobOptions) (token now : ℕ) (db : Db)
    → IsBacked db
    → IsBacked (lease_job o token now db).1
unfolding take_lease
lease_job-IsBacked o token now db backed = elim (Option-cases (job_to_lease o.job_type now db)) [
  | inl none_found ↦ rw (lease_job-none o token now db none_found) backed
  | inr (j, found) ↦ rw (lease_job-some o token now db j found) (
      IsBacked-jobs (λ x. x.id == j.id) (with_lease token (now + lease_ms o) now) db (λ _. refl)
        backed)
]
