-- ===== src/Jobs/Lease.antt =====
-- src/lib/transactions/job-lease.service.ts: `leaseJob` and `recoverAbandonedLeases`.
pub mod Cases
use learnault_api.Base.{
  ℕ, ◌+◌, Bool, true, false, ◌&&◌, Option, none, some, ltb, leb, ◌==◌, if◌then◌else◌,
}
use learnault_api.Base.Table.{find_where, update_where, count_where, first_by}
use learnault_api.Jobs.{JobStatus, JobAttempt, OutboxEvent, Db, is_pending, is_leased, or_zero}

pub record LeaseJobOptions : Type 0 where
  pub job_type : ℕ
  pub max_lease_ms : Option ℕ

pub record LeaseJobResult : Type 0 where
  pub job_id : ℕ
  pub lease_token : ℕ
  pub leased_until : ℕ
  pub attempt : ℕ
  pub payload : Option ℕ

-- `options.maxLeaseMs ?? 30000`
abbrev pub lease_ms : LeaseJobOptions → ℕ
lease_ms o = elim o.max_lease_ms [ none ↦ 30_000 | some ms ↦ ms ]

-- `leasedUntil < now`
abbrev pub is_expired : ℕ → Option ℕ → Bool
is_expired now none = false
is_expired now (some until) = ltb until now

-- The two queries of `leaseJob`.
abbrev pub is_ready : ℕ → ℕ → JobAttempt → Bool
is_ready job_type now j = j.job_type == job_type && (is_pending j.status && leb j.available_at now)

abbrev pub is_abandoned : ℕ → JobAttempt → Bool
is_abandoned now j = is_leased j.status && is_expired now j.leased_until

abbrev pub is_abandoned_of : ℕ → ℕ → JobAttempt → Bool
is_abandoned_of job_type now j = j.job_type == job_type && is_abandoned now j

abbrev pub with_lease : ℕ → ℕ → ℕ → JobAttempt → JobAttempt
with_lease token until now j = record j {
  status = JobStatus.leased;
  lease_token = some token;
  leased_until = some until;
  last_attempt_at = some now;
}

-- The job that `leaseJob` takes: the oldest that is ready, or else the one whose lease ran out first.
unfoldable pub job_to_lease : ℕ → ℕ → Db → Option JobAttempt
job_to_lease job_type now db =
    let ready = first_by (λ j. j.created_at) (is_ready job_type now) db.jobs in
    let abandoned = first_by (λ j. or_zero j.leased_until) (is_abandoned_of job_type now) db.jobs in
    elim ready [ some j ↦ some j | none ↦ abandoned ]

-- `JSON.parse(outboxEvent.payload)`; a job's foreign key says that its event is there.
abbrev pub payload_of : ℕ → Db → Option ℕ
payload_of event_id db = elim (find_where (λ e. e.id == event_id) db.events) [
  | none ↦ none
  | some e ↦ some e.payload
]

unfoldable pub take_lease : ℕ → ℕ → ℕ → JobAttempt → Db → LeaseJobResult × Db
take_lease token until now j db =
    let db' = record db {
      jobs = update_where (λ k. k.id == j.id) (with_lease token until now) db.jobs;
    } in
    (
      record {
        job_id = j.id;
        lease_token = token;
        leased_until = until;
        attempt = j.attempt;
        payload = payload_of j.outbox_event_id db;
      },
      db',
    )

-- `leaseJob`, with the fresh token and the time that it reads, and no other call between its queries and
-- its update, which looks at the id alone.
unfoldable pub lease_job : LeaseJobOptions → ℕ → ℕ → Db → Option LeaseJobResult × Db
unfolding job_to_lease take_lease
lease_job options token now db = elim (job_to_lease options.job_type now db) [
  | none ↦ (none, db)
  | some j ↦ let (r, db') = take_lease token (now + lease_ms options) now j db in (some r, db')
]

abbrev pub without_lease : JobAttempt → JobAttempt
without_lease j = record j { status = JobStatus.pending; lease_token = none; leased_until = none }

-- `recoverAbandonedLeases`: the number of jobs and the new table.
unfoldable pub recover_abandoned_leases : ℕ → Db → ℕ × Db
recover_abandoned_leases now db = (
  count_where (is_abandoned now) db.jobs,
  record db { jobs = update_where (is_abandoned now) without_lease db.jobs },
)
