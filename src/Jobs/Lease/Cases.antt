-- ===== src/Jobs/Lease/Cases.antt =====
-- job-lease.service.ts: `leaseJob` by what its queries find.
use learnault_api.Base.{ℕ, ◌+◌, ◌≡◌, none, some, Option-cases, inl, inr, ap, arith}
use learnault_api.Jobs.{JobAttempt, Db}
use learnault_api.Jobs.Lease.{
  LeaseJobOptions, LeaseJobResult, lease_ms, job_to_lease, take_lease, lease_job,
}

pub lease_job-none :
    (o : LeaseJobOptions) (token now : ℕ) (db : Db)
    → job_to_lease o.job_type now db ≡ none
    → lease_job o token now db ≡ (none, db)
unfolding lease_job
lease_job-none o token now db e = rw (e, lease_job)

pub lease_job-some :
    (o : LeaseJobOptions) (token now : ℕ) (db : Db) (j : JobAttempt)
    → job_to_lease o.job_type now db ≡ some j
    → lease_job o token now db ≡ (
      some (take_lease token (now + lease_ms o) now j db).0,
      (take_lease token (now + lease_ms o) now j db).1,
    )
unfolding lease_job
lease_job-some o token now db j e = rw (e, lease_job)

-- A successful call took a job that its queries found.
pub lease_job-found :
    (o : LeaseJobOptions) (token now : ℕ) (db db' : Db) (r : LeaseJobResult)
    → lease_job o token now db ≡ (some r, db')
    → (j : JobAttempt) × (job_to_lease o.job_type now db ≡ some j)
      × (take_lease token (now + lease_ms o) now j db ≡ (r, db'))
lease_job-found o token now db db' r h = elim (Option-cases (job_to_lease o.job_type now db)) [
  | inl e ↦ absurd (cc (lease_job-none o token now db e))
  | inr (j, e) ↦ (j, e, ground (arith, lease_job-some o token now db j e))
]

pub take_lease-job_id :
    (token until now : ℕ) (j : JobAttempt) (db db' : Db) (r : LeaseJobResult)
    → take_lease token until now j db ≡ (r, db')
    → j.id ≡ r.job_id
unfolding take_lease
take_lease-job_id token until now j db db' r e = ap (λ (x : LeaseJobResult × Db). x.0.job_id) e
