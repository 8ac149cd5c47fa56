-- ===== src/Jobs/RolledBack.antt =====
-- outbox.service.ts and job-lease.service.ts: what marking an event as rolled back does to its jobs.
use learnault_api.Base.{ℕ, ◌≡◌, ap, refl, Option, none, some, Option-cases, inl, inr}
use learnault_api.Base.Result.{ok}
use learnault_api.Jobs.{JobAttempt, Db}
use learnault_api.Jobs.Lease.{LeaseJobOptions, LeaseJobResult, job_to_lease, take_lease, lease_job}
use learnault_api.Jobs.Lease.Cases.{lease_job-none, lease_job-some}
use learnault_api.Jobs.Finish.Cases.{update_event-jobs}
use learnault_api.Jobs.Outbox.{mark_rolled_back, add_rolled_back, event_as_rolled_back}

abbrev pub leased_id : Option LeaseJobResult → Option ℕ
leased_id none = none
leased_id (some r) = some r.job_id

abbrev id_of : Option JobAttempt → Option ℕ
id_of none = none
id_of (some j) = some j.id

leased_id_lem :
    (o : LeaseJobOptions) (token now : ℕ) (db : Db)
    → leased_id (lease_job o token now db).0 ≡ id_of (job_to_lease o.job_type now db)
leased_id_lem o token now db = elim (Option-cases (job_to_lease o.job_type now db)) [
  | inl e ↦ rw (lease_job-none o token now db e, e)
  | inr (j, e) ↦ rw (lease_job-some o token now db j e, e) (unfold take_lease in refl)
]

job_to_lease_same :
    (type now : ℕ) (db db' : Db)
    → db'.jobs ≡ db.jobs
    → job_to_lease type now db' ≡ job_to_lease type now db
unfolding job_to_lease
job_to_lease_same type now db db' same =
    ap (λ jobs. job_to_lease type now (record db { jobs = jobs })) same

same_jobs_leased :
    (o : LeaseJobOptions) (token now : ℕ) (db db' : Db)
    → db'.jobs ≡ db.jobs
    → leased_id (lease_job o token now db').0 ≡ leased_id (lease_job o token now db).0
same_jobs_leased o token now db db' same = rw (
  leased_id_lem o token now db',
  leased_id_lem o token now db,
  job_to_lease_same o.job_type now db db' same,
)

-- A successful mark of an event as rolled back does not stop its jobs: every worker is given the
-- same job after the mark as before it.
pub mark_rolled_back_leases :
    (id : ℕ) (reason : Option ℕ) (at : ℕ) (o : LeaseJobOptions) (token now : ℕ) (db db' : Db)
    → (mark_rolled_back id reason at db).0 ≡ ok db'
    → leased_id (lease_job o token now db').0 ≡ leased_id (lease_job o token now db).0
unfolding mark_rolled_back
mark_rolled_back_leases id reason at o token now db db' h =
    same_jobs_leased o token now db db'
      (update_event-jobs id event_as_rolled_back (add_rolled_back id reason at db) db' h)
