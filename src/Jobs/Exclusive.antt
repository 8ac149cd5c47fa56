-- ===== src/Jobs/Exclusive.antt =====
-- job-lease.service.ts: two workers and one lease, and calls with another token.
use learnault_api.Base.{
  ℕ, ◌+◌, ◌≤◌, ◌≡◌, ◌≢◌, refl, ap, ◌∙◌, some, List, [], ◌∷◌, ◌==◌, arith, Bool-cases, inl, inr,
}
use learnault_api.Base.Result.{ok, throw}
use learnault_api.Base.Table.{update_where, count_where, All}
use learnault_api.Base.Rows.{find_where-All, find_where-true}
use learnault_api.Jobs.{JobAttempt, Db, Outcome}
use learnault_api.Jobs.Lease.{
  LeaseJobOptions, LeaseJobResult, with_lease, take_lease, lease_job, lease_ms,
}
use learnault_api.Jobs.Lease.Cases.{lease_job-found, take_lease-job_id}
use learnault_api.Jobs.Finish.Cases.{complete_job-found, fail_job-found}
use mathlib.Core.Path.{subst}
use learnault_api.Jobs.Finish.{JobResult, holds_lease, complete_job, fail_job}
use learnault_api.Jobs.Held.{job_to_lease-ne, run_all-IsHeld}
use learnault_api.Jobs.Calls.{IsHeldRow, IsHeld, Op, complete, fail, db_or, run, run_all, IsOther}

-- A successful `leaseJob` makes the caller the holder.
pub update_where-IsHeld :
    (j : JobAttempt) (token until now : ℕ) (xs : List JobAttempt)
    → All
        (IsHeldRow j.id token until)
        (update_where (λ k. k.id == j.id) (with_lease token until now) xs)
update_where-IsHeld j token until now [] = tt
update_where-IsHeld j token until now (x ∷ xs) = (
  elim (Bool-cases (x.id == j.id)) [
    | inl e ↦ rw e (λ same. (refl, refl, refl))
    | inr e ↦ rw e (λ same. absurd (ground arith))
  ],
  update_where-IsHeld j token until now xs,
)

pub lease_job-holds :
    (o : LeaseJobOptions) (token now : ℕ) (db db' : Db) (r : LeaseJobResult)
    → lease_job o token now db ≡ (some r, db')
    → (r.leased_until ≡ now + lease_ms o) × IsHeld r.job_id token r.leased_until db'
unfolding take_lease
lease_job-holds o token now db db' r h =
    let (j, _, taken) = lease_job-found o token now db db' r h in
    subst
      (λ (x : LeaseJobResult × Db).
        (x.0.leased_until ≡ now + lease_ms o) × IsHeld x.0.job_id token x.0.leased_until x.1)
      taken (refl, update_where-IsHeld j token (now + lease_ms o) now db.jobs)

-- Where no two calls overlap: a leased job is given to nobody else until its lease ends, whatever calls
-- without its token, made before that end, lease, complete, fail, recover and reset in between.
pub lease_job_exclusive :
    (o o' : LeaseJobOptions) (token now token' now' : ℕ) (db db' : Db) (r r' : LeaseJobResult)
    (ops : List Op)
    → lease_job o token now db ≡ (some r, db')
    → All (IsOther token r.leased_until) ops
    → now' ≤ r.leased_until
    → (lease_job o' token' now' (run_all ops db')).0 ≡ some r'
    → r'.job_id ≢ r.job_id
lease_job_exclusive o o' token now token' now' db db' r r' ops h others le again =
    let (_, held) = lease_job-holds o token now db db' r h in
    let kept = run_all-IsHeld r.job_id token r.leased_until ops db' others held in
    let last = (lease_job o' token' now' (run_all ops db')).1 in
    let (j, found, taken) =
      lease_job-found o' token' now' (run_all ops db') last r' (ap (λ x. (x, last)) again) in
    let other =
      job_to_lease-ne r.job_id token r.leased_until o'.job_type now' (run_all ops db') j le kept
        found in
    λ same. other (take_lease-job_id token' (now' + lease_ms o') now' j _ last r' taken ∙ same)

db_or_refused : (db : Db) (m : Outcome Db) → ((db' : Db) → m ≢ ok db') → db_or db m ≡ db
db_or_refused db (ok db') k = absurd (k db' refl)
db_or_refused db (throw e) k = refl

count_where_none :
    (id token until token' : ℕ) (xs : List JobAttempt)
    → token' ≢ token
    → All (IsHeldRow id token until) xs
    → count_where (holds_lease id token') xs ≡ 0
count_where_none id token until token' [] ne h = refl
count_where_none id token until token' (x ∷ xs) ne (h, hs) =
    elim (Bool-cases (holds_lease id token' x)) [
      | inl e ↦ let f = h (ground arith) in absurd (ne (ground arith))
      | inr e ↦ rw e (count_where_none id token until token' xs ne hs)
    ]

no_complete :
    (id token until token' now : ℕ) (r : JobResult) (db : Db)
    → IsHeld id token until db
    → token' ≢ token
    → (db' : Db) → complete_job id token' r now db ≢ ok db'
no_complete id token until token' now r db h ne db' e =
    (complete_job-found id token' r now db db' e).0
      (count_where_none id token until token' db.jobs ne h)

no_fail :
    (id token until token' now error : ℕ) (db : Db)
    → IsHeld id token until db
    → token' ≢ token
    → (db' : Db) → fail_job id token' error now db ≢ ok db'
no_fail id token until token' now error db h ne db' e =
    let (j, g, t, rest) = fail_job-found id token' error now db db' e in
    let row = find_where-All (IsHeldRow id token until) (λ k. k.id == id) db.jobs j h g in
    let there = find_where-true (λ k. k.id == id) db.jobs j g in
    let f = row (ground arith) in ne (ground arith)

-- While a job is held, completing it or failing it with another token changes nothing.
pub stale_token_changes_nothing :
    (id token until token' now error : ℕ) (r : JobResult) (db : Db)
    → IsHeld id token until db
    → token' ≢ token
    → (run (complete id token' r now) db ≡ db) × (run (fail id token' error now) db ≡ db)
unfolding run
stale_token_changes_nothing id token until token' now error r db h ne = (
  db_or_refused db (complete_job id token' r now db)
      (no_complete id token until token' now r db h ne),
  db_or_refused db (fail_job id token' error now db)
      (no_fail id token until token' now error db h ne),
)
