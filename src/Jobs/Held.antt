-- ===== src/Jobs/Held.antt =====
-- job-lease.service.ts: the job of a lease under the calls of others.
use learnault_api.Base.{
  ℕ, ◌+◌, ◌≤◌, ◌≡◌, ◌≢◌, refl, ◌∙◌, true, some, List, [], ◌∷◌, ◌==◌, arith, Option-cases, inl, inr,
}
use learnault_api.Base.Result.{ok, throw}
use learnault_api.Base.Table.{update_where, first_by, All, All-map, All-update}
use learnault_api.Base.Rows.{find_where-All, find_where-true, first_by-All}
use learnault_api.Jobs.{JobAttempt, Db, Outcome, or_zero}
use learnault_api.Jobs.Lease.{
  LeaseJobOptions, is_ready, is_abandoned, is_abandoned_of, with_lease, without_lease, job_to_lease,
  take_lease, lease_job, recover_abandoned_leases, lease_ms,
}
use learnault_api.Jobs.Lease.Cases.{lease_job-none, lease_job-some}
use learnault_api.Jobs.Finish.Cases.{
  complete_job-jobs, as_failed, fail_held_job-jobs, fail_job-found, reset_job-found,
}
use learnault_api.Jobs.Finish.{
  as_reset, JobResult, holds_lease, as_completed, complete_job, fail_job, reset_job_for_retry,
}
use learnault_api.Jobs.Calls.{
  IsHeldRow, Op, lease, complete, fail, recover, reset, db_or, run, run_all, IsOther,
}

module _ (id token until : ℕ) where
  abbrev pub Row : JobAttempt → Type 0
  Row = IsHeldRow id token until

  pub not_ready : (type now : ℕ) (j : JobAttempt) → Row j → is_ready type now j ≡ true → j.id ≢ id
  not_ready type now j h e same = let f = h same in ground arith

  pub not_abandoned :
      (now : ℕ) (j : JobAttempt) → now ≤ until → Row j → is_abandoned now j ≡ true → j.id ≢ id
  not_abandoned now j le h e same = let f = h same in ground arith

  -- The job that a call of `leaseJob` takes is another one.
  pub job_to_lease-ne :
      (type now : ℕ) (db : Db) (j : JobAttempt)
      → now ≤ until
      → All Row db.jobs
      → job_to_lease type now db ≡ some j
      → j.id ≢ id
  unfolding job_to_lease
  job_to_lease-ne type now db j le h e =
      elim (Option-cases (first_by (λ k. k.created_at) (is_ready type now) db.jobs)) [
        | inl no_ready ↦
            first_by-All (λ k. k.id ≢ id) (λ k. or_zero k.leased_until) (is_abandoned_of type now)
              db.jobs j (All-map Row _ db.jobs (λ k r a. not_abandoned now k le r (ground arith)) h)
              (rw (no_ready, job_to_lease) at e)
        | inr (k, ready) ↦
            first_by-All (λ k. k.id ≢ id) (λ k. k.created_at) (is_ready type now) db.jobs j
              (All-map Row _ db.jobs (λ k r a. not_ready type now k r a) h)
              (ready ∙ rw (ready, job_to_lease) at e)
      ]

  pub take_lease-IsHeld :
      (token' until' now : ℕ) (j : JobAttempt) (db : Db)
      → j.id ≢ id
      → All Row db.jobs
      → All Row (take_lease token' until' now j db).1.jobs
  unfolding take_lease
  take_lease-IsHeld token' until' now j db ne h =
      All-update Row (λ k. k.id == j.id) (with_lease token' until' now) db.jobs
        (λ k r e same. absurd (ne (ground arith))) h

  pub lease_job-IsHeld :
      (o : LeaseJobOptions) (token' now : ℕ) (db : Db)
      → now ≤ until
      → All Row db.jobs
      → All Row (lease_job o token' now db).1.jobs
  lease_job-IsHeld o token' now db le h = elim (Option-cases (job_to_lease o.job_type now db)) [
    | inl e ↦ rw (lease_job-none o token' now db e) h
    | inr (j, e) ↦ rw (lease_job-some o token' now db j e) (
        take_lease-IsHeld token' (now + lease_ms o) now j db
          (job_to_lease-ne o.job_type now db j le h e) h)
  ]

  pub recover_abandoned_leases-IsHeld :
      (now : ℕ) (db : Db)
      → now ≤ until
      → All Row db.jobs
      → All Row (recover_abandoned_leases now db).1.jobs
  unfolding recover_abandoned_leases
  recover_abandoned_leases-IsHeld now db le h =
      All-update Row (is_abandoned now) without_lease db.jobs
        (λ k r e same. absurd (not_abandoned now k le r e same)) h

  -- An update of the row with an id leaves the held row alone, if the row that was found is not it.
  pub update_other-IsHeld :
      (f : JobAttempt → JobAttempt) (id' : ℕ) (xs : List JobAttempt)
      → id' ≢ id
      → ((j : JobAttempt) → (f j).id ≡ j.id)
      → All Row xs
      → All Row (update_where (λ k. k.id == id') f xs)
  update_other-IsHeld f id' xs ne same h =
      All-update Row (λ k. k.id == id') f xs (λ k r e g. absurd (ne (ground (arith, same k)))) h

  pub complete_job-IsHeld :
      (id' token' : ℕ) (r : JobResult) (now : ℕ) (db db' : Db)
      → token' ≢ token
      → All Row db.jobs
      → complete_job id' token' r now db ≡ ok db'
      → All Row db'.jobs
  complete_job-IsHeld id' token' r now db db' ne h e =
      rw (complete_job-jobs id' token' r now db db' e) (
        All-update Row (holds_lease id' token') (as_completed r now) db.jobs
          (λ k row g same. let f = row same in absurd (ne (ground arith))) h)

  pub fail_job-IsHeld :
      (id' token' error now : ℕ) (db db' : Db)
      → token' ≢ token
      → All Row db.jobs
      → fail_job id' token' error now db ≡ ok db'
      → All Row db'.jobs
  fail_job-IsHeld id' token' error now db db' ne h e =
      let (j, g, t, rest) = fail_job-found id' token' error now db db' e in
      let row = find_where-All Row (λ k. k.id == id') db.jobs j h g in
      rw (fail_held_job-jobs error now j db db' rest) (
        update_other-IsHeld (as_failed error now j) j.id db.jobs
          (λ same. let f = row same in ne (ground arith)) (λ k. ground arith) h)

  pub reset_job-IsHeld :
      (id' now : ℕ) (db db' : Db)
      → All Row db.jobs
      → reset_job_for_retry id' now db ≡ ok db'
      → All Row db'.jobs
  reset_job-IsHeld id' now db db' h e =
      let (j, g, dead, same_db) = reset_job-found id' now db db' e in
      let row = find_where-All Row (λ k. k.id == id') db.jobs j h g in
      let there = find_where-true (λ k. k.id == id') db.jobs j g in
      rw same_db (
        update_other-IsHeld (as_reset now) id' db.jobs
          (λ same. let f = row (ground arith) in absurd (ground arith)) (λ k. refl) h)

  pub db_or-IsHeld :
      (db : Db) (m : Outcome Db)
      → All Row db.jobs
      → ((db' : Db) → m ≡ ok db' → All Row db'.jobs)
      → All Row (db_or db m).jobs
  db_or-IsHeld db (ok db') h k = k db' refl
  db_or-IsHeld db (throw e) h k = h

  pub run-IsHeld :
      (op : Op) (db : Db) → IsOther token until op → All Row db.jobs → All Row (run op db).jobs
  unfolding run
  run-IsHeld (lease o token' now) db le h = lease_job-IsHeld o token' now db le h
  run-IsHeld (complete id' token' r now) db ne h =
      db_or-IsHeld db (complete_job id' token' r now db) h
        (λ db' e. complete_job-IsHeld id' token' r now db db' ne h e)
  run-IsHeld (fail id' token' error now) db ne h =
      db_or-IsHeld db (fail_job id' token' error now db) h
        (λ db' e. fail_job-IsHeld id' token' error now db db' ne h e)
  run-IsHeld (recover now) db le h = recover_abandoned_leases-IsHeld now db le h
  run-IsHeld (reset id' now) db other h =
      db_or-IsHeld db (reset_job_for_retry id' now db) h
        (λ db' e. reset_job-IsHeld id' now db db' h e)

  pub run_all-IsHeld :
      (ops : List Op) (db : Db)
      → All (IsOther token until) ops
      → All Row db.jobs
      → All Row (run_all ops db).jobs
  unfolding run_all
  run_all-IsHeld [] db others h = h
  run_all-IsHeld (op ∷ ops) db (other, others) h =
      run_all-IsHeld ops (run op db) others (run-IsHeld op db other h)
