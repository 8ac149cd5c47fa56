-- ===== src/Jobs/Overlap.antt =====
-- job-lease.service.ts: leases and calls that overlap.
use learnault_api.Base.{ℕ, ◌+◌, ◌≤◌, ◌≡◌, ◌≢◌, refl, some, List, [], ◌∷◌, ◌++◌, ◌==◌, arith}
use learnault_api.Base.Table.{All}
use learnault_api.Base.Rows.{find_where-All, find_where-true}
use mathlib.Core.Path.{subst}
use learnault_api.Jobs.{JobAttempt, Db}
use learnault_api.Jobs.Lease.{LeaseJobOptions, lease_ms, job_to_lease, take_lease}
use learnault_api.Jobs.Finish.{as_reset}
use learnault_api.Jobs.Finish.Cases.{as_failed, fail_held_job-jobs}
use learnault_api.Jobs.Calls.{IsHeldRow, IsHeld}
use learnault_api.Jobs.Held.{
  job_to_lease-ne, take_lease-IsHeld, recover_abandoned_leases-IsHeld, update_other-IsHeld,
  complete_job-IsHeld,
}
use learnault_api.Jobs.Exclusive.{update_where-IsHeld}
use learnault_api.Jobs.Pieces.{
  Open, leasing, failing, resetting, job_of, Live, Step, lease_reads, lease_writes, fail_reads,
  fail_writes, reset_reads, reset_writes, completes, recovers, Run, here, next, ByOther, AllByOther,
}

-- The job is held, and no call that is under way is about to write it.
pub record IsSafe (id token until : ℕ) (s : Live) : Type 0 where
  pub held : IsHeld id token until s.db
  pub others : All (λ c. job_of c ≢ id) s.calls

-- A list of calls without one of them.
without_one :
    (P : Open → Type 0) (xs ys : List Open) (c : Open)
    → All P (xs ++ c ∷ ys)
    → P c × All P (xs ++ ys)
without_one P [] ys c (h, hs) = (h, hs)
without_one P (x ∷ xs) ys c (h, hs) = let (is, rest) = without_one P xs ys c hs in (is, (h, rest))

module _ (id token until : ℕ) (s : Live) (h : IsSafe id token until s) where
  -- The call that writes is another job's.
  writer :
      (c : Open) (xs ys : List Open)
      → s.calls ≡ xs ++ c ∷ ys
      → (job_of c ≢ id) × All (λ d. job_of d ≢ id) (xs ++ ys)
  writer c xs ys e =
      without_one (λ d. job_of d ≢ id) xs ys c (subst (All (λ d. job_of d ≢ id)) e h.others)

  step-IsSafe : {t : Live} (step : Step s t) → ByOther token until step → IsSafe id token until t
  step-IsSafe (lease_reads o token' now j e) le = record {
    held = h.held;
    others = (job_to_lease-ne id token until o.job_type now s.db j le h.held e, h.others);
  }
  step-IsSafe (lease_writes o token' now j xs ys e) other =
      let (ne, rest) = writer (leasing o token' now j) xs ys e in
      record {
        held = take_lease-IsHeld id token until token' (now + lease_ms o) now j s.db ne h.held;
        others = rest;
      }
  step-IsSafe (fail_reads id' token' error j e holds) ne = record {
    held = h.held;
    others = (
      let row = find_where-All (IsHeldRow id token until) (λ k. k.id == id') s.db.jobs j h.held e in
          λ same. let f = row same in absurd (ne (ground arith)),
      h.others,
    );
  }
  step-IsSafe (fail_writes error now j db' xs ys e done) other =
      let (ne, rest) = writer (failing error j) xs ys e in
      record {
        held = rw (fail_held_job-jobs error now j s.db db' done) (
            update_other-IsHeld id token until (as_failed error now j) j.id s.db.jobs ne
              (λ k. ground arith) h.held);
        others = rest;
      }
  step-IsSafe (reset_reads id' j e dead) other = record {
    held = h.held;
    others = (
      let row = find_where-All (IsHeldRow id token until) (λ k. k.id == id') s.db.jobs j h.held e in
          let there = find_where-true (λ k. k.id == id') s.db.jobs j e in
          λ same. let f = row (ground arith) in absurd (ground arith),
      h.others,
    );
  }
  step-IsSafe (reset_writes id' now xs ys e) other =
      let (ne, rest) = writer (resetting id') xs ys e in
      record {
        held =
            update_other-IsHeld id token until (as_reset now) id' s.db.jobs ne (λ k. refl) h.held;
        others = rest;
      }
  step-IsSafe (completes id' token' r now db' e) ne = record {
    held = complete_job-IsHeld id token until id' token' r now s.db db' ne h.held e;
    others = h.others;
  }
  step-IsSafe (recovers now) le = record {
    held = recover_abandoned_leases-IsHeld id token until now s.db le h.held;
    others = h.others;
  }

run-IsSafe :
    (id token until : ℕ) (s t : Live) (path : Run s t)
    → AllByOther token until path
    → IsSafe id token until s
    → IsSafe id token until t
run-IsSafe id token until s _ here others h = h
run-IsSafe id token until s t (next {t = u} path step) (others, other) h =
    step-IsSafe id token until u (run-IsSafe id token until s u path others h) step other

-- Calls may overlap: once `leaseJob` has written its lease, and if no other call had read that job before
-- and was about to write it, then however the reads and writes of calls that start before the lease ends
-- and do not present its token interleave, the job stays leased under that token until that time, no
-- call under way is about to write it, and `leaseJob` finds another job or none.
pub take_lease_exclusive :
    (o : LeaseJobOptions) (token now : ℕ) (j : JobAttempt) (db : Db) (calls : List Open) (t : Live)
    (path : Run (record { db = (take_lease token (now + lease_ms o) now j db).1; calls = calls }) t)
    → All (λ c. job_of c ≢ j.id) calls
    → AllByOther token (now + lease_ms o) path
    → IsSafe j.id token (now + lease_ms o) t
      × ((type now' : ℕ) (k : JobAttempt)
          → now' ≤ now + lease_ms o
          → job_to_lease type now' t.db ≡ some k
          → k.id ≢ j.id)
unfolding take_lease
take_lease_exclusive o token now j db calls t path fresh others =
    let start : Live = record {
      db = (take_lease token (now + lease_ms o) now j db).1;
      calls = calls;
    } in
    let safe = run-IsSafe j.id token (now + lease_ms o) start t path others (record {
      held = update_where-IsHeld j token (now + lease_ms o) now db.jobs;
      others = fresh;
    }) in
    (
      safe,
      λ type now' k le found.
          job_to_lease-ne j.id token (now + lease_ms o) type now' t.db k le safe.held found,
    )
