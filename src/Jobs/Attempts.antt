-- ===== src/Jobs/Attempts.antt =====
-- job-lease.service.ts: the attempt counters.
use mathlib.Core.Path.{subst}
use mathlib.Core.Option.{some-injective}
use learnault_api.Base.{
  ℕ, ◌+◌, ◌<◌, ◌≡◌, ◌≢◌, refl, sym, ap, ◌∙◌, Bool, some, List, [], ◌∷◌, ◌==◌, Option-cases,
  Bool-cases, inl, inr, arith, map,
}
use learnault_api.Base.Result.{ok, throw}
use learnault_api.Base.Table.{find_where, update_where, All, All-update, All-map, All-update_with}
use learnault_api.Base.Rows.{find_where-All, find_where-true}
use learnault_api.Jobs.{JobAttempt, Db, Outcome}
use learnault_api.Jobs.Lease.{
  LeaseJobOptions, is_abandoned, with_lease, without_lease, job_to_lease, take_lease, lease_job,
  recover_abandoned_leases, lease_ms,
}
use learnault_api.Jobs.Lease.Cases.{lease_job-none, lease_job-some}
use learnault_api.Jobs.Finish.{
  JobResult, complete_job, reset_job_for_retry, fail_job, as_reset, holds_lease, as_completed,
}
use learnault_api.Jobs.Finish.Cases.{
  complete_job-jobs, as_failed, fail_held_job-jobs, fail_job-found, reset_job-found,
}
use learnault_api.Jobs.Calls.{Op, lease, complete, fail, recover, reset, db_or, run, run_all}

-- Every job has attempts left to make.
abbrev pub HasAttempts : JobAttempt → Type 0
HasAttempts j = j.attempt < j.max_attempts

-- No two rows have one id.
abbrev pub IsKeyed : List JobAttempt → Type 0
IsKeyed [] = Unit
IsKeyed (x ∷ xs) = All (λ y. y.id ≢ x.id) xs × IsKeyed xs

-- The row that is found under an id is the only one with that id.
only_row :
    (id : ℕ) (xs : List JobAttempt) (j : JobAttempt)
    → IsKeyed xs
    → find_where (λ k. k.id == id) xs ≡ some j
    → All (λ k. k.id ≡ j.id → k ≡ j) xs
only_row id [] j h e = tt
only_row id (x ∷ xs) j (h, hs) e = elim (Bool-cases (x.id == id)) [
  | inl g ↦
      let same : x ≡ j = some-injective x j (rw g at e) in
      (λ _. same, All-map _ _ xs (λ k ne eq. absurd (ne (eq ∙ ap JobAttempt.id (sym same)))) h)
  | inr g ↦
      let there = find_where-true (λ k. k.id == id) xs j (rw g at e) in
      (λ eq. absurd (ground arith), only_row id xs j hs (rw g at e))
]

update_where-ne :
    (p : JobAttempt → Bool) (f : JobAttempt → JobAttempt) (id : ℕ) (xs : List JobAttempt)
    → ((j : JobAttempt) → (f j).id ≡ j.id)
    → All (λ y. y.id ≢ id) xs
    → All (λ y. y.id ≢ id) (update_where p f xs)
update_where-ne p f id xs same h =
    All-update (λ y. y.id ≢ id) p f xs (λ y ne e eq. ne (sym (same y) ∙ eq)) h

update_where-IsKeyed :
    (p : JobAttempt → Bool) (f : JobAttempt → JobAttempt) (xs : List JobAttempt)
    → ((j : JobAttempt) → (f j).id ≡ j.id)
    → IsKeyed xs
    → IsKeyed (update_where p f xs)
update_where-IsKeyed p f [] same h = tt
update_where-IsKeyed p f (x ∷ xs) same (h, hs) = elim (Bool-cases (p x)) [
  | inl e ↦ rw (e, same x) (update_where-ne p f x.id xs same h, update_where-IsKeyed p f xs same hs)
  | inr e ↦ rw e (update_where-ne p f x.id xs same h, update_where-IsKeyed p f xs same hs)
]

-- The table has its primary key, and every job has attempts left.
pub record IsSound (xs : List JobAttempt) : Type 0 where
  pub keyed : IsKeyed xs
  pub attempts : All HasAttempts xs

update_where-IsSound :
    (p : JobAttempt → Bool) (f : JobAttempt → JobAttempt) (xs : List JobAttempt)
    → ((j : JobAttempt) → (f j).id ≡ j.id)
    → ((j : JobAttempt) → HasAttempts j → HasAttempts (f j))
    → IsSound xs
    → IsSound (update_where p f xs)
update_where-IsSound p f xs same keep s = record {
  keyed = update_where-IsKeyed p f xs same s.keyed;
  attempts = All-update HasAttempts p f xs (λ j h e. keep j h) s.attempts;
}

pub lease_job-IsSound :
    (o : LeaseJobOptions) (token now : ℕ) (db : Db)
    → IsSound db.jobs
    → IsSound (lease_job o token now db).1.jobs
lease_job-IsSound o token now db s = elim (Option-cases (job_to_lease o.job_type now db)) [
  | inl e ↦ rw (lease_job-none o token now db e) s
  | inr (j, e) ↦ rw (lease_job-some o token now db j e) (
      unfold take_lease in
      update_where-IsSound (λ k. k.id == j.id) (with_lease token (now + lease_ms o) now) db.jobs
        (λ k. refl) (λ k h. h) s)
]

pub fail_job-IsSound :
    (id token error now : ℕ) (db db' : Db)
    → IsSound db.jobs
    → fail_job id token error now db ≡ ok db'
    → IsSound db'.jobs
fail_job-IsSound id token error now db db' s e =
    let (j, found, _, held) = fail_job-found id token error now db db' e in
    let f = as_failed error now j in
    let has = find_where-All HasAttempts (λ k. k.id == id) db.jobs j s.attempts found in
    rw (fail_held_job-jobs error now j db db' held) (record {
      keyed = update_where-IsKeyed (λ k. k.id == j.id) f db.jobs (λ k. ground arith) s.keyed;
      attempts =
          All-update_with HasAttempts (λ k. k.id ≡ j.id → k ≡ j) (λ k. k.id == j.id) f db.jobs
            (λ k eq g h. subst (λ x. HasAttempts (f x)) (sym (eq (ground arith))) (ground arith))
            (only_row id db.jobs j s.keyed found) s.attempts;
    })

pub complete_job-IsSound :
    (id token : ℕ) (r : JobResult) (now : ℕ) (db db' : Db)
    → IsSound db.jobs
    → complete_job id token r now db ≡ ok db'
    → IsSound db'.jobs
complete_job-IsSound id token r now db db' s e = rw (complete_job-jobs id token r now db db' e) (
    update_where-IsSound (holds_lease id token) (as_completed r now) db.jobs (λ k. refl) (λ k h. h)
      s)

reset_job-IsSound :
    (id now : ℕ) (db db' : Db)
    → IsSound db.jobs
    → reset_job_for_retry id now db ≡ ok db'
    → IsSound db'.jobs
reset_job-IsSound id now db db' s e =
    let (j, found, _, same) = reset_job-found id now db db' e in
    rw same (
      update_where-IsSound (λ k. k.id == id) (as_reset now) db.jobs (λ k. refl) (λ k h. omega arith)
        s)

db_or-IsSound :
    (db : Db) (m : Outcome Db)
    → IsSound db.jobs
    → ((db' : Db) → m ≡ ok db' → IsSound db'.jobs)
    → IsSound (db_or db m).jobs
db_or-IsSound db (ok db') s k = k db' refl
db_or-IsSound db (throw e) s k = s

run-IsSound : (op : Op) (db : Db) → IsSound db.jobs → IsSound (run op db).jobs
unfolding run
run-IsSound (lease o token now) db s = lease_job-IsSound o token now db s
run-IsSound (complete id token r now) db s =
    db_or-IsSound db (complete_job id token r now db) s
      (λ db' e. complete_job-IsSound id token r now db db' s e)
run-IsSound (fail id token error now) db s =
    db_or-IsSound db (fail_job id token error now db) s
      (λ db' e. fail_job-IsSound id token error now db db' s e)
run-IsSound (recover now) db s =
    unfold recover_abandoned_leases in
    update_where-IsSound (is_abandoned now) without_lease db.jobs (λ k. refl) (λ k h. h) s
run-IsSound (reset id now) db s =
    db_or-IsSound db (reset_job_for_retry id now db) s
      (λ db' e. reset_job-IsSound id now db db' s e)

-- From a table with distinct ids and attempts left for every job, whatever is leased, completed,
-- failed, recovered and reset, the ids stay distinct and no job's attempt counter reaches its
-- limit.
pub run_all-IsSound : (ops : List Op) (db : Db) → IsSound db.jobs → IsSound (run_all ops db).jobs
unfolding run_all
run_all-IsSound [] db s = s
run_all-IsSound (op ∷ ops) db s = run_all-IsSound ops (run op db) (run-IsSound op db s)

-- A call that gives a lease out or takes an expired one back.
abbrev pub IsLeasing : Op → Type 0
IsLeasing (lease o token now) = Unit
IsLeasing (recover now) = Unit
IsLeasing _ = ⊥

abbrev pub attempts_of : Db → List ℕ
attempts_of db = map (λ j. j.attempt) db.jobs

update_where-attempts :
    (p : JobAttempt → Bool) (f : JobAttempt → JobAttempt) (xs : List JobAttempt)
    → ((j : JobAttempt) → (f j).attempt ≡ j.attempt)
    → map (λ j. j.attempt) (update_where p f xs) ≡ map (λ j. j.attempt) xs
update_where-attempts p f [] same = refl
update_where-attempts p f (x ∷ xs) same = elim (Bool-cases (p x)) [
  | inl e ↦ rw (e, same x, update_where-attempts p f xs same)
  | inr e ↦ rw (e, update_where-attempts p f xs same)
]

lease_job-attempts :
    (o : LeaseJobOptions) (token now : ℕ) (db : Db)
    → attempts_of (lease_job o token now db).1 ≡ attempts_of db
lease_job-attempts o token now db = elim (Option-cases (job_to_lease o.job_type now db)) [
  | inl e ↦ rw (lease_job-none o token now db e)
  | inr (j, e) ↦ rw (lease_job-some o token now db j e) (
      unfold take_lease in
      update_where-attempts (λ k. k.id == j.id) (with_lease token (now + lease_ms o) now) db.jobs
        (λ k. refl))
]

leasing-attempts : (op : Op) (db : Db) → IsLeasing op → attempts_of (run op db) ≡ attempts_of db
unfolding run
leasing-attempts (lease o token now) db _ = lease_job-attempts o token now db
leasing-attempts (recover now) db _ =
    unfold recover_abandoned_leases in
    update_where-attempts (is_abandoned now) without_lease db.jobs (λ k. refl)
leasing-attempts (complete id token r now) db h = absurd h
leasing-attempts (fail id token error now) db h = absurd h
leasing-attempts (reset id now) db h = absurd h

-- After any number of leases and recoveries every attempt counter stands where it stood.
pub leases_never_count :
    (ops : List Op) (db : Db) → All IsLeasing ops → attempts_of (run_all ops db) ≡ attempts_of db
unfolding run_all
leases_never_count [] db h = refl
leases_never_count (op ∷ ops) db (h, hs) =
    leases_never_count ops (run op db) hs ∙ leasing-attempts op db h
