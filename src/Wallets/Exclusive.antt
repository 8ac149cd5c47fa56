-- ===== src/Wallets/Exclusive.antt =====
-- wallet-provisioning.repository.ts: the lease of a claimed job under the calls of others.
use learnault_api.Base.{
  ℕ, ◌+◌, ◌≤◌, ◌≡◌, ◌≢◌, refl, sym, ap, ◌∙◌, true, Option, none, some, List, [], ◌∷◌, ◌==◌, arith,
  Bool-cases, Option-cases, inl, inr,
}
use learnault_api.Base.Result.{ok, throw}
use learnault_api.Base.Table.{find_where, update_where, All, All-map, All-update, All-update_with}
use learnault_api.Base.Rows.{find_where-All, find_where-true}
use learnault_api.Base.Unique.{updated, All-updated}
use mathlib.Core.Path.{subst}
use learnault_api.Wallets.{
  Wallet, WalletJob, WalletJobStatus, StoredStellarKey, FailureCode, Db, Outcome,
}
use learnault_api.Wallets.Linked.{IsSound}
use learnault_api.Wallets.Claim.{
  Claimed, is_candidate, candidate, take_claim, claim_candidate, as_processing,
}
use learnault_api.Wallets.Finish.{
  holds_lease, as_completed, as_failed_job, complete, record_failure, write_failure,
}
use learnault_api.Wallets.Cases.{
  claim_candidate-none, claim_candidate-some, candidate-found, complete-found, activate-tables,
  record_failure-found,
}
use learnault_api.Wallets.Kept.{run-IsSound}
use learnault_api.Wallets.Calls.{
  Op, reserve, claim, finish, fail, db_or, db_or_same, run, DrawsFresh,
}

-- The row with this id is processed under this token until this time.
abbrev pub IsHeldRow : ℕ → ℕ → ℕ → WalletJob → Type 0
IsHeldRow id token until j =
    j.id ≡ id
    → (j.status ≡ WalletJobStatus.processing)
      × (j.lease_token ≡ some token)
      × (j.leased_until ≡ some until)

-- A claim made before the lease ends, or a completion or a failure with another token; a new request
-- of a user is no such call.
abbrev pub IsOther : ℕ → ℕ → Op → Type 0
IsOther token until (reserve fresh user_id network now) = ⊥
IsOther token until (claim job_id token' now lease_ms) = now ≤ until
IsOther token until (finish fresh_id wallet_id token' m now) = token' ≢ token
IsOther token until (fail wallet_id token' code retry_at now) = token' ≢ token

unfoldable pub run_all : List Op → Db → Db
unfolding run
run_all [] db = db
run_all (op ∷ ops) db = run_all ops (run op db)

draws_nothing : (token until : ℕ) (op : Op) (db : Db) → IsOther token until op → DrawsFresh op db
draws_nothing token until (reserve fresh user_id network now) db h = absurd h
draws_nothing token until (claim job_id token' now lease_ms) db h = tt
draws_nothing token until (finish fresh_id wallet_id token' m now) db h = tt
draws_nothing token until (fail wallet_id token' code retry_at now) db h = tt

module _ (id token until : ℕ) where
  abbrev Row : WalletJob → Type 0
  Row = IsHeldRow id token until

  not_candidate :
      (job_id now : ℕ) (k : WalletJob)
      → now ≤ until
      → Row k
      → is_candidate job_id now k ≡ true
      → k.id ≢ id
  not_candidate job_id now k le h e same = let f = h same in ground arith

  claim-Row :
      (job_id token' now lease_ms : ℕ) (db : Db)
      → now ≤ until
      → All Row db.jobs
      → All Row (claim_candidate job_id token' now lease_ms db).1.jobs
  unfolding take_claim
  claim-Row job_id token' now lease_ms db le h = elim (Option-cases (candidate job_id now db)) [
    | inl e ↦ rw (claim_candidate-none job_id token' now lease_ms db e) h
    | inr (c, e) ↦ rw (claim_candidate-some job_id token' now lease_ms db c e) (
        All-update Row (is_candidate c.job.id now) (as_processing token' (now + lease_ms)) db.jobs
          (λ k r g same. absurd (not_candidate c.job.id now k le r g same)) h)
  ]

  -- An update of the job of a wallet leaves the held row alone, when that job is held under another
  -- token.
  update-Row :
      (wallet_id token' : ℕ) (f : WalletJob → WalletJob) (j : WalletJob) (js : List WalletJob)
      → ((k : WalletJob) → (f k).id ≡ k.id)
      → find_where (λ k. k.wallet_id == wallet_id) js ≡ some j
      → All (λ k. j.wallet_id ≡ k.wallet_id → j ≡ k) js
      → holds_lease token' j ≡ true
      → token' ≢ token
      → All Row js
      → All Row (update_where (λ k. k.wallet_id == wallet_id) f js)
  update-Row wallet_id token' f j js same there only held ne h =
      let is = find_where-true (λ k. k.wallet_id == wallet_id) js j there in
      let row = find_where-All Row (λ k. k.wallet_id == wallet_id) js j h there in
      let not_it : j.id ≢ id = λ eq. (let r = row eq in ne (ground arith)) in
      All-update_with Row (λ k. j.wallet_id ≡ k.wallet_id → j ≡ k) (λ k. k.wallet_id == wallet_id) f
        js
        (λ k eq g r at_id.
          absurd (not_it (ap WalletJob.id (eq (ground arith)) ∙ sym (same k) ∙ at_id)))
        only h

  complete-Row :
      (fresh_id wallet_id token' : ℕ) (m : StoredStellarKey) (now : ℕ) (db db' : Db) (w : Wallet)
      → IsSound db.wallets db.jobs
      → token' ≢ token
      → complete fresh_id wallet_id token' m now db ≡ ok (w, db')
      → All Row db.jobs
      → All Row db'.jobs
  complete-Row fresh_id wallet_id token' m now db db' w' s ne e h =
      let (j, w, there, found, rest) = complete-found fresh_id wallet_id token' m now db db' w' e in
      elim rest [
        | inl (_, _, same) ↦ rw (sym same) h
        | inr (_, held, done) ↦
            let (_, _, js) = activate-tables fresh_id m now w w' db db' done in
            let is = find_where-true (λ x. x.id == wallet_id) db.wallets w found in
            let eq : w.id ≡ wallet_id = ground arith in
            rw (js, eq)
              (update-Row wallet_id token' (as_completed now) j db.jobs (λ k. refl) there
                (find_where-All _ _ db.jobs j s.job_wallets there) held ne h)
      ]

  record_failure-Row :
      (wallet_id token' : ℕ) (code : FailureCode) (at : Option ℕ) (now : ℕ) (db db' : Db)
      → IsSound db.wallets db.jobs
      → token' ≢ token
      → record_failure wallet_id token' code at now db ≡ ok db'
      → All Row db.jobs
      → All Row db'.jobs
  unfolding write_failure
  record_failure-Row wallet_id token' code at now db db' s ne e h =
      let (j, w, there, found, rest) = record_failure-found wallet_id token' code at now db db' e in
      elim rest [
        | inr (_, same) ↦ rw (sym same) h
        | inl (held, done) ↦ rw (sym (ap Db.jobs done)) (
            update-Row wallet_id token' (as_failed_job code at now) j db.jobs (λ k. refl) there
              (find_where-All _ _ db.jobs j s.job_wallets there) held ne h)
      ]

  db_or-Row :
      (db : Db) (m : Outcome (Wallet × Db))
      → All Row db.jobs
      → ((w : Wallet) (db' : Db) → m ≡ ok (w, db') → All Row db'.jobs)
      → All Row (db_or db m).jobs
  db_or-Row db (ok (w, db')) h k = k w db' refl
  db_or-Row db (throw e) h k = h

  db_or_same-Row :
      (db : Db) (m : Outcome Db)
      → All Row db.jobs
      → ((db' : Db) → m ≡ ok db' → All Row db'.jobs)
      → All Row (db_or_same db m).jobs
  db_or_same-Row db (ok db') h k = k db' refl
  db_or_same-Row db (throw e) h k = h

  run-Row :
      (op : Op) (db : Db)
      → IsSound db.wallets db.jobs
      → IsOther token until op
      → All Row db.jobs
      → All Row (run op db).jobs
  unfolding run
  run-Row (reserve fresh user_id network now) db s other h = absurd other
  run-Row (claim job_id token' now lease_ms) db s le h =
      claim-Row job_id token' now lease_ms db le h
  run-Row (finish fresh_id wallet_id token' m now) db s ne h =
      db_or-Row db (complete fresh_id wallet_id token' m now db) h
        (λ w db' e. complete-Row fresh_id wallet_id token' m now db db' w s ne e h)
  run-Row (fail wallet_id token' code at now) db s ne h =
      db_or_same-Row db (record_failure wallet_id token' code at now db) h
        (λ db' e. record_failure-Row wallet_id token' code at now db db' s ne e h)

  run_all-Row :
      (ops : List Op) (db : Db)
      → IsSound db.wallets db.jobs
      → All (IsOther token until) ops
      → All Row db.jobs
      → All Row (run_all ops db).jobs
  unfolding run_all
  run_all-Row [] db s others h = h
  run_all-Row (op ∷ ops) db s (other, others) h =
      run_all-Row ops (run op db) (run-IsSound op db (draws_nothing token until op db other) s)
        others (run-Row op db s other h)

  no_candidate : (now : ℕ) (db : Db) → now ≤ until → All Row db.jobs → candidate id now db ≡ none
  no_candidate now db le h = elim (Option-cases (candidate id now db)) [
    | inl e ↦ e
    | inr (c, e) ↦
        let (there, _) = candidate-found id now db c e in
        let is = find_where-true (is_candidate id now) db.jobs c.job there in
        let row = find_where-All Row (is_candidate id now) db.jobs c.job h there in
        absurd (not_candidate id now c.job le row is (ground arith))
  ]

claimed_row :
    (id token now until : ℕ) (j k : WalletJob)
    → is_candidate id now j ≡ true
    → (j.id ≡ k.id → j ≡ k)
    → IsHeldRow id token until (updated (is_candidate j.id now) (as_processing token until) k)
claimed_row id token now until j k is eq = elim (Bool-cases (is_candidate j.id now k)) [
  | inl g ↦ rw g (λ same. (refl, refl, refl))
  | inr g ↦ rw g (λ same. absurd (let same_row = eq (ground arith) in ground arith))
]

-- A successful claim makes the caller the holder.
claimed-Row :
    (id token now lease_ms : ℕ) (db db' : Db) (c : Claimed)
    → IsSound db.wallets db.jobs
    → claim_candidate id token now lease_ms db ≡ (some c, db')
    → All (IsHeldRow id token (now + lease_ms)) db'.jobs
unfolding take_claim
claimed-Row id token now lease_ms db db' c s e = elim (Option-cases (candidate id now db)) [
  | inl h ↦ absurd (cc (claim_candidate-none id token now lease_ms db h))
  | inr (d, h) ↦
      let (there, _) = candidate-found id now db d h in
      let is = find_where-true (is_candidate id now) db.jobs d.job there in
      let only = find_where-All _ (is_candidate id now) db.jobs d.job s.job_ids there in
      let end =
        ap (λ (x : Option Claimed × Db). x.1.jobs)
          (sym (claim_candidate-some id token now lease_ms db d h) ∙ e) in
      rw (sym end) (
        All-updated _ (is_candidate d.job.id now) (as_processing token (now + lease_ms)) db.jobs (
          All-map _ _ db.jobs (λ k eq. claimed_row id token now (now + lease_ms) d.job k is eq)
            only))
]

-- While no user asks again: in a sound database a claimed job is claimed by nobody else until its lease ends, whatever
-- calls without its token claim, complete and fail in between.
pub claim_candidate_exclusive :
    (id token now lease_ms token' now' lease_ms' : ℕ) (db db' : Db) (c : Claimed) (ops : List Op)
    → IsSound db.wallets db.jobs
    → claim_candidate id token now lease_ms db ≡ (some c, db')
    → All (IsOther token (now + lease_ms)) ops
    → now' ≤ now + lease_ms
    → claim_candidate id token' now' lease_ms' (run_all ops db') ≡ (none, run_all ops db')
unfolding claim_candidate run
claim_candidate_exclusive id token now lease_ms token' now' lease_ms' db db' c ops s e others le =
    let s' =
      subst (λ (x : Db). IsSound x.wallets x.jobs) (ap (λ (x : Option Claimed × Db). x.1) e)
        (run-IsSound (claim id token now lease_ms) db tt s) in
    let held =
      run_all-Row id token (now + lease_ms) ops db' s' others
        (claimed-Row id token now lease_ms db db' c s e) in
    claim_candidate-none id token' now' lease_ms' (run_all ops db')
      (no_candidate id token (now + lease_ms) now' (run_all ops db') le held)
