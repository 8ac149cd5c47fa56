-- ===== src/Wallets/Kept.antt =====
-- wallet-provisioning.repository.ts: the two tables under any sequence of calls.
use learnault_api.Base.{
  ℕ, ◌+◌, ◌≡◌, ◌≢◌, refl, sym, ap, true, false, Option, none, some, List, [], ◌∷◌, ◌++◌, ◌==◌,
  arith, Bool-cases, Option-cases, inl, inr,
}
use learnault_api.Base.Result.{ok, throw}
use learnault_api.Base.Table.{update_where, All, All-map, All-append, All-update}
use learnault_api.Base.Rows.{find_where-All, find_where-true}
use learnault_api.Base.Unique.{
  IsUnique, updated, update_where-IsUnique, append-IsUnique, All-updated, find_where-none,
}
use mathlib.Core.Path.{subst}
use learnault_api.Wallets.{
  WalletJobStatus, Wallet, WalletJob, StoredStellarKey, FailureCode, Db, Outcome, is_failed,
  is_active,
}
use learnault_api.Wallets.Linked.{
  fits, LinkedTo, IsSound, is_in_provisioning, upsert_job-Linked, upsert_job-IsUnique,
}
use learnault_api.Wallets.Reserve.{
  Fresh, new_wallet, as_reserved, upsert_job, create_wallet, requeue_wallet,
  reserve_eligible_wallet,
}
use learnault_api.Wallets.Claim.{is_candidate, candidate, take_claim, claim_candidate}
use learnault_api.Wallets.Finish.{
  as_active, as_completed, as_failed_wallet, as_failed_job, complete, record_failure, write_failure,
  upsert_key,
}
use learnault_api.Wallets.Cases.{
  claim_candidate-none, claim_candidate-some, candidate-found, requeued_or_created, complete-found,
  activate-tables, record_failure-found,
}
use learnault_api.Wallets.Sound.{claim-IsSound, both-IsSound}
use learnault_api.Wallets.Calls.{
  IsFreshFor, Op, reserve, claim, finish, fail, db_or, db_or_same, run, DrawsFresh, ◌⟶*◌, here,
  call,
}

SoundDb : Db → Type 0
SoundDb db = IsSound db.wallets db.jobs

module _ (db : Db) (s : IsSound db.wallets db.jobs) where
  claim_candidate-IsSound :
      (id token now lease_ms : ℕ)
      → IsSound
          (claim_candidate id token now lease_ms db).1.wallets
          (claim_candidate id token now lease_ms db).1.jobs
  unfolding take_claim
  claim_candidate-IsSound id token now lease_ms = elim (Option-cases (candidate id now db)) [
    | inl e ↦ rw (claim_candidate-none id token now lease_ms db e) s
    | inr (c, e) ↦ rw (claim_candidate-some id token now lease_ms db c e) (
        let (there, _) = candidate-found id now db c e in
        let is = find_where-true (is_candidate id now) db.jobs c.job there in
        claim-IsSound db s token (now + lease_ms) now c.job (ground arith)
          (find_where-All _ (is_candidate id now) db.jobs c.job s.job_ids there)
          (find_where-All _ (is_candidate id now) db.jobs c.job s.job_wallets there))
  ]

  activated-IsSound :
      (id key key_id now : ℕ)
      → IsSound
          (update_where (λ v. v.id == id) (as_active key key_id now) db.wallets)
          (update_where (λ k. k.wallet_id == id) (as_completed now) db.jobs)
  activated-IsSound id key key_id now =
      both-IsSound db s id (as_active key key_id now) (as_completed now) (λ w. refl) (λ w. refl)
        (λ j. (refl, refl)) (λ w j. refl)

  failed_status :
      (code : FailureCode) (retry_at : Option ℕ) (now : ℕ) (w : Wallet)
      → is_in_provisioning (as_failed_wallet code retry_at now w).status ≡ true
  failed_status code none now w = refl
  failed_status code (some at) now w = refl

  failed_fits :
      (code : FailureCode) (retry_at : Option ℕ) (now : ℕ) (w : Wallet) (j : WalletJob)
      → fits
          (as_failed_wallet code retry_at now w).status
          (as_failed_job code retry_at now j).status
        ≡ true
  failed_fits code none now w j = refl
  failed_fits code (some at) now w j = refl

  failure-IsSound :
      (id : ℕ) (code : FailureCode) (retry_at : Option ℕ) (now : ℕ) (w : Wallet)
      → SoundDb (write_failure id code retry_at now w db)
  unfolding write_failure SoundDb
  failure-IsSound id code retry_at now w =
      both-IsSound db s id (as_failed_wallet code retry_at now) (as_failed_job code retry_at now)
        (λ w. refl) (failed_status code retry_at now) (λ j. (refl, refl))
        (failed_fits code retry_at now)

  -- A new wallet with its job.
  created-IsSound :
      (fresh : Fresh) (user_id network now : ℕ)
      → IsFreshFor fresh db
      → SoundDb (create_wallet fresh user_id network now db).1
  unfolding create_wallet SoundDb
  created-IsSound fresh user_id network now f = record {
    wallet_ids =
        append-IsUnique (λ w. w.id) (new_wallet fresh user_id network now) db.wallets
          f.new_wallet_id s.wallet_ids;
    job_ids =
        upsert_job-IsUnique (λ j. j.id) fresh fresh.wallet_id now db.jobs (λ j. refl)
          (λ e. f.new_job_id) s.job_ids;
    job_wallets =
        upsert_job-IsUnique (λ j. j.wallet_id) fresh fresh.wallet_id now db.jobs (λ j. refl)
          (λ e. f.no_job_yet) s.job_wallets;
    statuses =
        All-append _ db.wallets (new_wallet fresh user_id network now ∷ []) s.statuses (refl, tt);
    linked =
        upsert_job-Linked fresh fresh.wallet_id now
          (db.wallets ++ new_wallet fresh user_id network now ∷ []) db.jobs
          (All-append _ db.wallets _
            (All-map _ _ db.wallets (λ w ne e. absurd (ne e)) f.new_wallet_id) ((λ e. refl), tt))
          (All-map _ _ db.jobs
            (λ j h.
              All-append _ db.wallets _ (All-map _ _ db.wallets (λ w l ne. l) h)
                ((λ ne e. absurd (ne (sym e))), tt))
            s.linked);
  }

  -- A wallet that is there, and its job, wait again.
  waits_fits :
      (w : Wallet)
      → is_in_provisioning w.status ≡ true
      → is_failed w.status ≡ false
      → is_active w.status ≡ false
      → fits w.status WalletJobStatus.pending ≡ true
  waits_fits w a b c = ground arith

  waiting-IsSound :
      (fresh : Fresh) (id now : ℕ) (ws : List Wallet)
      → All (λ j. j.id ≢ fresh.job_id) db.jobs
      → IsUnique (λ w. w.id) ws
      → All (λ w. is_in_provisioning w.status ≡ true) ws
      → All (λ w. w.id ≡ id → fits w.status WalletJobStatus.pending ≡ true) ws
      → All (λ j. All (λ w. j.wallet_id ≢ id → LinkedTo j w) ws) db.jobs
      → IsSound ws (upsert_job fresh id now db.jobs)
  waiting-IsSound fresh id now ws new_id ids statuses there others = record {
    wallet_ids = ids;
    job_ids =
        upsert_job-IsUnique (λ j. j.id) fresh id now db.jobs (λ j. refl) (λ e. new_id) s.job_ids;
    job_wallets =
        upsert_job-IsUnique (λ j. j.wallet_id) fresh id now db.jobs (λ j. refl)
          (find_where-none (λ j. j.wallet_id) id db.jobs) s.job_wallets;
    statuses = statuses;
    linked = upsert_job-Linked fresh id now ws db.jobs there others;
  }

  -- The row with the id of a failed wallet is reserved, and the other rows keep their link.
  reserved_row :
      (id now : ℕ) (w : Wallet)
      → (updated (λ v. v.id == id) (as_reserved now) w).id ≡ id
      → fits (updated (λ v. v.id == id) (as_reserved now) w).status WalletJobStatus.pending ≡ true
  reserved_row id now w = elim (Bool-cases (w.id == id)) [
    | inl e ↦ rw e (λ same. refl)
    | inr e ↦ rw e (λ same. absurd (ground arith))
  ]

  other_row :
      (id now : ℕ) (j : WalletJob) (w : Wallet)
      → LinkedTo j w
      → j.wallet_id ≢ id
      → LinkedTo j (updated (λ v. v.id == id) (as_reserved now) w)
  other_row id now j w l ne = elim (Bool-cases (w.id == id)) [
    | inl e ↦ rw e (λ same. absurd (ne (ground arith)))
    | inr e ↦ rw e l
  ]

  reserved-IsSound :
      (fresh : Fresh) (now : ℕ) (w : Wallet)
      → All (λ j. j.id ≢ fresh.job_id) db.jobs
      → All (λ v. w.id ≡ v.id → w ≡ v) db.wallets
      → is_in_provisioning w.status ≡ true
      → SoundDb (requeue_wallet fresh now w db).1
  unfolding requeue_wallet SoundDb
  reserved-IsSound fresh now w new_id only status = elim (Bool-cases (is_failed w.status)) [
    | inl f ↦ rw f (
        waiting-IsSound fresh w.id now
          (update_where (λ v. v.id == w.id) (as_reserved now) db.wallets) new_id
          (update_where-IsUnique (λ v. v.id) _ (as_reserved now) db.wallets (λ v. refl)
            s.wallet_ids)
          (All-update _ _ (as_reserved now) db.wallets (λ v h e. refl) s.statuses)
          (All-updated _ _ (as_reserved now) db.wallets
            (All-map _ _ db.wallets (λ v h. reserved_row w.id now v) s.statuses))
          (All-map _ _ db.jobs
            (λ j h.
              All-updated _ _ (as_reserved now) db.wallets
                (All-map _ _ db.wallets (λ v l. other_row w.id now j v l) h))
            s.linked))
    | inr f ↦ elim (Bool-cases (is_active w.status)) [
      | inl a ↦ rw (f, a) s
      | inr a ↦
          rw (f, a)
            (waiting-IsSound fresh w.id now db.wallets new_id s.wallet_ids s.statuses
              (All-map _ _ db.wallets
                (λ v eq same.
                  subst (λ (x : Wallet). fits x.status WalletJobStatus.pending ≡ true)
                    (eq (sym same)) (waits_fits w status f a))
                only)
              (All-map _ _ db.jobs (λ j h. All-map _ _ db.wallets (λ v l ne. l) h) s.linked))
    ]
  ]

  reserve-IsSound :
      (fresh : Fresh) (user_id network now : ℕ) (db' : Db) (w : Wallet)
      → IsFreshFor fresh db
      → reserve_eligible_wallet fresh user_id network now db ≡ ok (w, db')
      → SoundDb db'
  reserve-IsSound fresh user_id network now db' w f e =
      elim (requeued_or_created fresh user_id network now db db' w e) [
        | inl (_, made) ↦
            subst SoundDb (ap (λ (x : Wallet × Db). x.1) made)
              (created-IsSound fresh user_id network now f)
        | inr (v, found, made) ↦ subst SoundDb (ap (λ (x : Wallet × Db). x.1) made) (
            reserved-IsSound fresh now v f.new_job_id
              (find_where-All _ _ db.wallets v s.wallet_ids found)
              (find_where-All _ _ db.wallets v s.statuses found))
      ]

  complete-IsSound :
      (fresh_id id token : ℕ) (m : StoredStellarKey) (now : ℕ) (db' : Db) (w' : Wallet)
      → complete fresh_id id token m now db ≡ ok (w', db')
      → SoundDb db'
  unfolding SoundDb
  complete-IsSound fresh_id id token m now db' w' e =
      let (j, w, _, _, rest) = complete-found fresh_id id token m now db db' w' e in
      elim rest [
        | inl (_, _, same) ↦ rw (sym same) s
        | inr (_, _, done) ↦
            let (_, ws, js) = activate-tables fresh_id m now w w' db db' done in
            rw (ws, js) (activated-IsSound w.id m.public_key (upsert_key fresh_id m db.keys).0 now)
      ]

  record_failure-IsSound :
      (id token : ℕ) (code : FailureCode) (retry_at : Option ℕ) (now : ℕ) (db' : Db)
      → record_failure id token code retry_at now db ≡ ok db'
      → SoundDb db'
  unfolding SoundDb
  record_failure-IsSound id token code retry_at now db' e =
      let (j, w, _, _, rest) = record_failure-found id token code retry_at now db db' e in
      elim rest [
        | inl (_, done) ↦ subst SoundDb done (failure-IsSound id code retry_at now w)
        | inr (_, same) ↦ rw (sym same) s
      ]

db_or-IsSound :
    (db : Db) (m : Outcome (Wallet × Db))
    → SoundDb db
    → ((w : Wallet) (db' : Db) → m ≡ ok (w, db') → SoundDb db')
    → SoundDb (db_or db m)
db_or-IsSound db (ok (w, db')) s k = k w db' refl
db_or-IsSound db (throw e) s k = s

db_or_same-IsSound :
    (db : Db) (m : Outcome Db)
    → SoundDb db
    → ((db' : Db) → m ≡ ok db' → SoundDb db')
    → SoundDb (db_or_same db m)
db_or_same-IsSound db (ok db') s k = k db' refl
db_or_same-IsSound db (throw e) s k = s

pub run-IsSound :
    (op : Op) (db : Db)
    → DrawsFresh op db
    → IsSound db.wallets db.jobs
    → IsSound (run op db).wallets (run op db).jobs
unfolding run SoundDb
run-IsSound (reserve fresh user_id network now) db f s =
    db_or-IsSound db (reserve_eligible_wallet fresh user_id network now db) s
      (λ w db' e. reserve-IsSound db s fresh user_id network now db' w f e)
run-IsSound (claim id token now lease_ms) db f s =
    claim_candidate-IsSound db s id token now lease_ms
run-IsSound (finish fresh_id id token m now) db f s =
    db_or-IsSound db (complete fresh_id id token m now db) s
      (λ w db' e. complete-IsSound db s fresh_id id token m now db' w e)
run-IsSound (fail id token code retry_at now) db f s =
    db_or_same-IsSound db (record_failure id token code retry_at now db) s
      (λ db' e. record_failure-IsSound db s id token code retry_at now db' e)

-- Whatever users reserve and workers claim, complete and fail, if the ids that are drawn are new: the
-- ids of wallets and jobs and the job of a wallet stay unique, and each wallet's status is one that
-- goes with its job's.
pub ⟶*-IsSound :
    (db db' : Db) → db ⟶* db' → IsSound db.wallets db.jobs → IsSound db'.wallets db'.jobs
⟶*-IsSound db _ here s = s
⟶*-IsSound db _ (call {db' = mid} before op f) s = run-IsSound op mid f (⟶*-IsSound db mid before s)
