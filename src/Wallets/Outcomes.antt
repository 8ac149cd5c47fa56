-- ===== src/Wallets/Outcomes.antt =====
-- src/jobs/wallet-provisioning.handler.ts: what one run of the handler answers and leaves behind.
use learnault_api.Base.{
  ℕ, ◌+◌, ◌-◌, ◌*◌, ◌^◌, ◌≡◌, ◌≤◌, ◌<◌, refl, sym, ap, ◌∙◌, Bool, true, false, Option, none, some,
  ◌==◌, leb, arith, Bool-cases, Option-cases, inl, inr, ◌&&◌,
}
use learnault_api.Base.Result.{ok}
use learnault_api.Base.Inversion.{Result-cases}
use learnault_api.Base.Table.{find_where}
use learnault_api.Base.Rows.{find_where-true, find_where-update_where}
use mathlib.Core.Path.{subst}
use mathlib.Core.Option.{some-injective}
use learnault_api.Wallets.{
  Wallet, WalletJob, WalletJobStatus, active, StoredStellarKey, FailureCode,
  database_finalization_failed, Db, is_active,
}
use learnault_api.Wallets.Claim.{
  Claimed, candidate, take_claim, claim_candidate, claim_by_wallet_id, as_provisioning,
  is_claimable,
}
use learnault_api.Wallets.Finish.{
  complete, find_job, find_wallet, holds_lease, as_active, as_failed_job, write_failure, upsert_key,
}
use learnault_api.Wallets.Cases.{
  claim_candidate-none, claim_candidate-some, candidate-found, complete-found, activate-tables,
  record_failure-held,
}
use learnault_api.Wallets.Kms.{KmsSecretStore}
use learnault_api.Wallets.Keys.{material_for-Material}
use learnault_api.Wallets.Handle.{
  Run, HandleResult, completed, retry_scheduled, dead_letter, fail, failure_result, retry_at,
  try_record_failure, finalize, material_for, handle_claimed, handle_wallet,
}

abbrev is_completed : HandleResult → Bool
is_completed (completed _ _) = true
is_completed _ = false

abbrev key_or_zero : HandleResult → ℕ
key_or_zero (completed _ k) = k
key_or_zero _ = 0

abbrev wallet_or_zero : HandleResult → ℕ
wallet_or_zero (completed w _) = w
wallet_or_zero _ = 0

-- The claimed wallet is active with the public key of the kept material.
abbrev pub IsProvisioned : ℕ → ℕ → Db → Type 0
IsProvisioned id key db =
    (w : Wallet) × (find_where (λ v. v.id == id) db.wallets ≡ some w)
    × (w.status ≡ active)
    × (w.public_key ≡ some key)

not_completed :
    (run : Run) (c : Claimed) (code : FailureCode) (db : Db)
    → is_completed (fail run c code db).0 ≡ false
unfolding fail failure_result
not_completed run c code db = elim (Bool-cases (leb c.job.max_attempts c.job.attempts)) [
  | inl e ↦ rw e
  | inr e ↦ rw e
]

-- The wallet of a claim is there and is not active.
abbrev IsOpen : Claimed → Db → Type 0
IsOpen c db =
    (v : Wallet) × (find_where (λ x. x.id == c.wallet.id) db.wallets ≡ some v)
    × (is_active v.status ≡ false)

complete-IsProvisioned :
    (fresh_id id token : ℕ) (m : StoredStellarKey) (now : ℕ) (db db' : Db) (v w' : Wallet)
    → find_where (λ x. x.id == id) db.wallets ≡ some v
    → is_active v.status ≡ false
    → complete fresh_id id token m now db ≡ ok (w', db')
    → (w'.id ≡ id) × IsProvisioned id m.public_key db'
complete-IsProvisioned fresh_id id token m now db db' v w' there off e =
    let (j, w, _, found, rest) = complete-found fresh_id id token m now db db' w' e in
    let same = some-injective v w (sym there ∙ found) in
    let is = find_where-true (λ x. x.id == id) db.wallets w found in
    elim rest [
      | inl (on, _, _) ↦ absurd (cc)
      | inr (_, _, done) ↦
          let (new, ws, _) = activate-tables fresh_id m now w w' db db' done in
          let f = as_active m.public_key (upsert_key fresh_id m db.keys).0 now in
          let itself : (w.id == w.id) ≡ true = ground arith in
          (
            (rw new (ground arith)),
            (
              f w,
              rw (
                ws,
                find_where-update_where (λ x. x.id == id) (λ x. x.id == w.id) f db.wallets
                    (λ x. refl),
                found,
                itself,
              ),
              refl,
              refl,
            ),
          )
    ]

module _ {S : Type 0} (kms : KmsSecretStore S) where
  finalize_completed :
      (run : Run) (c : Claimed) (m : StoredStellarKey) (db : Db) (out : HandleResult × Db)
      → IsOpen c db
      → finalize run c m db ≡ out
      → is_completed out.0 ≡ true
      → (out.0 ≡ completed c.wallet.id m.public_key) × IsProvisioned c.wallet.id m.public_key out.1
  unfolding finalize
  finalize_completed run c m db out (v, there, off) e done = elim (Bool-cases run.is_complete_out) [
    | inl g ↦ absurd (cc (not_completed run c database_finalization_failed db, rw g at e))
    | inr g ↦ elim (Result-cases (complete run.key_id c.wallet.id run.lease_token m run.later db)) [
      | inl (err, h) ↦
          absurd (cc (not_completed run c database_finalization_failed db, rw (g, h) at e))
      | inr ((w, db'), h) ↦
          let (id, prov) =
            complete-IsProvisioned run.key_id c.wallet.id run.lease_token m run.later db db' v w
              there off h in
          subst
            (λ (x : HandleResult × Db).
              (x.0 ≡ completed c.wallet.id m.public_key)
              × IsProvisioned c.wallet.id m.public_key x.1)
            (rw (g, h) at e) (rw id refl, prov)
    ]
  ]

  handle_claimed_completed :
      (run : Run) (c : Claimed) (db : Db) (s : S) (id key : ℕ) (db' : Db) (s' : S)
      → IsOpen c db
      → handle_claimed kms run (some c) (db, s) ≡ (completed id key, db', s')
      → (m : StoredStellarKey) × (kms.kept id s' ≡ some m)
        × (m.public_key ≡ key)
        × IsProvisioned id key db'
  unfolding handle_claimed
  handle_claimed_completed run c db s id key db' s' opened e =
      let step = material_for kms run c s in
      let (_, is_kept) = material_for-Material kms run c s in
      elim (Result-cases step.0) [
        | inl (code, g) ↦ absurd (cc (not_completed run c code db, rw (g, handle_claimed) at e))
        | inr (m, g) ↦
            let whole : ((finalize run c m db).0, (finalize run c m db).1, step.1)
                ≡ (completed id key, db', s') =
              rw (g, handle_claimed) at e in
            let is = ap (λ (x : HandleResult × Db × S). x.0) whole in
            let (out, prov) =
              finalize_completed run c m db (finalize run c m db) opened refl
                (ap is_completed is) in
            let same = sym out ∙ is in
            let same_id : c.wallet.id ≡ id = ap wallet_or_zero same in
            let same_key : m.public_key ≡ key = ap key_or_zero same in
            (
              m,
              subst (λ i. kms.kept i s' ≡ some m) same_id
                  (ap (kms.kept c.wallet.id) (sym (ap (λ (x : HandleResult × Db × S). x.2) whole))
                    ∙ is_kept m g),
              same_key,
              subst (IsProvisioned id key) (ap (λ (x : HandleResult × Db × S). x.1) whole) (
                  subst (λ k. IsProvisioned id k (finalize run c m db).1) same_key
                    (subst (λ i. IsProvisioned i m.public_key (finalize run c m db).1) same_id
                      prov)),
            )
      ]

-- After a claim the wallet is being provisioned.
claimed-IsOpen :
    (job_id token now lease_ms : ℕ) (db db' : Db) (c : Claimed)
    → claim_candidate job_id token now lease_ms db ≡ (some c, db')
    → IsOpen c db'
unfolding take_claim
claimed-IsOpen job_id token now lease_ms db db' c e =
    elim (Option-cases (candidate job_id now db)) [
      | inl h ↦ absurd (cc (claim_candidate-none job_id token now lease_ms db h))
      | inr (d, h) ↦
          let (_, w_there) = candidate-found job_id now db d h in
          let is = find_where-true (λ v. v.id == d.job.wallet_id) db.wallets d.wallet w_there in
          let whole = sym (claim_candidate-some job_id token now lease_ms db d h) ∙ e in
          let same_id : d.wallet.id ≡ c.wallet.id = some-injective _ _ (
            ap (λ (x : Option Claimed × Db). elim x.0 [ none ↦ none | some k ↦ some k.wallet.id ])
              whole) in
          let ws = ap (λ (x : Option Claimed × Db). x.1.wallets) (sym whole) in
          let at_id : d.job.wallet_id ≡ c.wallet.id = ground arith in
          (
            as_provisioning now d.wallet,
            rw (
              ws,
              sym at_id,
              find_where-update_where (λ v. v.id == d.job.wallet_id) (λ v. v.id == d.job.wallet_id)
                  (as_provisioning now) db.wallets (λ v. refl),
              w_there,
              is,
            ),
            refl,
          )
    ]

claimed_by_wallet :
    (wallet_id token now lease_ms : ℕ) (db : Db) (c : Claimed)
    → (claim_by_wallet_id wallet_id token now lease_ms db).0 ≡ some c
    → IsOpen c (claim_by_wallet_id wallet_id token now lease_ms db).1
unfolding claim_by_wallet_id
claimed_by_wallet wallet_id token now lease_ms db c e =
    elim (Option-cases (find_where (λ j. j.wallet_id == wallet_id && is_claimable now j) db.jobs)) [
      | inl g ↦ absurd (cc (rw (g, claim_by_wallet_id) at e))
      | inr (j, g) ↦
          rw (g, claim_by_wallet_id)
            (claimed-IsOpen j.id token now lease_ms db
              (claim_candidate j.id token now lease_ms db).1 c
              (ap (λ o. (o, (claim_candidate j.id token now lease_ms db).1))
                (rw (g, claim_by_wallet_id) at e)))
    ]

module _ {S : Type 0} (kms : KmsSecretStore S) where
  no_claim :
      (run : Run) (o : Option Claimed) (mid : Db) (s : S)
      → o ≡ none
      → (id key : ℕ) (db' : Db) (s' : S)
      → handle_claimed kms run o (mid, s) ≡ (completed id key, db', s')
      → ⊥
  unfolding handle_claimed
  no_claim run o mid s g id key db' s' e = cc (rw (g, handle_claimed) at e)

  -- With any key store that keeps the interface's laws: if the handler answers that a wallet is
  -- completed with a public key, then the wallet is active with that key, and the store keeps a key
  -- with it under the wallet's id.
  pub handle_wallet_completes :
      (wallet_id : ℕ) (run : Run) (db : Db) (s : S) (id key : ℕ) (db' : Db) (s' : S)
      → handle_wallet kms wallet_id run (db, s) ≡ (completed id key, db', s')
      → (m : StoredStellarKey) × (kms.kept id s' ≡ some m)
        × (m.public_key ≡ key)
        × IsProvisioned id key db'
  unfolding handle_wallet
  handle_wallet_completes wallet_id run db s id key db' s' e =
      let claims = claim_by_wallet_id wallet_id run.lease_token run.now run.lease_ms db in
      elim (Option-cases claims.0) [
        | inl g ↦ absurd (no_claim run claims.0 claims.1 s g id key db' s' e)
        | inr (c, g) ↦
            handle_claimed_completed kms run c claims.1 s id key db' s'
              (claimed_by_wallet wallet_id run.lease_token run.now run.lease_ms db c g)
              (ap (λ o. handle_claimed kms run o (claims.1, s)) (sym g) ∙ e)
      ]

-- What the failure leaves of the job.
failed_job_at : (run : Run) (c : Claimed) (code : FailureCode) → WalletJob
failed_job_at run c code =
    as_failed_job code (retry_at run.later run.base_retry_ms c.job) run.later c.job

failed_row :
    (run : Run) (c : Claimed) (code : FailureCode) (db : Db) (w : Wallet)
    → run.is_failure_out ≡ false
    → find_job c.wallet.id db ≡ some c.job
    → find_wallet c.wallet.id db ≡ some w
    → holds_lease run.lease_token c.job ≡ true
    → find_job c.wallet.id (fail run c code db).1 ≡ some (failed_job_at run c code)
unfolding fail try_record_failure write_failure failed_job_at
failed_row run c code db w up there w_there held =
    let at = retry_at run.later run.base_retry_ms c.job in
    let f = as_failed_job code at run.later in
    let is = find_where-true (λ j. j.wallet_id == c.wallet.id) db.jobs c.job there in
    rw (
      up,
      record_failure-held c.wallet.id run.lease_token code at run.later db c.job w there w_there
          held,
      find_where-update_where (λ j. j.wallet_id == c.wallet.id) (λ j. j.wallet_id == c.wallet.id) f
          db.jobs (λ j. refl),
      there,
      is,
    )

-- A failure of the holder of a lease, while the database answers: a job with attempts left waits,
-- without its lease, for the base delay doubled with each attempt after the first, and the answer
-- says that a retry is scheduled; the last attempt makes it a dead letter, and the answer says so.
pub fail_outcome :
    (run : Run) (c : Claimed) (code : FailureCode) (db : Db) (w : Wallet)
    → run.is_failure_out ≡ false
    → find_job c.wallet.id db ≡ some c.job
    → find_wallet c.wallet.id db ≡ some w
    → holds_lease run.lease_token c.job ≡ true
    → (j : WalletJob) × (find_job c.wallet.id (fail run c code db).1 ≡ some j)
      × (j.lease_token ≡ none)
      × (c.job.attempts < c.job.max_attempts
          → ((fail run c code db).0 ≡ retry_scheduled c.wallet.id code)
            × (j.status ≡ WalletJobStatus.retry)
            × (j.available_at ≡ run.later + run.base_retry_ms * 2 ^ (c.job.attempts - 1)))
      × (c.job.max_attempts ≤ c.job.attempts
          → ((fail run c code db).0 ≡ dead_letter c.wallet.id code)
            × (j.status ≡ WalletJobStatus.dead_letter))
unfolding fail failure_result retry_at failed_job_at
fail_outcome run c code db w up there w_there held = (
  failed_job_at run c code,
  failed_row run c code db w up there w_there held,
  refl,
  (λ left.
      let g : leb c.job.max_attempts c.job.attempts ≡ false = ground arith in
      rw (g, retry_at) (refl, refl, refl)),
  (λ over.
      let g : leb c.job.max_attempts c.job.attempts ≡ true = ground arith in
      rw (g, retry_at) (refl, refl)),
)
