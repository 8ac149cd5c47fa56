-- ===== src/Wallets/Cases.antt =====
-- wallet-provisioning.repository.ts: its calls by what their queries find.
use learnault_api.Base.{
  ℕ, ◌+◌, ◌≡◌, ◌⊎◌, sym, ap, ◌∙◌, true, false, Option, none, some, ◌==◌, Bool-cases, Option-cases,
  inl, inr,
}
use learnault_api.Base.Result.{ok}
use learnault_api.Base.Inversion.{>>=-ok, ok-injective, Result-cases}
use learnault_api.Base.Table.{find_where, update_where, count_where}
use learnault_api.Wallets.{Wallet, WalletJob, StoredStellarKey, FailureCode, Db, is_active}
use learnault_api.Wallets.Claim.{Claimed, is_candidate, candidate, take_claim, claim_candidate}
use learnault_api.Wallets.Reserve.{
  Fresh, find_by_user, assert_eligible, create_wallet, requeue_wallet, reserve_eligible_wallet,
}
use learnault_api.Wallets.Finish.{
  find_job, find_wallet, or_throw, holds_lease, activate, complete, write_failure, record_failure,
  upsert_key, as_active, as_completed, is_taken,
}
use mathlib.Core.Option.{some-injective}

pub claim_candidate-none :
    (id token now lease_ms : ℕ) (db : Db)
    → candidate id now db ≡ none
    → claim_candidate id token now lease_ms db ≡ (none, db)
unfolding claim_candidate
claim_candidate-none id token now lease_ms db e = rw (e, claim_candidate)

pub claim_candidate-some :
    (id token now lease_ms : ℕ) (db : Db) (c : Claimed)
    → candidate id now db ≡ some c
    → claim_candidate id token now lease_ms db ≡ (
      some (take_claim token (now + lease_ms) now c.job c.wallet db).0,
      (take_claim token (now + lease_ms) now c.job c.wallet db).1,
    )
unfolding claim_candidate
claim_candidate-some id token now lease_ms db c e = rw (e, claim_candidate)

-- The candidate is a claimable row of the table, with the id that was asked for, and its wallet is
-- there.
pub candidate-found :
    (id now : ℕ) (db : Db) (c : Claimed)
    → candidate id now db ≡ some c
    → (find_where (is_candidate id now) db.jobs ≡ some c.job)
      × (find_where (λ w. w.id == c.job.wallet_id) db.wallets ≡ some c.wallet)
unfolding candidate
candidate-found id now db c e = elim (Bool-cases (count_where (is_candidate id now) db.jobs == 1)) [
  | inr g ↦ absurd (cc (rw (g, candidate) at e))
  | inl g ↦ elim (Option-cases (find_where (is_candidate id now) db.jobs)) [
    | inl h ↦ absurd (cc (rw (g, h, candidate) at e))
    | inr (j, h) ↦ elim (Option-cases (find_where (λ w. w.id == j.wallet_id) db.wallets)) [
      | inl k ↦ absurd (cc (rw (g, h, k, candidate) at e))
      | inr (w, k) ↦
          let same = some-injective _ c (rw (g, h, k, candidate) at e) in
          (
            h ∙ ap some (ap Claimed.job same),
            rw (sym (ap Claimed.job same)) (k ∙ ap some (ap Claimed.wallet same)),
          )
    ]
  ]
]

pub requeued_or_created :
    (fresh : Fresh) (user_id network now : ℕ) (db db' : Db) (w : Wallet)
    → reserve_eligible_wallet fresh user_id network now db ≡ ok (w, db')
    → ((find_by_user user_id db ≡ none) × (create_wallet fresh user_id network now db ≡ (w, db')))
      ⊎ ((v : Wallet) × (find_by_user user_id db ≡ some v)
          × (requeue_wallet fresh now v db ≡ (w, db')))
unfolding reserve_eligible_wallet
requeued_or_created fresh user_id network now db db' w e =
    elim (Result-cases (assert_eligible user_id db)) [
      | inl (err, g) ↦ absurd (cc (rw (g, reserve_eligible_wallet) at e))
      | inr (u, g) ↦ elim (Option-cases (find_by_user user_id db)) [
        | inl h ↦ inl (h, ok-injective (rw (g, h, reserve_eligible_wallet) at e))
        | inr (v, h) ↦ inr (v, h, ok-injective (rw (g, h, reserve_eligible_wallet) at e))
      ]
    ]

or_throw-ok : {A : Type 0} (o : Option A) (x : A) → or_throw o ≡ ok x → o ≡ some x
or_throw-ok none x e = cc
or_throw-ok (some y) x e = ap some (ok-injective e)

-- A call of `complete` that returns found an active wallet, or held the lease and activated the wallet.
pub complete-found :
    (fresh_id id token : ℕ) (m : StoredStellarKey) (now : ℕ) (db db' : Db) (w' : Wallet)
    → complete fresh_id id token m now db ≡ ok (w', db')
    → (j : WalletJob) × (w : Wallet) × (find_job id db ≡ some j)
      × (find_wallet id db ≡ some w)
      × (((is_active w.status ≡ true) × (w ≡ w') × (db ≡ db'))
          ⊎ ((is_active w.status ≡ false)
              × (holds_lease token j ≡ true)
              × (activate fresh_id m now w db ≡ ok (w', db'))))
unfolding complete
complete-found fresh_id id token m now db db' w' e =
    let (j, found_job, rest) = >>=-ok (or_throw (find_job id db)) _ e in
    let (w, found, rest') = >>=-ok (or_throw (find_wallet id db)) _ rest in
    (
      j,
      w,
      or_throw-ok _ j found_job,
      or_throw-ok _ w found,
      elim (Bool-cases (is_active w.status)) [
        | inl g ↦
            let pair = ok-injective (rw g at rest') in
            inl (g, ap (λ (x : Wallet × Db). x.0) pair, ap (λ (x : Wallet × Db). x.1) pair)
        | inr g ↦ elim (Bool-cases (holds_lease token j)) [
          | inl h ↦ inr (g, h, rw (g, h) at rest')
          | inr h ↦ absurd (cc (rw (g, h) at rest'))
        ]
      ],
    )

pub activate-tables :
    (fresh_id : ℕ) (m : StoredStellarKey) (now : ℕ) (w w' : Wallet) (db db' : Db)
    → activate fresh_id m now w db ≡ ok (w', db')
    → (w' ≡ as_active m.public_key (upsert_key fresh_id m db.keys).0 now w)
      × (db'.wallets
          ≡ update_where
              (λ v. v.id == w.id)
              (as_active m.public_key (upsert_key fresh_id m db.keys).0 now)
              db.wallets)
      × (db'.jobs ≡ update_where (λ j. j.wallet_id == w.id) (as_completed now) db.jobs)
unfolding activate
activate-tables fresh_id m now w w' db db' e =
    elim (Bool-cases (is_taken w.id m.public_key (upsert_key fresh_id m db.keys).0 db.wallets)) [
      | inl g ↦ absurd (cc (rw (g, activate) at e))
      | inr g ↦
          let pair = ok-injective (rw (g, activate) at e) in
          (
            sym (ap (λ (x : Wallet × Db). x.0) pair),
            sym (ap (λ (x : Wallet × Db). x.1.wallets) pair),
            sym (ap (λ (x : Wallet × Db). x.1.jobs) pair),
          )
    ]

-- A call of `recordFailure` that returns held the lease and wrote the failure, or changed nothing.
pub record_failure-found :
    (id token : ℕ) (code : FailureCode) (retry_at : Option ℕ) (now : ℕ) (db db' : Db)
    → record_failure id token code retry_at now db ≡ ok db'
    → (j : WalletJob) × (w : Wallet) × (find_job id db ≡ some j)
      × (find_wallet id db ≡ some w)
      × (((holds_lease token j ≡ true) × (write_failure id code retry_at now w db ≡ db'))
          ⊎ ((holds_lease token j ≡ false) × (db ≡ db')))
unfolding record_failure
record_failure-found id token code retry_at now db db' e =
    let (j, found_job, rest) = >>=-ok (or_throw (find_job id db)) _ e in
    let (w, found, rest') = >>=-ok (or_throw (find_wallet id db)) _ rest in
    (
      j,
      w,
      or_throw-ok _ j found_job,
      or_throw-ok _ w found,
      elim (Bool-cases (holds_lease token j)) [
        | inl h ↦ inl (h, ok-injective (rw h at rest'))
        | inr h ↦ inr (h, ok-injective (rw h at rest'))
      ],
    )

pub record_failure-held :
    (id token : ℕ) (code : FailureCode) (retry_at : Option ℕ) (now : ℕ) (db : Db) (j : WalletJob)
    (w : Wallet)
    → find_job id db ≡ some j
    → find_wallet id db ≡ some w
    → holds_lease token j ≡ true
    → record_failure id token code retry_at now db ≡ ok (write_failure id code retry_at now w db)
unfolding record_failure
record_failure-held id token code retry_at now db j w there found held = rw (there, found, held)
