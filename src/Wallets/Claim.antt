-- ===== src/Wallets/Claim.antt =====
-- wallet-provisioning.repository.ts: `claimableWhere`, `claimCandidate`, `claimNext` and
-- `claimByWalletId`.
use learnault_api.Base.{
  ℕ, suc, ◌+◌, Bool, false, ◌&&◌, ◌||◌, Option, none, some, List, [], ◌∷◌, ◌++◌, ltb, leb, ◌==◌,
  if◌then◌else◌, map, take,
}
use learnault_api.Base.Table.{find_where, update_where, filter_where, count_where, sort_by}
use learnault_api.Wallets.{
  provisioning, processing, Wallet, WalletJob, wallet_attempted, Db, is_processing, is_waiting,
}

-- `ClaimedWalletProvisioningJob`
pub record Claimed : Type 0 where
  pub job : WalletJob
  pub wallet : Wallet

-- `leasedUntil: { lt: now }`, which a null never satisfies.
abbrev pub is_before : Option ℕ → ℕ → Bool
is_before none now = false
is_before (some until) now = ltb until now

-- `claimableWhere`
abbrev pub is_claimable : ℕ → WalletJob → Bool
is_claimable now j =
    (is_waiting j.status && leb j.available_at now)
    || (is_processing j.status && is_before j.leased_until now)

abbrev pub as_processing : ℕ → ℕ → WalletJob → WalletJob
as_processing token until j = record j {
  status = processing;
  lease_token = some token;
  leased_until = some until;
  attempts = suc j.attempts;
}

abbrev pub as_provisioning : ℕ → Wallet → Wallet
as_provisioning now w = record w {
  status = provisioning;
  attempt_count = suc w.attempt_count;
  status_changed_at = now;
}

-- The test of the update: the candidate, if it is still claimable.
abbrev pub is_candidate : ℕ → ℕ → WalletJob → Bool
is_candidate job_id now j = j.id == job_id && is_claimable now j

-- What the transaction does for the job and the wallet that it reads: the returned wallet is the row
-- as it was read, with the new status.
unfoldable pub take_claim : ℕ → ℕ → ℕ → WalletJob → Wallet → Db → Claimed × Db
take_claim token until now j w db = (
  record { job = as_processing token until j; wallet = record w { status = provisioning } },
  record db {
    jobs = update_where (is_candidate j.id now) (as_processing token until) db.jobs;
    wallets = update_where (λ v. v.id == j.wallet_id) (as_provisioning now) db.wallets;
    audit =
        db.audit
        ++ record { user_id = w.user_id; action = wallet_attempted; wallet_id = w.id } ∷ [];
  },
)

-- The candidate's row with its wallet, while it is the one row that the update finds.
unfoldable pub candidate : ℕ → ℕ → Db → Option Claimed
candidate job_id now db =
    if count_where (is_candidate job_id now) db.jobs == 1
    then elim (find_where (is_candidate job_id now) db.jobs) [
      | none ↦ none
      | some j ↦ elim (find_where (λ w. w.id == j.wallet_id) db.wallets) [
        | none ↦ none
        | some w ↦ some (record { job = j; wallet = w })
      ]
    ]
    else none

-- `claimCandidate`, with the fresh token; one transaction.
unfoldable pub claim_candidate : ℕ → ℕ → ℕ → ℕ → Db → Option Claimed × Db
unfolding candidate take_claim
claim_candidate job_id token now lease_ms db = elim (candidate job_id now db) [
  | none ↦ (none, db)
  | some c ↦ let (r, db') = take_claim token (now + lease_ms) now c.job c.wallet db in (some r, db')
]

-- The loop of `claimNext` over the candidates.
unfoldable pub claim_first : ℕ → ℕ → ℕ → List ℕ → Db → Option Claimed × Db
unfolding claim_candidate
claim_first token now lease_ms [] db = (none, db)
claim_first token now lease_ms (id ∷ ids) db =
    let rest = claim_first token now lease_ms ids db in
    let first = claim_candidate id token now lease_ms db in
    elim first.0 [ none ↦ rest | some _ ↦ first ]

-- `claimNext`: ten candidates, by `availableAt` and then `createdAt`.
unfoldable pub claim_next : ℕ → ℕ → ℕ → Db → Option Claimed × Db
unfolding claim_first
claim_next token now lease_ms db =
    let claimable = filter_where (is_claimable now) db.jobs in
    let sorted = sort_by (λ j. j.available_at) (sort_by (λ j. j.created_at) claimable) in
    claim_first token now lease_ms (map (λ j. j.id) (take 10 sorted)) db

-- `claimByWalletId`
unfoldable pub claim_by_wallet_id : ℕ → ℕ → ℕ → ℕ → Db → Option Claimed × Db
unfolding claim_candidate
claim_by_wallet_id wallet_id token now lease_ms db =
    elim (find_where (λ j. j.wallet_id == wallet_id && is_claimable now j) db.jobs) [
      | none ↦ (none, db)
      | some j ↦ claim_candidate j.id token now lease_ms db
    ]
