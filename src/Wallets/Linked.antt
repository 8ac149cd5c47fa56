-- ===== src/Wallets/Linked.antt =====
-- wallet-provisioning.repository.ts: how the statuses of a wallet and of its job go together, and the
-- unique columns of the two tables.
use learnault_api.Base.{
  ℕ, ◌≡◌, ◌≢◌, Bool, true, false, none, List, [], ◌∷◌, ◌==◌, arith, Option-cases, Bool-cases, inl,
  inr,
}
use learnault_api.Base.Table.{find_where, update_where, All, All-map, All-append}
use learnault_api.Base.Unique.{
  IsUnique, updated, All-updated, All-with, update_where-IsUnique, append-IsUnique, find_where-none,
}
use learnault_api.Wallets.Reserve.{Fresh, as_requeued, new_job, upsert_job}
use learnault_api.Wallets.{
  WalletStatus, WalletJobStatus, reserved, provisioning, retryable, active, failed, Wallet,
  WalletJob,
}

-- Which statuses of a wallet its job's status goes with.
abbrev pub fits : WalletStatus → WalletJobStatus → Bool
fits reserved WalletJobStatus.pending = true
fits provisioning WalletJobStatus.pending = true
fits retryable WalletJobStatus.pending = true
fits provisioning WalletJobStatus.processing = true
fits retryable WalletJobStatus.retry = true
fits active WalletJobStatus.completed = true
fits failed WalletJobStatus.dead_letter = true
fits _ _ = false

-- The statuses that provisioning gives a wallet.
abbrev pub is_in_provisioning : WalletStatus → Bool
is_in_provisioning reserved = true
is_in_provisioning provisioning = true
is_in_provisioning retryable = true
is_in_provisioning active = true
is_in_provisioning failed = true
is_in_provisioning _ = false

abbrev pub LinkedTo : WalletJob → Wallet → Type 0
LinkedTo j w = w.id ≡ j.wallet_id → fits w.status j.status ≡ true

abbrev pub Linked : List Wallet → List WalletJob → Type 0
Linked ws js = All (λ j. All (LinkedTo j) ws) js

-- The unique columns hold, every wallet's status is one that provisioning gives, and it goes with
-- its job's.
pub record IsSound (ws : List Wallet) (js : List WalletJob) : Type 0 where
  pub wallet_ids : IsUnique (λ w. w.id) ws
  pub job_ids : IsUnique (λ j. j.id) js
  pub job_wallets : IsUnique (λ j. j.wallet_id) js
  pub statuses : All (λ w. is_in_provisioning w.status ≡ true) ws
  pub linked : Linked ws js

-- An update of both tables keeps the link, if it does for every pair of rows.
pub update_both-Linked :
    (q : Wallet → Bool) (g : Wallet → Wallet) (p : WalletJob → Bool) (f : WalletJob → WalletJob)
    (ws : List Wallet) (js : List WalletJob)
    → All (λ j. All (λ w. LinkedTo (updated p f j) (updated q g w)) ws) js
    → Linked (update_where q g ws) (update_where p f js)
update_both-Linked q g p f ws js h =
    All-updated _ p f js (All-map _ _ js (λ j hj. All-updated _ q g ws hj) h)

-- The job of a wallet waits again, or is created.
pub upsert_job-Linked :
    (fresh : Fresh) (id now : ℕ) (ws : List Wallet) (js : List WalletJob)
    → All (λ w. w.id ≡ id → fits w.status WalletJobStatus.pending ≡ true) ws
    → All (λ j. All (λ w. j.wallet_id ≢ id → LinkedTo j w) ws) js
    → Linked ws (upsert_job fresh id now js)
unfolding upsert_job
upsert_job-Linked fresh id now ws js there others =
    elim (Option-cases (find_where (λ j. j.wallet_id == id) js)) [
      | inl e ↦
          let absent = find_where-none (λ j. j.wallet_id) id js e in
          rw (e, upsert_job)
            (All-append _ js (new_job fresh id now ∷ [])
              (All-with (λ j ne h. All-map _ _ ws (λ w k. k ne) h) js absent others) (there, tt))
      | inr (j, e) ↦
          rw (e, upsert_job)
            (All-updated _ (λ k. k.wallet_id == id) (as_requeued now) js
              (All-map _ _ js
                (λ k h. elim (Bool-cases (k.wallet_id == id)) [
                  | inl g ↦ rw g (All-map _ _ ws (λ w fit same. fit (ground arith)) there)
                  | inr g ↦ rw g (All-map _ _ ws (λ w l. l (λ same. absurd (ground arith))) h)
                ])
                others))
    ]

-- The unique columns of the jobs, when one waits again or is created.
pub upsert_job-IsUnique :
    (key : WalletJob → ℕ) (fresh : Fresh) (id now : ℕ) (js : List WalletJob)
    → ((j : WalletJob) → key (as_requeued now j) ≡ key j)
    → (find_where (λ j. j.wallet_id == id) js ≡ none
        → All (λ j. key j ≢ key (new_job fresh id now)) js)
    → IsUnique key js
    → IsUnique key (upsert_job fresh id now js)
unfolding upsert_job
upsert_job-IsUnique key fresh id now js same fresh_key h =
    elim (Option-cases (find_where (λ j. j.wallet_id == id) js)) [
      | inl e ↦ rw (e, upsert_job) (append-IsUnique key (new_job fresh id now) js (fresh_key e) h)
      | inr (j, e) ↦
          rw (e, upsert_job)
            (update_where-IsUnique key (λ k. k.wallet_id == id) (as_requeued now) js same h)
    ]
