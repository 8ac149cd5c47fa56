-- ===== src/Wallets/Sound.antt =====
-- wallet-provisioning.repository.ts: what every call keeps of the two tables.
use learnault_api.Base.{ℕ, ◌≡◌, refl, true, ◌==◌, arith, Bool-cases, inl, inr}
use learnault_api.Base.Table.{update_where, All, All-map, All-update}
use learnault_api.Base.Unique.{updated, All-with, update_where-IsUnique}
use learnault_api.Wallets.{Wallet, WalletJob, Db}
use learnault_api.Wallets.Linked.{fits, LinkedTo, IsSound, is_in_provisioning, update_both-Linked}
use learnault_api.Wallets.Claim.{is_candidate, as_processing, as_provisioning}

abbrev SoundDb : Db → Type 0
SoundDb db = IsSound db.wallets db.jobs

module _ (db : Db) (s : IsSound db.wallets db.jobs) where
  -- A claimed job's row is the only one of its id and of its wallet.
  claimed_pair :
      (token until now : ℕ) (j k : WalletJob) (w : Wallet)
      → is_candidate j.id now j ≡ true
      → (j.id ≡ k.id → j ≡ k)
      → (j.wallet_id ≡ k.wallet_id → j ≡ k)
      → LinkedTo k w
      → LinkedTo
          (updated (is_candidate j.id now) (as_processing token until) k)
          (updated (λ v. v.id == j.wallet_id) (as_provisioning now) w)
  claimed_pair token until now j k w c by_id by_wallet l = elim (Bool-cases (w.id == j.wallet_id)) [
    | inl g ↦ elim (Bool-cases (is_candidate j.id now k)) [
      | inl e ↦ rw (g, e) (λ same. refl)
      | inr e ↦ rw (g, e) (λ same. absurd (cc (by_wallet (ground arith))))
    ]
    | inr g ↦ elim (Bool-cases (is_candidate j.id now k)) [
      | inl e ↦ rw (g, e) (λ same. absurd (let eq = by_id (ground arith) in ground arith))
      | inr e ↦ rw (g, e) l
    ]
  ]

  pub claim-IsSound :
      (token until now : ℕ) (j : WalletJob)
      → is_candidate j.id now j ≡ true
      → All (λ k. j.id ≡ k.id → j ≡ k) db.jobs
      → All (λ k. j.wallet_id ≡ k.wallet_id → j ≡ k) db.jobs
      → IsSound
          (update_where (λ v. v.id == j.wallet_id) (as_provisioning now) db.wallets)
          (update_where (is_candidate j.id now) (as_processing token until) db.jobs)
  claim-IsSound token until now j c by_id by_wallet = record {
    wallet_ids =
        update_where-IsUnique (λ w. w.id) _ (as_provisioning now) db.wallets (λ w. refl)
          s.wallet_ids;
    job_ids =
        update_where-IsUnique (λ k. k.id) _ (as_processing token until) db.jobs (λ k. refl)
          s.job_ids;
    job_wallets =
        update_where-IsUnique (λ k. k.wallet_id) _ (as_processing token until) db.jobs (λ k. refl)
          s.job_wallets;
    statuses = All-update _ _ (as_provisioning now) db.wallets (λ w h e. refl) s.statuses;
    linked =
        update_both-Linked _ (as_provisioning now) _ (as_processing token until) db.wallets db.jobs
          (All-with
            (λ k (by : (j.id ≡ k.id → j ≡ k) × (j.wallet_id ≡ k.wallet_id → j ≡ k)) h.
              All-map _ _ db.wallets (λ w. claimed_pair token until now j k w c by.0 by.1) h)
            db.jobs (All-with (λ k a b. (a, b)) db.jobs by_id by_wallet) s.linked);
  }

  -- Both rows of a wallet get statuses that go together.
  pub both-IsSound :
      (id : ℕ) (g : Wallet → Wallet) (f : WalletJob → WalletJob)
      → ((w : Wallet) → (g w).id ≡ w.id)
      → ((w : Wallet) → is_in_provisioning (g w).status ≡ true)
      → ((j : WalletJob) → ((f j).id ≡ j.id) × ((f j).wallet_id ≡ j.wallet_id))
      → ((w : Wallet) (j : WalletJob) → fits (g w).status (f j).status ≡ true)
      → IsSound
          (update_where (λ v. v.id == id) g db.wallets)
          (update_where (λ k. k.wallet_id == id) f db.jobs)
  both-IsSound id g f same_id in_provisioning same fit = record {
    wallet_ids = update_where-IsUnique (λ w. w.id) _ g db.wallets same_id s.wallet_ids;
    job_ids = update_where-IsUnique (λ k. k.id) _ f db.jobs (λ k. (same k).0) s.job_ids;
    job_wallets =
        update_where-IsUnique (λ k. k.wallet_id) _ f db.jobs (λ k. (same k).1) s.job_wallets;
    statuses = All-update _ _ g db.wallets (λ w h e. in_provisioning w) s.statuses;
    linked = update_both-Linked _ g _ f db.wallets db.jobs (
        All-map _ _ db.jobs
          (λ k h.
            All-map _ _ db.wallets
              (λ w l. elim (Bool-cases (w.id == id)) [
                | inl a ↦ elim (Bool-cases (k.wallet_id == id)) [
                  | inl b ↦ rw (a, b) (λ e. fit w k)
                  | inr b ↦ rw (a, b) (λ e. absurd (let eq = same_id w in ground arith))
                ]
                | inr a ↦ elim (Bool-cases (k.wallet_id == id)) [
                  | inl b ↦ rw (a, b) (λ e. absurd (let eq = (same k).1 in ground arith))
                  | inr b ↦ rw (a, b) l
                ]
              ])
              h)
          s.linked);
  }
