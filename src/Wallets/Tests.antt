-- ===== src/Wallets/Tests.antt =====
-- The provisioning of wallets on concrete inputs, and its theorems applied.
use learnault_api.Base.{
  ◌+◌, ◌-◌, ◌*◌, ◌^◌, ◌≡◌, ◌≤◌, ◌<◌, refl, true, false, none, some, [], ◌∷◌, ◌==◌, arith,
}
use learnault_api.Base.Result.{ok, throw}
use learnault_api.Base.Table.{find_where}
use learnault_api.Wallets.{
  WalletStatus, WalletJobStatus, kms_unavailable, Wallet, WalletJob, User, ConsentRecord,
  StoredStellarKey, Db, user_not_verified, wallet_reserved,
}
use learnault_api.Wallets.Linked.{IsSound}
use learnault_api.Wallets.Reserve.{
  Fresh, reserve_eligible_wallet, assert_eligible, create_wallet, upsert_job, custodial_wallet,
}
use learnault_api.Wallets.Claim.{
  Claimed, candidate, take_claim, claim_candidate, claim_by_wallet_id, as_processing,
}
use learnault_api.Wallets.Finish.{find_job, complete, activate, upsert_key}
use learnault_api.Wallets.Calls.{Op, claim, finish, run, here, call}
use learnault_api.Wallets.Kms.{
  Hooks, KmsSecretStore, Entries, in_memory_envelope_kms, find_in_memory, store_in_memory,
  add_entry,
}
use learnault_api.Wallets.Handle.{
  Run, completed, retry_scheduled, dead_letter, handle_claimed, handle_wallet, finalize,
  material_for, store_new,
}
use learnault_api.Wallets.Handle
use learnault_api.Wallets.Kept.{⟶*-IsSound}
use learnault_api.Wallets.Diagram.{◌⇒◌, run-wallet_transitions, active_forever}
use learnault_api.Wallets.Keys.{KeysMatch, Keeps}
use learnault_api.Wallets.OneKey.{next, wallet, serve_all, serve_all-KeysMatch}
use learnault_api.Wallets.Exclusive.{run_all, claim_candidate_exclusive}
use learnault_api.Wallets.Outcomes.{IsProvisioned, handle_wallet_completes, fail_outcome}

abbrev user : User
user = record { id = 1; is_verified = true; wallet_address = none }

abbrev consent : ConsentRecord
consent = record { user_id = 1; purpose = custodial_wallet; is_granted = true; created_at = 5 }

abbrev fresh : Fresh
fresh = record { wallet_id = 100; job_id = 200 }

abbrev empty_db : Db
empty_db = record {
  users = user ∷ [];
  consents = consent ∷ [];
  wallets = [];
  jobs = [];
  keys = [];
  audit = [];
}

abbrev reserved_wallet : Wallet
reserved_wallet = record {
  id = 100;
  user_id = 1;
  network = 7;
  custody = 0;
  public_key = none;
  status = WalletStatus.reserved;
  managed_key_reference_id = none;
  failure_code = none;
  attempt_count = 0;
  provisioned_at = none;
  status_changed_at = 10;
  created_at = 10;
}

abbrev pending_job : WalletJob
pending_job = record {
  id = 200;
  wallet_id = 100;
  status = WalletJobStatus.pending;
  available_at = 10;
  lease_token = none;
  leased_until = none;
  attempts = 0;
  max_attempts = 8;
  last_failure_code = none;
  completed_at = none;
  created_at = 10;
}

abbrev db : Db
db = record empty_db { wallets = reserved_wallet ∷ []; jobs = pending_job ∷ [] }

db-IsSound : IsSound db.wallets db.jobs
db-IsSound = record {
  wallet_ids = (((λ e. refl), tt), tt);
  job_ids = (((λ e. refl), tt), tt);
  job_wallets = (((λ e. refl), tt), tt);
  statuses = (refl, tt);
  linked = (((λ e. refl), tt), tt);
}

reserves :
    reserve_eligible_wallet fresh 1 7 10 empty_db
    ≡ ok (
      reserved_wallet,
      record db { audit = record { user_id = 1; action = wallet_reserved; wallet_id = 100 } ∷ [] },
    )
unfolding reserve_eligible_wallet assert_eligible create_wallet upsert_job
reserves = refl

refuses_unverified :
    reserve_eligible_wallet fresh 1 7 10
      (record empty_db { users = record user { is_verified = false } ∷ [] })
    ≡ throw user_not_verified
unfolding reserve_eligible_wallet assert_eligible
refuses_unverified = refl

-- A worker claims the job, and another one completes nothing with a token of its own.
abbrev stranger : Op
stranger =
    finish 1 100 99
      (record { provider = 1; opaque_reference = 2; key_version = none; public_key = 3 }) 30

abbrev claims : Op
claims = claim 200 55 20 1000

⟶*-IsSound_example : IsSound (run claims db).wallets (run claims db).jobs
⟶*-IsSound_example = ⟶*-IsSound db (run claims db) (call here claims tt) db-IsSound

run-wallet_transitions_example :
    (w : Wallet) × (find_where (λ v. v.id == 100) (run claims db).wallets ≡ some w)
    × (reserved_wallet ⇒ w)
run-wallet_transitions_example =
    run-wallet_transitions db db claims 100 reserved_wallet db-IsSound here refl

abbrev active_wallet : Wallet
active_wallet = record reserved_wallet { status = WalletStatus.active; public_key = some 3 }

abbrev active_db : Db
active_db = record db {
  wallets = active_wallet ∷ [];
  jobs = record pending_job { status = WalletJobStatus.completed } ∷ [];
}

active_db-IsSound : IsSound active_db.wallets active_db.jobs
active_db-IsSound = record {
  wallet_ids = (((λ e. refl), tt), tt);
  job_ids = (((λ e. refl), tt), tt);
  job_wallets = (((λ e. refl), tt), tt);
  statuses = (refl, tt);
  linked = (((λ e. refl), tt), tt);
}

active_forever_example :
    find_where (λ v. v.id == 100) (run stranger active_db).wallets ≡ some active_wallet
active_forever_example =
    active_forever active_db (run stranger active_db) 100 active_wallet active_db-IsSound
      (call here stranger tt) refl refl

abbrev claimed : Claimed
claimed = record {
  job = as_processing 55 1020 pending_job;
  wallet = record reserved_wallet { status = WalletStatus.provisioning };
}

abbrev claimed_db : Db
claimed_db = (take_claim 55 1020 20 pending_job reserved_wallet db).1

claims_it : claim_candidate 200 55 20 1000 db ≡ (some claimed, claimed_db)
unfolding claim_candidate candidate take_claim
claims_it = refl

claim_candidate_exclusive_example :
    claim_candidate 200 66 900 1000 (run_all (stranger ∷ claim 200 77 800 10 ∷ []) claimed_db)
    ≡ (none, run_all (stranger ∷ claim 200 77 800 10 ∷ []) claimed_db)
claim_candidate_exclusive_example =
    claim_candidate_exclusive 200 55 20 1000 66 900 1000 db claimed_db claimed
      (stranger ∷ claim 200 77 800 10 ∷ []) db-IsSound claims_it
      ((λ e. absurd (omega arith)), (omega arith, tt)) (omega arith)

abbrev no_faults : Hooks
no_faults = record { before_lookup = false; before_store = false; after_store = false }

-- The store commits, but its answer is lost.
abbrev answer_lost : Hooks
answer_lost = record no_faults { after_store = true }

abbrev a_run : Run
a_run = record {
  now = 20;
  later = 25;
  lease_ms = 1000;
  base_retry_ms = 500;
  lease_token = 55;
  key_id = 300;
  opaque_reference = 400;
  keypair = some (record { public_key = 3; secret = 4 });
  lookup_hooks = no_faults;
  store_hooks = answer_lost;
  repair_hooks = no_faults;
  is_complete_out = false;
  is_failure_out = false;
}

abbrev kms : KmsSecretStore Entries
kms = in_memory_envelope_kms (λ secret. secret + 1)

serve_all-KeysMatch_example :
    Keeps kms [] (serve_all kms (wallet 100 a_run ∷ next a_run ∷ []) (db, [])).1
    × KeysMatch kms
        (serve_all kms (wallet 100 a_run ∷ next a_run ∷ []) (db, [])).1
        (serve_all kms (wallet 100 a_run ∷ next a_run ∷ []) (db, [])).0
serve_all-KeysMatch_example =
    serve_all-KeysMatch kms (wallet 100 a_run ∷ next a_run ∷ []) db [] ((λ a. cc), tt)

-- The run completes, although the store's answer was lost.
abbrev out : Handle.HandleResult × Db × Entries
out = handle_wallet kms 100 a_run (db, [])

handle_wallet_completes_example :
    (m : StoredStellarKey) × (kms.kept 100 out.2 ≡ some m)
    × (m.public_key ≡ 3)
    × IsProvisioned 100 3 out.1
unfolding handle_wallet handle_claimed claim_by_wallet_id claim_candidate candidate take_claim
    material_for store_new finalize complete activate upsert_key find_in_memory store_in_memory
    add_entry Handle.repaired
handle_wallet_completes_example = handle_wallet_completes kms 100 a_run db [] 100 3 out.1 out.2 refl

fail_outcome_example :
    (j : WalletJob) × (find_job 100 (Handle.fail a_run claimed kms_unavailable claimed_db).1
      ≡ some j)
    × (j.lease_token ≡ none)
    × (1 < 8
        → ((Handle.fail a_run claimed kms_unavailable claimed_db).0
            ≡ retry_scheduled 100 kms_unavailable)
          × (j.status ≡ WalletJobStatus.retry)
          × (j.available_at ≡ 25 + 500 * 2 ^ (1 - 1)))
    × (8 ≤ 1
        → ((Handle.fail a_run claimed kms_unavailable claimed_db).0
            ≡ dead_letter 100 kms_unavailable)
          × (j.status ≡ WalletJobStatus.dead_letter))
unfolding take_claim
fail_outcome_example = fail_outcome a_run claimed kms_unavailable claimed_db _ refl refl refl refl
