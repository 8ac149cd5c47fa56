-- ===== src/Wallets/Diagram.antt =====
-- wallet-provisioning.repository.ts against `WALLET_TRANSITIONS` of src/types/wallet-provisioning.types.ts.
use learnault_api.Base.{
  ℕ, ◌≡◌, ◌⊎◌, refl, sym, ap, ◌∙◌, true, false, Option, none, some, [], ◌∷◌, ◌==◌, arith,
  Bool-cases, Option-cases, Bool, inl, inr, ◌||◌,
}
use learnault_api.Base.Result.{ok, throw}
use learnault_api.Base.Table.{find_where, update_where}
use learnault_api.Base.Rows.{find_where-All, find_where-true, find_where-update_where}
use learnault_api.Base.Unique.{find_where-append}
use mathlib.Core.Path.{subst}
use learnault_api.Wallets.{
  WalletStatus, WalletJobStatus, provisioning, reserved, retryable, active, exporting, migrated,
  failed, disabled, Wallet, WalletJob, StoredStellarKey, FailureCode, Db, Outcome, is_failed,
  is_active, is_waiting, is_processing, can_transition_wallet,
}
use learnault_api.Wallets.Linked.{fits, IsSound}
use learnault_api.Wallets.Reserve.{
  Fresh, new_wallet, as_reserved, create_wallet, requeue_wallet, reserve_eligible_wallet,
}
use learnault_api.Wallets.Claim.{
  Claimed, is_candidate, candidate, take_claim, claim_candidate, as_provisioning,
}
use learnault_api.Wallets.Finish.{
  holds_lease, as_active, as_failed_wallet, complete, record_failure, write_failure, upsert_key,
  find_job,
}
use learnault_api.Wallets.Cases.{
  claim_candidate-none, claim_candidate-some, candidate-found, requeued_or_created, complete-found,
  activate-tables, record_failure-found,
}
use learnault_api.Wallets.Kept.{⟶*-IsSound}
use learnault_api.Wallets.Calls.{
  Op, reserve, claim, finish, fail, db_or, db_or_same, run, ◌⟶*◌, here, call,
}

-- What one call may do to a wallet: nothing, one edge of the diagram, which does not leave `ACTIVE`,
-- or another attempt.
infix 40 ◌⇒◌
pub data ◌⇒◌ : Wallet → Wallet → Type 0 where
  stay : {w : Wallet} → w ⇒ w
  edge :
      {w w' : Wallet}
      → is_active w.status ≡ false
      → can_transition_wallet w.status w'.status ≡ true
      → w ⇒ w'
  again : {w w' : Wallet} → w.status ≡ provisioning → w'.status ≡ provisioning → w ⇒ w'

-- The row of a wallet before and after a call.
abbrev pub Follows : ℕ → Wallet → Db → Type 0
Follows id w db = (w' : Wallet) × (find_where (λ v. v.id == id) db.wallets ≡ some w') × (w ⇒ w')

claimed_status :
    (s : WalletStatus) (t : WalletJobStatus)
    → fits s t ≡ true
    → (is_waiting t || is_processing t) ≡ true
    → ((is_active s ≡ false) × (can_transition_wallet s provisioning ≡ true)) ⊎ (s ≡ provisioning)
claimed_status reserved t f c = inl (refl, refl)
claimed_status provisioning t f c = inr refl
claimed_status retryable t f c = inl (refl, refl)
claimed_status active t f c = absurd (ground arith)
claimed_status exporting t f c = absurd (ground arith)
claimed_status migrated t f c = absurd (ground arith)
claimed_status failed t f c = absurd (ground arith)
claimed_status disabled t f c = absurd (ground arith)

processed_status :
    (s : WalletStatus) (t : WalletJobStatus)
    → fits s t ≡ true
    → is_processing t ≡ true
    → s ≡ provisioning
processed_status s t f c = ground arith

failed_status : (s : WalletStatus) → is_failed s ≡ true → s ≡ failed
failed_status s f = ground arith

module _ (db : Db) (id : ℕ) (w : Wallet)
    (found : find_where (λ v. v.id == id) db.wallets ≡ some w) where
  -- An update of the wallets with an id.
  update-Follows :
      (db' : Db) (of_id : ℕ) (g : Wallet → Wallet)
      → ((v : Wallet) → (g v).id ≡ v.id)
      → db'.wallets ≡ update_where (λ v. v.id == of_id) g db.wallets
      → (w.id ≡ of_id → w ⇒ g w)
      → Follows id w db'
  update-Follows db' of_id g same ws k = elim (Bool-cases (w.id == of_id)) [
    | inl e ↦ (
      g w,
      rw (
        ws,
        find_where-update_where (λ v. v.id == id) (λ v. v.id == of_id) g db.wallets
            (λ v. ap (λ n. n == id) (same v)),
        found,
        e,
      ),
      k (ground arith),
    )
    | inr e ↦ (
      w,
      rw (
        ws,
        find_where-update_where (λ v. v.id == id) (λ v. v.id == of_id) g db.wallets
            (λ v. ap (λ n. n == id) (same v)),
        found,
        e,
      ),
      stay,
    )
  ]

  module _ (s : IsSound db.wallets db.jobs) where
    linked_status :
        (p : WalletJob → Bool) (j : WalletJob)
        → find_where p db.jobs ≡ some j
        → w.id ≡ j.wallet_id
        → fits w.status j.status ≡ true
    linked_status p j there same =
        find_where-All _ (λ v. v.id == id) db.wallets w
          (find_where-All _ p db.jobs j s.linked there) found same

    claim-Follows :
        (job_id token now lease_ms : ℕ)
        → Follows id w (claim_candidate job_id token now lease_ms db).1
    unfolding take_claim
    claim-Follows job_id token now lease_ms = elim (Option-cases (candidate job_id now db)) [
      | inl e ↦ rw (claim_candidate-none job_id token now lease_ms db e) (w, found, stay)
      | inr (c, e) ↦
          let (there, _) = candidate-found job_id now db c e in
          let is = find_where-true (is_candidate job_id now) db.jobs c.job there in
          update-Follows (claim_candidate job_id token now lease_ms db).1 c.job.wallet_id
            (as_provisioning now) (λ v. refl)
            (ap (λ (x : Option Claimed × Db). x.1.wallets)
              (claim_candidate-some job_id token now lease_ms db c e))
            (λ same.
              elim (claimed_status w.status c.job.status (linked_status _ c.job there same)
                (ground arith)) [ inl (a, b) ↦ edge a b | inr b ↦ again b refl ])
    ]

    requeue-Follows :
        (fresh : Fresh) (now : ℕ) (p : Wallet → Bool) (v : Wallet)
        → find_where p db.wallets ≡ some v
        → Follows id w (requeue_wallet fresh now v db).1
    unfolding requeue_wallet
    requeue-Follows fresh now p v there = elim (Bool-cases (is_failed v.status)) [
      | inl f ↦
          update-Follows (requeue_wallet fresh now v db).1 v.id (as_reserved now) (λ u. refl) (rw f)
            (λ same.
              let only = find_where-All _ p db.wallets v s.wallet_ids there in
              let eq = find_where-All _ (λ u. u.id == id) db.wallets w only found (sym same) in
              let is =
                failed_status w.status (subst (λ (x : Wallet). is_failed x.status ≡ true) eq f) in
              edge (rw is) (rw is))
      | inr f ↦ elim (Bool-cases (is_active v.status)) [
        | inl a ↦ rw (f, a) (w, found, stay)
        | inr a ↦ rw (f, a) (w, found, stay)
      ]
    ]

    create-Follows :
        (fresh : Fresh) (user_id network now : ℕ)
        → Follows id w (create_wallet fresh user_id network now db).1
    unfolding create_wallet
    create-Follows fresh user_id network now = (
      w,
      find_where-append (λ v. v.id == id) db.wallets (new_wallet fresh user_id network now ∷ []) w
          found,
      stay,
    )

    reserve-Follows :
        (fresh : Fresh) (user_id network now : ℕ) (db' : Db) (v : Wallet)
        → reserve_eligible_wallet fresh user_id network now db ≡ ok (v, db')
        → Follows id w db'
    reserve-Follows fresh user_id network now db' v e =
        elim (requeued_or_created fresh user_id network now db db' v e) [
          | inl (_, made) ↦
              subst (Follows id w) (ap (λ (x : Wallet × Db). x.1) made)
                (create-Follows fresh user_id network now)
          | inr (u, there, made) ↦
              subst (Follows id w) (ap (λ (x : Wallet × Db). x.1) made)
                (requeue-Follows fresh now (λ x. x.user_id == user_id) u there)
        ]

    -- A worker that holds the lease of a wallet's job holds a wallet that is being provisioned.
    held_status :
        (wallet_id token : ℕ) (j : WalletJob)
        → find_job wallet_id db ≡ some j
        → holds_lease token j ≡ true
        → w.id ≡ wallet_id
        → w.status ≡ provisioning
    held_status wallet_id token j there held same =
        let is = find_where-true (λ k. k.wallet_id == wallet_id) db.jobs j there in
        processed_status w.status j.status (linked_status _ j there (ground arith)) (ground arith)

    complete-Follows :
        (fresh_id wallet_id token : ℕ) (m : StoredStellarKey) (now : ℕ) (db' : Db) (w' : Wallet)
        → complete fresh_id wallet_id token m now db ≡ ok (w', db')
        → Follows id w db'
    complete-Follows fresh_id wallet_id token m now db' w' e =
        let (j, v, there, v_found, rest) =
          complete-found fresh_id wallet_id token m now db db' w' e in
        elim rest [
          | inl (_, _, same) ↦ subst (Follows id w) same (w, found, stay)
          | inr (_, held, done) ↦
              let (_, ws, _) = activate-tables fresh_id m now v w' db db' done in
              let of_id = find_where-true (λ x. x.id == wallet_id) db.wallets v v_found in
              update-Follows db' v.id (as_active m.public_key (upsert_key fresh_id m db.keys).0 now)
                (λ x. refl) ws
                (λ same.
                  let is = held_status wallet_id token j there held (ground arith) in
                  edge (rw is) (rw is))
        ]

    failure_edge :
        (code : FailureCode) (retry_at : Option ℕ) (now : ℕ)
        → w.status ≡ provisioning
        → w ⇒ as_failed_wallet code retry_at now w
    failure_edge code none now is = edge (rw is) (rw is)
    failure_edge code (some at) now is = edge (rw is) (rw is)

    record_failure-Follows :
        (wallet_id token : ℕ) (code : FailureCode) (retry_at : Option ℕ) (now : ℕ) (db' : Db)
        → record_failure wallet_id token code retry_at now db ≡ ok db'
        → Follows id w db'
    unfolding write_failure
    record_failure-Follows wallet_id token code retry_at now db' e =
        let (j, v, there, v_found, rest) =
          record_failure-found wallet_id token code retry_at now db db' e in
        elim rest [
          | inr (_, same) ↦ subst (Follows id w) same (w, found, stay)
          | inl (held, done) ↦
              update-Follows db' wallet_id (as_failed_wallet code retry_at now) (λ x. refl)
                (sym (ap Db.wallets done))
                (λ same.
                  failure_edge code retry_at now (held_status wallet_id token j there held same))
        ]

db_or-Follows :
    (id : ℕ) (w : Wallet) (db : Db) (m : Outcome (Wallet × Db))
    → Follows id w db
    → ((v : Wallet) (db' : Db) → m ≡ ok (v, db') → Follows id w db')
    → Follows id w (db_or db m)
db_or-Follows id w db (ok (v, db')) f k = k v db' refl
db_or-Follows id w db (throw e) f k = f

db_or_same-Follows :
    (id : ℕ) (w : Wallet) (db : Db) (m : Outcome Db)
    → Follows id w db
    → ((db' : Db) → m ≡ ok db' → Follows id w db')
    → Follows id w (db_or_same db m)
db_or_same-Follows id w db (ok db') f k = k db' refl
db_or_same-Follows id w db (throw e) f k = f

run-Follows :
    (op : Op) (db : Db) (id : ℕ) (w : Wallet)
    → IsSound db.wallets db.jobs
    → find_where (λ v. v.id == id) db.wallets ≡ some w
    → Follows id w (run op db)
unfolding run
run-Follows (reserve fresh user_id network now) db id w s found =
    db_or-Follows id w db (reserve_eligible_wallet fresh user_id network now db) (w, found, stay)
      (λ v db' e. reserve-Follows db id w found s fresh user_id network now db' v e)
run-Follows (claim job_id token now lease_ms) db id w s found =
    claim-Follows db id w found s job_id token now lease_ms
run-Follows (finish fresh_id wallet_id token m now) db id w s found =
    db_or-Follows id w db (complete fresh_id wallet_id token m now db) (w, found, stay)
      (λ v db' e. complete-Follows db id w found s fresh_id wallet_id token m now db' v e)
run-Follows (fail wallet_id token code retry_at now) db id w s found =
    db_or_same-Follows id w db (record_failure wallet_id token code retry_at now db)
      (w, found, stay)
      (λ db' e. record_failure-Follows db id w found s wallet_id token code retry_at now db' e)

-- In a database that calls reach from a sound one, a further call, whoever makes it, leaves a wallet's
-- row alone, follows one edge of `WALLET_TRANSITIONS` that does not start at `ACTIVE`, or starts another
-- attempt of one that is being provisioned.
pub run-wallet_transitions :
    (db db' : Db) (op : Op) (id : ℕ) (w : Wallet)
    → IsSound db.wallets db.jobs
    → db ⟶* db'
    → find_where (λ v. v.id == id) db'.wallets ≡ some w
    → (w' : Wallet) × (find_where (λ v. v.id == id) (run op db').wallets ≡ some w') × (w ⇒ w')
run-wallet_transitions db db' op id w s before found =
    run-Follows op db' id w (⟶*-IsSound db db' before s) found

stays_active : (w w' : Wallet) → w ⇒ w' → is_active w.status ≡ true → w ≡ w'
stays_active w _ stay a = refl
stays_active w w' (edge b _) a = cc
stays_active w w' (again p _) a = absurd (ground arith)

-- An active wallet's row, its public key with it, is never changed again by any sequence of calls that
-- starts from a sound database.
pub active_forever :
    (db db' : Db) (id : ℕ) (w : Wallet)
    → IsSound db.wallets db.jobs
    → db ⟶* db'
    → find_where (λ v. v.id == id) db.wallets ≡ some w
    → is_active w.status ≡ true
    → find_where (λ v. v.id == id) db'.wallets ≡ some w
active_forever db _ id w s here found a = found
active_forever db _ id w s (call {db' = mid} before op f) found a =
    let there = active_forever db mid id w s before found a in
    let (w', after, follows) = run-wallet_transitions db mid op id w s before there in
    after ∙ ap some (sym (stays_active w w' follows a))
