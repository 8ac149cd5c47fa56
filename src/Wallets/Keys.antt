-- ===== src/Wallets/Keys.antt =====
-- src/jobs/wallet-provisioning.handler.ts with wallet-provisioning.repository.ts and the key store.
use learnault_api.Base.{
  ℕ, ◌≡◌, refl, sym, ap, ◌∙◌, true, false, Option, none, some, List, [], ◌∷◌, ◌==◌, arith,
  Bool-cases, Option-cases, inl, inr, ◌&&◌,
}
use learnault_api.Base.Result.{Result, ok, throw}
use learnault_api.Base.Inversion.{Result-cases, ok-injective}
use learnault_api.Base.Table.{find_where, update_where, All, All-map, All-append, All-update}
use learnault_api.Base.Rows.{find_where-true}
use mathlib.Core.Path.{subst}
use learnault_api.Wallets.{
  Wallet, StoredStellarKey, FailureCode, kms_store_uncertain, key_generation_failed,
  kms_unavailable, Db, is_failed, is_active,
}
use learnault_api.Wallets.Reserve.{
  Fresh, new_wallet, as_reserved, create_wallet, requeue_wallet, reserve_eligible_wallet,
}
use learnault_api.Wallets.Claim.{
  Claimed, candidate, take_claim, claim_candidate, claim_first, claim_next, claim_by_wallet_id,
  as_provisioning, is_claimable,
}
use learnault_api.Wallets.Finish.{
  as_active, as_failed_wallet, complete, record_failure, write_failure, upsert_key,
}
use learnault_api.Wallets.Cases.{
  claim_candidate-none, claim_candidate-some, requeued_or_created, complete-found, activate-tables,
  record_failure-found,
}
use learnault_api.Wallets.Kms.{KmsSecretStore, StoreInput}
use learnault_api.Wallets.Handle.{Run, GeneratedKeypair, repaired, store_new, material_for}

module _ {S : Type 0} (kms : KmsSecretStore S) where
  -- The public key of an active wallet is that of the key that the store keeps under the wallet's id.
  abbrev pub HasKey : S → Wallet → Type 0
  HasKey s w =
      is_active w.status ≡ true
      → (m : StoredStellarKey) × (kms.kept w.id s ≡ some m) × (w.public_key ≡ some m.public_key)

  abbrev pub KeysMatch : S → Db → Type 0
  KeysMatch s db = All (HasKey s) db.wallets

  -- A store of keys that kept more.
  abbrev pub Keeps : S → S → Type 0
  Keeps s s' = (key : ℕ) (m : StoredStellarKey) → kms.kept key s ≡ some m → kms.kept key s' ≡ some m

  pub KeysMatch-Keeps : (s s' : S) (db : Db) → Keeps s s' → KeysMatch s db → KeysMatch s' db
  KeysMatch-Keeps s s' db k h =
      All-map _ _ db.wallets (λ w has a. let (m, kept, same) = has a in (m, k w.id m kept, same)) h

  -- After a step whose result is `r`, the store kept what it had, and material that is returned is
  -- what is kept under the wallet's id.
  abbrev pub Material : ℕ → S → Result FailureCode StoredStellarKey × S → Type 0
  Material id s (r, s') = Keeps s s' × ((m : StoredStellarKey) → r ≡ ok m → kms.kept id s' ≡ some m)

  throw-Material :
      (id : ℕ) (s s' : S) (code : FailureCode) → Keeps s s' → Material id s (throw code, s')
  throw-Material id s s' code k = (k, λ m e. cc)

  ok-Material :
      (id : ℕ) (s s' : S) (m : StoredStellarKey)
      → Keeps s s'
      → kms.kept id s' ≡ some m
      → Material id s (ok m, s')
  ok-Material id s s' m k kept = (k, λ n e. kept ∙ ap some (ok-injective e))

  repaired_kept :
      (run : Run) (c : Claimed) (s : S) (m : StoredStellarKey)
      → repaired kms run c s ≡ some m
      → kms.kept c.wallet.id s ≡ some m
  unfolding repaired
  repaired_kept run c s m e =
      elim (Result-cases (kms.find_by_idempotency_key run.repair_hooks c.wallet.id s)) [
        | inl (err, g) ↦ absurd (cc (rw (g, repaired) at e))
        | inr (o, g) ↦
            sym (kms.find_kept run.repair_hooks c.wallet.id s o g) ∙ rw (g, repaired) at e
      ]

  abbrev input_of : Claimed → GeneratedKeypair → StoreInput
  input_of c pair = record {
    idempotency_key = c.wallet.id;
    public_key = pair.public_key;
    secret = pair.secret;
  }

  store_new-some :
      (run : Run) (c : Claimed) (s : S) (pair : GeneratedKeypair)
      → run.keypair ≡ some pair
      → Material c.wallet.id s (store_new kms run c s)
  unfolding store_new
  store_new-some run c s pair is =
      let input = input_of c pair in
      let out = kms.store_stellar_secret run.store_hooks run.opaque_reference input s in
      let keeps = kms.store_keeps run.store_hooks run.opaque_reference input s in
      elim (Result-cases out.0) [
        | inr (m, g) ↦
            rw (is, store_new, g)
              (ok-Material c.wallet.id s out.1 m keeps
                (kms.store_kept run.store_hooks run.opaque_reference input s m g))
        | inl (err, g) ↦ elim (Option-cases (repaired kms run c out.1)) [
          | inl h ↦
              rw (is, store_new, g, h)
                (throw-Material c.wallet.id s out.1 kms_store_uncertain keeps)
          | inr (m, h) ↦
              rw (is, store_new, g, h)
                (ok-Material c.wallet.id s out.1 m keeps (repaired_kept run c out.1 m h))
        ]
      ]

  store_new-Material :
      (run : Run) (c : Claimed) (s : S) → Material c.wallet.id s (store_new kms run c s)
  unfolding store_new
  store_new-Material run c s = elim (Option-cases run.keypair) [
    | inl is ↦
        rw (is, store_new) (throw-Material c.wallet.id s s key_generation_failed (λ key m h. h))
    | inr (pair, is) ↦ store_new-some run c s pair is
  ]

  pub material_for-Material :
      (run : Run) (c : Claimed) (s : S) → Material c.wallet.id s (material_for kms run c s)
  unfolding material_for
  material_for-Material run c s =
      elim (Result-cases (kms.find_by_idempotency_key run.lookup_hooks c.wallet.id s)) [
        | inl (err, g) ↦
            rw (g, material_for) (throw-Material c.wallet.id s s kms_unavailable (λ key m h. h))
        | inr (o, g) ↦ elim (Option-cases o) [
          | inl h ↦ rw (g, material_for, h) (store_new-Material run c s)
          | inr (m, h) ↦
              rw (g, material_for, h)
                (ok-Material c.wallet.id s s m (λ key n k. k)
                  (sym (kms.find_kept run.lookup_hooks c.wallet.id s o g) ∙ h))
        ]
      ]

  update-KeysMatch :
      (s : S) (db db' : Db) (id : ℕ) (g : Wallet → Wallet)
      → db'.wallets ≡ update_where (λ v. v.id == id) g db.wallets
      → ((v : Wallet) → v.id ≡ id → HasKey s (g v))
      → KeysMatch s db
      → KeysMatch s db'
  update-KeysMatch s db db' id g ws k h =
      rw ws (All-update (HasKey s) (λ v. v.id == id) g db.wallets (λ v _ e. k v (ground arith)) h)

  -- Every way of claiming takes one candidate, or changes nothing.
  module _ (P : Db → Type 0) (db : Db) (token now lease_ms : ℕ) (h : P db)
      (k : (id : ℕ) → P (claim_candidate id token now lease_ms db).1) where
    claim_first_one : (ids : List ℕ) → P (claim_first token now lease_ms ids db).1
    unfolding claim_first
    claim_first_one [] = h
    claim_first_one (id ∷ ids) = elim (Option-cases (claim_candidate id token now lease_ms db).0) [
      | inl e ↦ rw (e, claim_first) (claim_first_one ids)
      | inr (c, e) ↦ rw (e, claim_first) (k id)
    ]

    pub claim_next_one : P (claim_next token now lease_ms db).1
    unfolding claim_next
    claim_next_one = claim_first_one _

    pub claim_by_wallet_id_one :
        (wallet_id : ℕ) → P (claim_by_wallet_id wallet_id token now lease_ms db).1
    unfolding claim_by_wallet_id
    claim_by_wallet_id_one wallet_id =
        elim (Option-cases
          (find_where (λ j. j.wallet_id == wallet_id && is_claimable now j) db.jobs)) [
            | inl e ↦ rw (e, claim_by_wallet_id) h
            | inr (j, e) ↦ rw (e, claim_by_wallet_id) (k j.id)
          ]

  pub claim_candidate-KeysMatch :
      (s : S) (db : Db) (id token now lease_ms : ℕ)
      → KeysMatch s db
      → KeysMatch s (claim_candidate id token now lease_ms db).1
  unfolding take_claim
  claim_candidate-KeysMatch s db id token now lease_ms h =
      elim (Option-cases (candidate id now db)) [
        | inl e ↦ rw (claim_candidate-none id token now lease_ms db e) h
        | inr (c, e) ↦
            update-KeysMatch s db (claim_candidate id token now lease_ms db).1 c.job.wallet_id
              (as_provisioning now)
              (ap (λ (x : Option Claimed × Db). x.1.wallets)
                (claim_candidate-some id token now lease_ms db c e))
              (λ v _ a. cc) h
      ]

  pub complete-KeysMatch :
      (s : S) (fresh_id id token : ℕ) (m : StoredStellarKey) (now : ℕ) (db db' : Db) (w' : Wallet)
      → kms.kept id s ≡ some m
      → complete fresh_id id token m now db ≡ ok (w', db')
      → KeysMatch s db
      → KeysMatch s db'
  complete-KeysMatch s fresh_id id token m now db db' w' kept e h =
      let (j, w, _, found, rest) = complete-found fresh_id id token m now db db' w' e in
      elim rest [
        | inl (_, _, same) ↦ rw (sym same) h
        | inr (_, _, done) ↦
            let (_, ws, _) = activate-tables fresh_id m now w w' db db' done in
            let of_id = find_where-true (λ x. x.id == id) db.wallets w found in
            update-KeysMatch s db db' w.id
              (as_active m.public_key (upsert_key fresh_id m db.keys).0 now) ws
              (λ v same a. (m, (let eq : v.id ≡ id = ground arith in rw eq kept), refl)) h
      ]

  not_active :
      (code : FailureCode) (at : Option ℕ) (now : ℕ) (w : Wallet)
      → is_active (as_failed_wallet code at now w).status ≡ false
  not_active code none now w = refl
  not_active code (some t) now w = refl

  pub record_failure-KeysMatch :
      (s : S) (id token : ℕ) (code : FailureCode) (at : Option ℕ) (now : ℕ) (db db' : Db)
      → record_failure id token code at now db ≡ ok db'
      → KeysMatch s db
      → KeysMatch s db'
  unfolding write_failure
  record_failure-KeysMatch s id token code at now db db' e h =
      let (j, w, _, _, rest) = record_failure-found id token code at now db db' e in
      elim rest [
        | inr (_, same) ↦ rw (sym same) h
        | inl (_, done) ↦
            update-KeysMatch s db db' id (as_failed_wallet code at now) (sym (ap Db.wallets done))
              (λ v _ a. absurd (cc (not_active code at now v))) h
      ]

  requeue-KeysMatch :
      (s : S) (fresh : Fresh) (now : ℕ) (w : Wallet) (db : Db)
      → KeysMatch s db
      → KeysMatch s (requeue_wallet fresh now w db).1
  unfolding requeue_wallet
  requeue-KeysMatch s fresh now w db h = elim (Bool-cases (is_failed w.status)) [
    | inl f ↦ rw f (All-update (HasKey s) _ (as_reserved now) db.wallets (λ v _ e a. cc) h)
    | inr f ↦ elim (Bool-cases (is_active w.status)) [ inl a ↦ rw (f, a) h | inr a ↦ rw (f, a) h ]
  ]

  pub reserve-KeysMatch :
      (s : S) (fresh : Fresh) (user_id network now : ℕ) (db db' : Db) (w : Wallet)
      → reserve_eligible_wallet fresh user_id network now db ≡ ok (w, db')
      → KeysMatch s db
      → KeysMatch s db'
  unfolding create_wallet
  reserve-KeysMatch s fresh user_id network now db db' w e h =
      elim (requeued_or_created fresh user_id network now db db' w e) [
        | inl (_, made) ↦ subst (KeysMatch s) (ap (λ (x : Wallet × Db). x.1) made) (
            All-append (HasKey s) db.wallets (new_wallet fresh user_id network now ∷ []) h
              ((λ a. cc), tt))
        | inr (v, _, made) ↦
            subst (KeysMatch s) (ap (λ (x : Wallet × Db). x.1) made)
              (requeue-KeysMatch s fresh now v db h)
      ]
