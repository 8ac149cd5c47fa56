-- ===== src/Wallets/OneKey.antt =====
-- src/jobs/wallet-provisioning.handler.ts: the keys of active wallets under sequences of requests and
-- handler runs.
use learnault_api.Base.{ℕ, ◌≡◌, Option, none, some, List, [], ◌∷◌, Bool-cases, inl, inr}
use learnault_api.Base.Inversion.{Result-cases}
use learnault_api.Wallets.{StoredStellarKey, FailureCode, database_finalization_failed, Db}
use learnault_api.Wallets.Reserve.{Fresh, reserve_eligible_wallet}
use learnault_api.Wallets.Claim.{Claimed, claim_next, claim_by_wallet_id}
use learnault_api.Wallets.Finish.{complete, record_failure}
use learnault_api.Wallets.Calls.{db_or}
use learnault_api.Wallets.Kms.{KmsSecretStore}
use learnault_api.Wallets.Keys.{
  KeysMatch, KeysMatch-Keeps, Keeps, material_for-Material, claim_next_one, claim_by_wallet_id_one,
  claim_candidate-KeysMatch, complete-KeysMatch, record_failure-KeysMatch, reserve-KeysMatch,
}
use learnault_api.Wallets.Handle.{
  Run, fail, retry_at, try_record_failure, finalize, material_for, handle_claimed, handle_next,
  handle_wallet,
}

-- What happens at the service: a user asks for a wallet, or a worker runs the handler.
pub data Request : Type 0 where
  ask : Fresh → (user_id network now : ℕ) → Request
  next : Run → Request
  wallet : (wallet_id : ℕ) → Run → Request

module _ {S : Type 0} (kms : KmsSecretStore S) where
  unfoldable pub serve : Request → Db × S → Db × S
  unfolding handle_next handle_wallet
  serve (ask fresh user_id network now) (db, s) =
      (db_or db (reserve_eligible_wallet fresh user_id network now db), s)
  serve (next run) (db, s) = let (out, db', s') = handle_next kms run (db, s) in (db', s')
  serve (wallet id run) (db, s) = let (out, db', s') = handle_wallet kms id run (db, s) in (db', s')

  unfoldable pub serve_all : List Request → Db × S → Db × S
  unfolding serve
  serve_all [] state = state
  serve_all (r ∷ rs) state = serve_all rs (serve r state)

  -- The store keeps what it had, and the keys of the active wallets match.
  abbrev Matches : S → Db × S → Type 0
  Matches s (db', s') = Keeps kms s s' × KeysMatch kms s' db'

  fail-KeysMatch :
      (run : Run) (c : Claimed) (code : FailureCode) (s : S) (db : Db)
      → KeysMatch kms s db
      → KeysMatch kms s (fail run c code db).1
  unfolding fail try_record_failure
  fail-KeysMatch run c code s db h = elim (Bool-cases run.is_failure_out) [
    | inl g ↦ rw g h
    | inr g ↦
        let at = retry_at run.later run.base_retry_ms c.job in
        elim (Result-cases (record_failure c.wallet.id run.lease_token code at run.later db)) [
          | inl (err, e) ↦ rw (g, e) h
          | inr (db', e) ↦
              rw (g, e)
                (record_failure-KeysMatch kms s c.wallet.id run.lease_token code at run.later db db'
                  e h)
        ]
  ]

  finalize-KeysMatch :
      (run : Run) (c : Claimed) (m : StoredStellarKey) (s : S) (db : Db)
      → kms.kept c.wallet.id s ≡ some m
      → KeysMatch kms s db
      → KeysMatch kms s (finalize run c m db).1
  unfolding finalize
  finalize-KeysMatch run c m s db kept h = elim (Bool-cases run.is_complete_out) [
    | inl g ↦ rw g (fail-KeysMatch run c database_finalization_failed s db h)
    | inr g ↦ elim (Result-cases (complete run.key_id c.wallet.id run.lease_token m run.later db)) [
      | inl (err, e) ↦ rw (g, e) (fail-KeysMatch run c database_finalization_failed s db h)
      | inr ((w, db'), e) ↦
          rw (g, e)
            (complete-KeysMatch kms s run.key_id c.wallet.id run.lease_token m run.later db db' w
              kept e h)
    ]
  ]

  handle_claimed-Matches :
      (run : Run) (claimed : Option Claimed) (db : Db) (s : S)
      → KeysMatch kms s db
      → Matches s
          ((handle_claimed kms run claimed (db, s)).1, (handle_claimed kms run claimed (db, s)).2)
  unfolding handle_claimed
  handle_claimed-Matches run none db s h = ((λ key m k. k), h)
  handle_claimed-Matches run (some c) db s h =
      let step = material_for kms run c s in
      let (keeps, is_kept) = material_for-Material kms run c s in
      let h' = KeysMatch-Keeps kms s step.1 db keeps h in
      elim (Result-cases step.0) [
        | inl (code, e) ↦ rw (e, handle_claimed) (keeps, fail-KeysMatch run c code step.1 db h')
        | inr (m, e) ↦
            rw (e, handle_claimed) (keeps, finalize-KeysMatch run c m step.1 db (is_kept m e) h')
      ]

  serve-Matches : (r : Request) (db : Db) (s : S) → KeysMatch kms s db → Matches s (serve r (db, s))
  unfolding serve handle_next handle_wallet
  serve-Matches (ask fresh user_id network now) db s h = (
    (λ key m k. k),
    elim (Result-cases (reserve_eligible_wallet fresh user_id network now db)) [
      | inl (err, e) ↦ rw e h
      | inr ((w, db'), e) ↦ rw e (reserve-KeysMatch kms s fresh user_id network now db db' w e h)
    ],
  )
  serve-Matches (next run) db s h =
      let claims = claim_next run.lease_token run.now run.lease_ms db in
      handle_claimed-Matches run claims.0 claims.1 s (
        claim_next_one kms (KeysMatch kms s) db run.lease_token run.now run.lease_ms h
          (λ id. claim_candidate-KeysMatch kms s db id run.lease_token run.now run.lease_ms h))
  serve-Matches (wallet id run) db s h =
      let claims = claim_by_wallet_id id run.lease_token run.now run.lease_ms db in
      handle_claimed-Matches run claims.0 claims.1 s (
        claim_by_wallet_id_one kms (KeysMatch kms s) db run.lease_token run.now run.lease_ms h
          (λ j. claim_candidate-KeysMatch kms s db j run.lease_token run.now run.lease_ms h) id)

  -- With any key store that keeps the interface's laws, whatever users ask for and workers run, and
  -- whatever faults strike the store and the database in between: a key once kept for a wallet is
  -- never replaced, and every active wallet has the public key of the one kept for it, if that held at
  -- first.
  pub serve_all-KeysMatch :
      (rs : List Request) (db : Db) (s : S)
      → KeysMatch kms s db
      → Keeps kms s (serve_all rs (db, s)).1
        × KeysMatch kms (serve_all rs (db, s)).1 (serve_all rs (db, s)).0
  unfolding serve_all
  serve_all-KeysMatch [] db s h = ((λ key m k. k), h)
  serve_all-KeysMatch (r ∷ rs) db s h =
      let (keeps, h') = serve-Matches r db s h in
      let (keeps', h'') = serve_all-KeysMatch rs (serve r (db, s)).0 (serve r (db, s)).1 h' in
      ((λ key m k. keeps' key m (keeps key m k)), h'')
