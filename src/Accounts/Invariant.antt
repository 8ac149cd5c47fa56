-- ===== src/Accounts/Invariant.antt =====
-- account-lifecycle.service.ts: ids stay unique, and claimed requests are being processed, after every step.
use learnault_api.Base.{
  ℕ, ◌≡◌, ◌≢◌, refl, Bool, false, Option, List, [], ◌∷◌, ◌==◌, arith, Bool-cases, Option-cases, inl,
  inr,
}
use learnault_api.Base.Table.{find_where, update_where, count_where, All, All-map}
use learnault_api.Base.Rows.{counted, find_where-true}
use learnault_api.Base.Unique.{IsUnique, update_where-IsUnique, append-IsUnique, find_where-append}
use learnault_api.Accounts.{processing, DeletionRequest, Db, Context, is_active_account}
use learnault_api.Accounts.Deletion.{
  deactivate, reactivate, is_active_of, new_request, request_deletion, is_pending_of, as_cancelled,
  cancel_request, restore_user,
}
use learnault_api.Accounts.Sweep.{
  is_unclaimed, as_processing, claim_request, Tombstone, as_completed, finalize_deletion,
  is_worked_on, after_failure, handle_finalization_failure,
}
use learnault_api.Accounts.Steps.{
  Live, Step, asks, cancels, restores, deactivates, reactivates, claims, finalizes, fails, without,
  claim_step, finalize_step, fail_step, run, DrawsFresh,
}
use learnault_api.Accounts.Diagram.{
  IsProcessed, Inv, KeepsId, found_updated, found_by_id, after_failure-id,
}

-- An update that passes processed rows by, or the row of a request, keeps it processed.
update-IsProcessed :
    (p : DeletionRequest → Bool) (f : DeletionRequest → DeletionRequest) (rs : List DeletionRequest)
    (read : DeletionRequest)
    → KeepsId f
    → ((r : DeletionRequest) → r.id ≡ read.id → r.status ≡ processing → p r ≡ false)
    → IsProcessed rs read
    → IsProcessed (update_where p f rs) read
update-IsProcessed p f rs read same passes (r, found, is) =
    let at_id = find_where-true (λ q. q.id == read.id) rs r found in
    (r, rw (found_updated read.id p f rs r same found, passes r (ground arith) is), is)

claimed-IsProcessed :
    (id now : ℕ) (rs : List DeletionRequest) (read : DeletionRequest)
    → IsUnique (λ q. q.id) rs
    → read.id ≡ id
    → (count_where (is_unclaimed id) rs == 0) ≡ false
    → IsProcessed (update_where (is_unclaimed id) (as_processing now) rs) read
claimed-IsProcessed id now rs read ids same h =
    let (r, found) = counted (is_unclaimed id) rs h in
    let is = find_where-true (is_unclaimed id) rs r found in
    let there = found_by_id id (is_unclaimed id) rs r ids found (ground arith) in
    (
      as_processing now r,
      rw (same, found_updated id (is_unclaimed id) (as_processing now) rs r (λ q. refl) there, is),
      refl,
    )

module _ (s : Live) (h : Inv s) where
  -- An update that passes every claimed row by.
  passing-Inv :
      (db : Db) (p : DeletionRequest → Bool) (f : DeletionRequest → DeletionRequest)
      → db.requests ≡ update_where p f s.db.requests
      → KeepsId f
      → ((r : DeletionRequest) → r.status ≡ processing → p r ≡ false)
      → Inv (record s { db = db })
  passing-Inv db p f rs same passes = record {
    ids = rw rs (update_where-IsUnique (λ r. r.id) p f s.db.requests same h.ids);
    processed = rw rs (
        All-map _ _ s.claimed
          (λ read. update-IsProcessed p f s.db.requests read same (λ r _ is. passes r is))
          h.processed);
  }

  asks-Inv :
      (id user_id : ℕ) (reason : Option ℕ) (days : ℕ) (ctx : Context) (now : ℕ)
      → All (λ r. r.id ≢ id) s.db.requests
      → Inv (record s { db = (request_deletion id user_id reason days ctx now s.db).1 })
  unfolding request_deletion
  asks-Inv id user_id reason days ctx now fresh =
      elim (Option-cases (find_where (is_active_of user_id) s.db.requests)) [
        | inr (r, e) ↦ rw (e, request_deletion) h
        | inl e ↦
            rw (e, request_deletion)
              (record {
                ids =
                    append-IsUnique (λ r. r.id) (new_request id user_id reason days now)
                      s.db.requests fresh h.ids;
                processed =
                    All-map _ _ s.claimed
                      (λ read there. (
                        there.0,
                        find_where-append (λ r. r.id == read.id) s.db.requests
                            (new_request id user_id reason days now ∷ []) there.0 there.1,
                        there.2,
                      ))
                      h.processed;
              })
      ]

  claims-Inv : (read : DeletionRequest) (now : ℕ) → Inv (claim_step read now s)
  unfolding claim_step claim_request
  claims-Inv read now =
      let kept =
        passing-Inv (claim_request read.id now s.db).1 (is_unclaimed read.id) (as_processing now)
          refl (λ r. refl) (λ r is. ground arith) in
      elim (Bool-cases (count_where (is_unclaimed read.id) s.db.requests == 0)) [
        | inl e ↦ rw e (record { ids = kept.ids; processed = kept.processed })
        | inr e ↦ rw e (record {
          ids = kept.ids;
          processed =
              (claimed-IsProcessed read.id now s.db.requests read h.ids refl e, kept.processed);
        })
      ]

  -- A finished request is no longer claimed; the others are still processed.
  finished-Processed :
      (id : ℕ) (p : DeletionRequest → Bool) (f : DeletionRequest → DeletionRequest)
      → KeepsId f
      → ((r : DeletionRequest) → r.id ≢ id → p r ≡ false)
      → All (IsProcessed (update_where p f s.db.requests)) (without id s.claimed)
  finished-Processed id p f same other = go s.claimed h.processed
    where
      go :
          (rs : List DeletionRequest)
          → All (IsProcessed s.db.requests) rs
          → All (IsProcessed (update_where p f s.db.requests)) (without id rs)
      go [] hs = tt
      go (read ∷ rs) (there, hs) = elim (Bool-cases (read.id == id)) [
        | inl e ↦ rw e (go rs hs)
        | inr e ↦ rw e (
          update-IsProcessed p f s.db.requests read same
              (λ r at_id _. other r (λ eq. absurd (ground arith))) there,
          go rs hs,
        )
      ]

  finalizes-Inv : (t : Tombstone) (id now : ℕ) → Inv (finalize_step t id now s)
  unfolding finalize_step finalize_deletion
  finalizes-Inv t id now = elim (Option-cases (find_where (λ r. r.id == id) s.claimed)) [
    | inl e ↦ rw (e, finalize_step) h
    | inr (read, e) ↦
        let at_id = find_where-true (λ r. r.id == id) s.claimed read e in
        rw (e, finalize_step)
          (record {
            ids =
                update_where-IsUnique (λ r. r.id) _ (as_completed now) s.db.requests (λ r. refl)
                  h.ids;
            processed =
                finished-Processed id (λ r. r.id == read.id) (as_completed now) (λ r. refl)
                  (λ r ne. elim (Bool-cases (r.id == read.id)) [
                    | inl g ↦ absurd (ne (ground arith))
                    | inr g ↦ g
                  ]);
          })
  ]

  fails-Inv : (id error now : ℕ) → Inv (fail_step id error now s)
  unfolding fail_step handle_finalization_failure
  fails-Inv id error now = elim (Option-cases (find_where (λ r. r.id == id) s.claimed)) [
    | inl e ↦ rw (e, fail_step) h
    | inr (read, e) ↦
        let at_id = find_where-true (λ r. r.id == id) s.claimed read e in
        rw (e, fail_step)
          (record {
            ids =
                update_where-IsUnique (λ r. r.id) (is_worked_on read.id)
                  (after_failure read error now) s.db.requests (after_failure-id read error now)
                  h.ids;
            processed =
                finished-Processed id (is_worked_on read.id) (after_failure read error now)
                  (after_failure-id read error now)
                  (λ r ne. elim (Bool-cases (is_worked_on read.id r)) [
                    | inl g ↦ absurd (ne (ground arith))
                    | inr g ↦ g
                  ]);
          })
  ]

pub run-Inv : (step : Step) (s : Live) → DrawsFresh step s → Inv s → Inv (run step s)
unfolding run cancel_request restore_user reactivate deactivate
run-Inv (asks id user_id reason days ctx now) s f h = asks-Inv s h id user_id reason days ctx now f
run-Inv (cancels user_id now) s f h =
    passing-Inv s h (cancel_request user_id now s.db).1 (is_pending_of user_id) (as_cancelled now)
      refl (λ r. refl) (λ r is. ground arith)
run-Inv (restores user_id ctx now) s f h = record { ids = h.ids; processed = h.processed }
run-Inv (deactivates user_id status ctx now) s f h = elim (Bool-cases (is_active_account status)) [
  | inl e ↦ rw e (record { ids = h.ids; processed = h.processed })
  | inr e ↦ rw e (record { ids = h.ids; processed = h.processed })
]
run-Inv (reactivates user_id ctx now) s f h = record { ids = h.ids; processed = h.processed }
run-Inv (claims read now) s f h = claims-Inv s h read now
run-Inv (finalizes t id now) s f h = finalizes-Inv s h t id now
run-Inv (fails id error now) s f h = fails-Inv s h id error now
