-- ===== src/Accounts/Stuck.antt =====
-- account-lifecycle.service.ts: a request whose sweep died after its claim.
use learnault_api.Base.{
  ℕ, ◌≡◌, ◌≢◌, refl, sym, ap, ◌∙◌, Bool, false, Option, some, List, [], ◌∷◌, ◌==◌, arith,
  Bool-cases, Option-cases, inl, inr,
}
use mathlib.Core.Option.{some-injective}
use learnault_api.Base.Table.{find_where, update_where, count_where, All, All-filter_where}
use learnault_api.Base.Rows.{counted, find_where-All, find_where-true}
use learnault_api.Base.Unique.{find_where-append}
use learnault_api.Accounts.{processing, DeletionRequest, Context, is_active_account}
use learnault_api.Accounts.Deletion.{
  deactivate, reactivate, is_active_of, new_request, request_deletion, is_pending_of, as_cancelled,
  cancel_request, restore_user,
}
use learnault_api.Accounts.Sweep.{
  is_unclaimed, as_processing, claim_request, Tombstone, as_completed, finalize_deletion,
  is_worked_on, after_failure, handle_finalization_failure,
}
use learnault_api.Accounts.Steps.{
  Live, Step, asks, cancels, restores, deactivates, reactivates, claims, finalizes, fails,
  claim_step, finalize_step, fail_step, run, run_all, AllFresh,
}
use learnault_api.Accounts.Invariant.{run-Inv}
use learnault_api.Accounts.Diagram.{
  Inv, find_request, KeepsId, found_by_id, found_updated, after_failure-id,
}

-- The request is there as it is, and no sweep works on it.
record IsStuck (id : ℕ) (r : DeletionRequest) (s : Live) : Type 0 where
  row : find_request id s.db.requests ≡ some r
  nobody : All (λ read. read.id ≢ id) s.claimed

passed_by :
    (id : ℕ) (r : DeletionRequest) (p : DeletionRequest → Bool)
    (f : DeletionRequest → DeletionRequest) (rs : List DeletionRequest)
    → KeepsId f
    → p r ≡ false
    → find_request id rs ≡ some r
    → find_request id (update_where p f rs) ≡ some r
passed_by id r p f rs same passes found = rw (found_updated id p f rs r same found, passes)

module _ (s : Live) (h : Inv s) (id : ℕ) (r : DeletionRequest) (k : IsStuck id r s)
    (is : r.status ≡ processing) where
  at_id : r.id ≡ id
  at_id = let e = find_where-true (λ q. q.id == id) s.db.requests r k.row in ground arith

  -- Nobody can claim it: no pending row has its id.
  not_claimable :
      (read : DeletionRequest)
      → (count_where (is_unclaimed read.id) s.db.requests == 0) ≡ false
      → read.id ≢ id
  not_claimable read some_row same =
      let (q, found) = counted (is_unclaimed read.id) s.db.requests some_row in
      let claimable = find_where-true (is_unclaimed read.id) s.db.requests q found in
      let by_id =
        found_by_id id (is_unclaimed read.id) s.db.requests q h.ids found (ground arith) in
      let eq = some-injective r q (sym k.row ∙ by_id) in
      let pending = ap DeletionRequest.status eq in ground arith

  claims-IsStuck : (read : DeletionRequest) (now : ℕ) → IsStuck id r (claim_step read now s)
  unfolding claim_step claim_request
  claims-IsStuck read now =
      let row =
        passed_by id r (is_unclaimed read.id) (as_processing now) s.db.requests (λ q. refl)
          (ground arith) k.row in
      elim (Bool-cases (count_where (is_unclaimed read.id) s.db.requests == 0)) [
        | inl e ↦ rw e (record { row = row; nobody = k.nobody })
        | inr e ↦ rw e (record { row = row; nobody = (not_claimable read e, k.nobody) })
      ]

  other_read :
      (id' : ℕ) (read : DeletionRequest)
      → find_where (λ q. q.id == id') s.claimed ≡ some read
      → (r.id == read.id) ≡ false
  other_read id' read claimed =
      let ne = find_where-All (λ q. q.id ≢ id) (λ q. q.id == id') s.claimed read k.nobody claimed in
      let here = at_id in
      elim (Bool-cases (r.id == read.id)) [ inl e ↦ absurd (ne (ground arith)) | inr e ↦ e ]

  finalizes-IsStuck : (t : Tombstone) (id' now : ℕ) → IsStuck id r (finalize_step t id' now s)
  unfolding finalize_step finalize_deletion
  finalizes-IsStuck t id' now = elim (Option-cases (find_where (λ q. q.id == id') s.claimed)) [
    | inl e ↦ rw (e, finalize_step) k
    | inr (read, e) ↦
        rw (e, finalize_step)
          (record {
            row =
                passed_by id r (λ q. q.id == read.id) (as_completed now) s.db.requests (λ q. refl)
                  (other_read id' read e) k.row;
            nobody = All-filter_where (λ q. q.id ≢ id) _ s.claimed k.nobody;
          })
  ]

  fails-IsStuck : (id' error now : ℕ) → IsStuck id r (fail_step id' error now s)
  unfolding fail_step handle_finalization_failure
  fails-IsStuck id' error now = elim (Option-cases (find_where (λ q. q.id == id') s.claimed)) [
    | inl e ↦ rw (e, fail_step) k
    | inr (read, e) ↦
        let other = other_read id' read e in
        rw (e, fail_step)
          (record {
            row =
                passed_by id r (is_worked_on read.id) (after_failure read error now) s.db.requests
                  (after_failure-id read error now) (ground arith) k.row;
            nobody = All-filter_where (λ q. q.id ≢ id) _ s.claimed k.nobody;
          })
  ]

  asks-IsStuck :
      (new_id user_id : ℕ) (reason : Option ℕ) (days : ℕ) (ctx : Context) (now : ℕ)
      → IsStuck id r
          (record s { db = (request_deletion new_id user_id reason days ctx now s.db).1 })
  unfolding request_deletion
  asks-IsStuck new_id user_id reason days ctx now =
      elim (Option-cases (find_where (is_active_of user_id) s.db.requests)) [
        | inr (q, e) ↦ rw (e, request_deletion) k
        | inl e ↦
            rw (e, request_deletion)
              (record {
                row =
                    find_where-append (λ q. q.id == id) s.db.requests
                      (new_request new_id user_id reason days now ∷ []) r k.row;
                nobody = k.nobody;
              })
      ]

run-IsStuck :
    (step : Step) (s : Live) (id : ℕ) (r : DeletionRequest)
    → Inv s
    → r.status ≡ processing
    → IsStuck id r s
    → IsStuck id r (run step s)
unfolding run cancel_request restore_user reactivate deactivate
run-IsStuck (asks new_id user_id reason days ctx now) s id r h is k =
    asks-IsStuck s h id r k is new_id user_id reason days ctx now
run-IsStuck (cancels user_id now) s id r h is k = record {
  row =
      passed_by id r (is_pending_of user_id) (as_cancelled now) s.db.requests (λ q. refl)
        (ground arith) k.row;
  nobody = k.nobody;
}
run-IsStuck (restores user_id ctx now) s id r h is k = record { row = k.row; nobody = k.nobody }
run-IsStuck (deactivates user_id status ctx now) s id r h is k =
    elim (Bool-cases (is_active_account status)) [
      | inl e ↦ rw e (record { row = k.row; nobody = k.nobody })
      | inr e ↦ rw e (record { row = k.row; nobody = k.nobody })
    ]
run-IsStuck (reactivates user_id ctx now) s id r h is k = record { row = k.row; nobody = k.nobody }
run-IsStuck (claims read now) s id r h is k = claims-IsStuck s h id r k is read now
run-IsStuck (finalizes t id' now) s id r h is k = finalizes-IsStuck s h id r k is t id' now
run-IsStuck (fails id' error now) s id r h is k = fails-IsStuck s h id r k is id' error now

run_all-IsStuck :
    (steps : List Step) (s : Live) (id : ℕ) (r : DeletionRequest)
    → Inv s
    → AllFresh steps s
    → r.status ≡ processing
    → IsStuck id r s
    → IsStuck id r (run_all steps s)
unfolding run_all
run_all-IsStuck [] s id r h f is k = k
run_all-IsStuck (step ∷ steps) s id r h (f, fs) is k =
    run_all-IsStuck steps (run step s) id r (run-Inv step s f h) fs is
      (run-IsStuck step s id r h is k)

-- From a database with unique request ids, in which every claimed request is being processed, and for
-- steps that draw new ids for new requests: a request that is being processed while no sweep works on
-- it, as after a crash behind the claim, stays as it is for ever, whatever is asked for, cancelled,
-- claimed, finalized and failed since.
pub processing_forever :
    (steps : List Step) (s : Live) (id : ℕ) (r : DeletionRequest)
    → Inv s
    → AllFresh steps s
    → find_request id s.db.requests ≡ some r
    → r.status ≡ processing
    → All (λ read. read.id ≢ id) s.claimed
    → find_request id (run_all steps s).db.requests ≡ some r
processing_forever steps s id r h fresh row is nobody =
    (run_all-IsStuck steps s id r h fresh is (record { row = row; nobody = nobody })).row
