-- ===== src/Accounts/Final.antt =====
-- account-lifecycle.service.ts: what a step makes of a deletion request.
use learnault_api.Base.{
  ℕ, ◌≡◌, refl, sym, ap, ◌∙◌, true, Option, some, List, [], ◌∷◌, ◌==◌, arith, Bool-cases,
  Option-cases, inl, inr,
}
use mathlib.Core.Option.{some-injective}
use learnault_api.Base.Table.{find_where}
use learnault_api.Base.Rows.{find_where-All, find_where-true}
use learnault_api.Base.Unique.{find_where-append}
use learnault_api.Accounts.{
  DeletionStatus, cancelled, processing, DeletionRequest, Context, is_active_account,
}
use learnault_api.Accounts.Deletion.{
  deactivate, reactivate, is_active_of, new_request, request_deletion, is_pending_of, as_cancelled,
  cancel_request, restore_user,
}
use learnault_api.Accounts.Sweep.{
  is_unclaimed, as_processing, claim_request, Tombstone, as_completed, finalize_deletion,
  is_worked_on, after_failure, handle_finalization_failure,
}
use learnault_api.Accounts.Steps.{
  Live, Step, asks, cancels, restores, deactivates, reactivates, claims, finalizes, fails,
  claim_step, finalize_step, fail_step, run, run_all, AllFresh,
}
use learnault_api.Accounts.Invariant.{run-Inv}
use learnault_api.Accounts.Diagram.{
  can_follow, is_terminal, ◌⇒◌, stay, edge, Inv, find_request, Follows, IsProcessed, update-Follows,
  after_failure-id, after_failure-edge, pending_edge, processing_of,
}

module _ (s : Live) (h : Inv s) (id : ℕ) (r : DeletionRequest)
    (found : find_request id s.db.requests ≡ some r) where
  asks-Follows :
      (new_id user_id : ℕ) (reason : Option ℕ) (days : ℕ) (ctx : Context) (now : ℕ)
      → Follows id r (request_deletion new_id user_id reason days ctx now s.db).1.requests
  unfolding request_deletion
  asks-Follows new_id user_id reason days ctx now =
      elim (Option-cases (find_where (is_active_of user_id) s.db.requests)) [
        | inr (q, e) ↦ rw (e, request_deletion) (r, found, stay)
        | inl e ↦
            rw (e, request_deletion)
              (
                r,
                find_where-append (λ q. q.id == id) s.db.requests
                    (new_request new_id user_id reason days now ∷ []) r found,
                stay,
              )
      ]

  -- The row of a claimed request is being processed.
  claimed_status :
      (read : DeletionRequest) (id' : ℕ)
      → find_where (λ q. q.id == id') s.claimed ≡ some read
      → r.id ≡ read.id
      → r.status ≡ processing
  claimed_status read id' claimed same =
      let (q, there, is) =
        find_where-All (IsProcessed s.db.requests) (λ q. q.id == id') s.claimed read h.processed
          claimed in
      let at_id = find_where-true (λ q. q.id == id) s.db.requests r found in
      let ids : id ≡ read.id = ground arith in
      let eq =
        some-injective r q (sym found ∙ ap (λ n. find_request n s.db.requests) ids ∙ there) in
      ap DeletionRequest.status eq ∙ is

  finalizes-Follows :
      (t : Tombstone) (id' now : ℕ) → Follows id r (finalize_step t id' now s).db.requests
  unfolding finalize_step finalize_deletion
  finalizes-Follows t id' now = elim (Option-cases (find_where (λ q. q.id == id') s.claimed)) [
    | inl e ↦ rw (e, finalize_step) (r, found, stay)
    | inr (read, e) ↦
        rw (e, finalize_step)
          (update-Follows id (λ q. q.id == read.id) (as_completed now) s.db.requests r (λ q. refl)
            found (λ same. let is = claimed_status read id' e (ground arith) in rw is))
  ]

  fails-Follows : (id' error now : ℕ) → Follows id r (fail_step id' error now s).db.requests
  unfolding fail_step handle_finalization_failure
  fails-Follows id' error now = elim (Option-cases (find_where (λ q. q.id == id') s.claimed)) [
    | inl e ↦ rw (e, fail_step) (r, found, stay)
    | inr (read, e) ↦
        rw (e, fail_step)
          (update-Follows id (is_worked_on read.id) (after_failure read error now) s.db.requests r
            (after_failure-id read error now) found
            (λ is. after_failure-edge read error now r (processing_of r.status (ground arith))))
  ]

run-Follows :
    (step : Step) (s : Live) (id : ℕ) (r : DeletionRequest)
    → Inv s
    → find_request id s.db.requests ≡ some r
    → Follows id r (run step s).db.requests
unfolding run cancel_request restore_user reactivate deactivate claim_step claim_request
run-Follows (asks new_id user_id reason days ctx now) s id r h found =
    asks-Follows s h id r found new_id user_id reason days ctx now
run-Follows (cancels user_id now) s id r h found =
    update-Follows id (is_pending_of user_id) (as_cancelled now) s.db.requests r (λ q. refl) found
      (λ is. pending_edge r.status cancelled (ground arith) (inr refl))
run-Follows (restores user_id ctx now) s id r h found = (r, found, stay)
run-Follows (deactivates user_id status ctx now) s id r h found =
    elim (Bool-cases (is_active_account status)) [
      | inl e ↦ rw e (r, found, stay)
      | inr e ↦ rw e (r, found, stay)
    ]
run-Follows (reactivates user_id ctx now) s id r h found = (r, found, stay)
run-Follows (claims read now) s id r h found =
    update-Follows id (is_unclaimed read.id) (as_processing now) s.db.requests r (λ q. refl) found
      (λ is. pending_edge r.status processing (ground arith) (inl refl))
run-Follows (finalizes t id' now) s id r h found = finalizes-Follows s h id r found t id' now
run-Follows (fails id' error now) s id r h found = fails-Follows s h id r found id' error now

run_all-Inv : (steps : List Step) (s : Live) → AllFresh steps s → Inv s → Inv (run_all steps s)
unfolding run_all
run_all-Inv [] s f h = h
run_all-Inv (step ∷ steps) s (f, fs) h = run_all-Inv steps (run step s) fs (run-Inv step s f h)

-- From a database with unique request ids, in which every claimed request is being processed, whatever
-- users ask for and cancel and sweeps claim, finalize and fail, in any interleaving and with new ids for
-- new requests: the next step, of any kind, leaves a request's row alone or takes its status along an
-- edge of the diagram.
pub run-can_follow :
    (steps : List Step) (step : Step) (s : Live) (id : ℕ) (r : DeletionRequest)
    → Inv s
    → AllFresh steps s
    → find_request id (run_all steps s).db.requests ≡ some r
    → (r' : DeletionRequest) × (find_request id (run step (run_all steps s)).db.requests ≡ some r')
      × (r ⇒ r')
run-can_follow steps step s id r h fresh found =
    run-Follows step (run_all steps s) id r (run_all-Inv steps s fresh h) found

terminal_edge : (s t : DeletionStatus) → is_terminal s ≡ true → can_follow s t ≡ true → ⊥
terminal_edge s t a b = ground arith

terminal_stays : (r r' : DeletionRequest) → r ⇒ r' → is_terminal r.status ≡ true → r ≡ r'
terminal_stays r _ stay t = refl
terminal_stays r r' (edge e) t = absurd (terminal_edge r.status r'.status t e)

-- From a database with unique request ids, in which every claimed request is being processed, and for
-- steps that draw new ids for new requests, in any interleaving: a request that is completed, cancelled
-- or failed is never changed again.
pub terminal_forever :
    (steps : List Step) (s : Live) (id : ℕ) (r : DeletionRequest)
    → Inv s
    → AllFresh steps s
    → find_request id s.db.requests ≡ some r
    → is_terminal r.status ≡ true
    → find_request id (run_all steps s).db.requests ≡ some r
unfolding run_all
terminal_forever [] s id r h fresh found t = found
terminal_forever (step ∷ steps) s id r h (f, fs) found t =
    let (r', after, follows) = run-Follows step s id r h found in
    terminal_forever steps (run step s) id r (run-Inv step s f h) fs
      (after ∙ ap some (sym (terminal_stays r r' follows t))) t
