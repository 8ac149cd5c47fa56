-- ===== src/Accounts/Steps.antt =====
-- account-lifecycle.service.ts: the writes of all calls, each as one step, in any order and interleaving.
use learnault_api.Base.{ℕ, ◌≢◌, not, Option, none, some, List, [], ◌∷◌, ◌==◌, if◌then◌else◌}
use learnault_api.Base.Table.{find_where, filter_where, All}
use learnault_api.Accounts.{AccountStatus, DeletionRequest, Db, Context}
use learnault_api.Accounts.Deletion.{
  deactivate, reactivate, request_deletion, cancel_request, restore_user,
}
use learnault_api.Accounts.Sweep.{
  claim_request, Tombstone, finalize_deletion, handle_finalization_failure,
}

-- The database, and the requests that sweeps have claimed and not finished, as they read them.
pub record Live : Type 0 where
  pub db : Db
  pub claimed : List DeletionRequest

pub data Step : Type 0 where
  asks : (id user_id : ℕ) → Option ℕ → (days : ℕ) → Context → (now : ℕ) → Step
  cancels : (user_id now : ℕ) → Step
  restores : (user_id : ℕ) → Context → (now : ℕ) → Step
  deactivates : (user_id : ℕ) → AccountStatus → Context → (now : ℕ) → Step
  reactivates : (user_id : ℕ) → Context → (now : ℕ) → Step
  claims : DeletionRequest → (now : ℕ) → Step
  finalizes : Tombstone → (id now : ℕ) → Step
  fails : (id error now : ℕ) → Step

abbrev pub without : ℕ → List DeletionRequest → List DeletionRequest
without id rs = filter_where (λ r. not (r.id == id)) rs

-- A sweep claims the request that it read: it goes on with it if the claim wrote a row.
unfoldable pub claim_step : DeletionRequest → ℕ → Live → Live
claim_step read now s =
    let (count, db) = claim_request read.id now s.db in
    record { db = db; claimed = if count == 0 then s.claimed else read ∷ s.claimed }

-- A sweep goes on with a request that it has claimed.
unfoldable pub finalize_step : Tombstone → ℕ → ℕ → Live → Live
finalize_step t id now s = elim (find_where (λ r. r.id == id) s.claimed) [
  | none ↦ s
  | some read ↦ record {
    db = finalize_deletion t read.id read.user_id now s.db;
    claimed = without id s.claimed;
  }
]

unfoldable pub fail_step : ℕ → ℕ → ℕ → Live → Live
fail_step id error now s = elim (find_where (λ r. r.id == id) s.claimed) [
  | none ↦ s
  | some read ↦ record {
    db = handle_finalization_failure read error now s.db;
    claimed = without id s.claimed;
  }
]

abbrev with_db : Db → Live → Live
with_db db s = record s { db = db }

unfoldable pub run : Step → Live → Live
unfolding claim_step finalize_step fail_step
run (asks id user_id reason days ctx now) s =
    with_db (request_deletion id user_id reason days ctx now s.db).1 s
run (cancels user_id now) s = with_db (cancel_request user_id now s.db).1 s
run (restores user_id ctx now) s = with_db (restore_user user_id ctx now s.db) s
run (deactivates user_id status ctx now) s = with_db (deactivate user_id status ctx now s.db).1 s
run (reactivates user_id ctx now) s = with_db (reactivate user_id ctx now s.db) s
run (claims read now) s = claim_step read now s
run (finalizes t id now) s = finalize_step t id now s
run (fails id error now) s = fail_step id error now s

unfoldable pub run_all : List Step → Live → Live
unfolding run
run_all [] s = s
run_all (step ∷ steps) s = run_all steps (run step s)

-- A request that is created has a new id.
abbrev pub DrawsFresh : Step → Live → Type 0
DrawsFresh (asks id user_id reason days ctx now) s = All (λ r. r.id ≢ id) s.db.requests
DrawsFresh _ s = Unit

abbrev pub AllFresh : List Step → Live → Type 0
AllFresh [] s = Unit
AllFresh (step ∷ steps) s = DrawsFresh step s × AllFresh steps (run step s)
