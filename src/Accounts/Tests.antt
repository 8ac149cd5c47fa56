-- ===== src/Accounts/Tests.antt =====
-- Account deletions on concrete inputs, and their theorems applied.
use learnault_api.Base.{◌≡◌, refl, true, false, none, some, List, [], ◌∷◌}
use learnault_api.Accounts.{
  active, DeletionRequest, User, account_deactivated, nothing, Personal, Db, Context,
}
use learnault_api.Accounts.Deletion.{
  new_request, as_cancelled, finalized, cancel_deletion, request_deletion, duplicate,
  latest_request,
}
use learnault_api.Accounts.Sweep.{
  as_processing, Tombstone, process_due, claim_request, finalize_deletion,
}
use learnault_api.Accounts.Steps.{Live, Step, asks, cancels, claims, finalizes, fails, run, run_all}
use learnault_api.Accounts.Diagram.{find_request, ◌⇒◌, Inv}
use learnault_api.Accounts.Final.{run-can_follow, terminal_forever}
use learnault_api.Accounts.Erased.{IsErased, finalize_deletion-IsErased}
use learnault_api.Accounts.Stuck.{processing_forever}

abbrev ctx : Context
ctx = record { ip_address = some 9; user_agent = some 8 }

abbrev user : User
user = record {
  id = 1;
  email = 50;
  username = 51;
  password = 52;
  wallet_address = some 53;
  is_verified = true;
  phone = some 54;
  phone_verified_at = some 4;
  last_login_at = some 5;
  status = active;
  status_changed_at = none;
}

abbrev personal : Personal
personal = record {
  verification_tokens = 1 ∷ 2 ∷ [];
  device_tokens = 2 ∷ [];
  sync_events = 1 ∷ [];
  notification_logs = [];
  notification_preferences = 1 ∷ [];
  email_deliveries = 2 ∷ 1 ∷ [];
  completions = [];
  referral_codes = 1 ∷ [];
  data_export_requests = [];
}

-- A user whose session is live, without requests.
abbrev db : Db
db = record {
  users = user ∷ [];
  sessions = record { user_id = 1; is_revoked = false; revoked_at = none } ∷ [];
  requests = [];
  personal = personal;
  audit =
      record {
        user_id = 1;
        action = account_deactivated;
        ip_address = some 9;
        user_agent = some 8;
        metadata = nothing;
      }
      ∷ [];
}

-- With a cooling-off time of no days, requested at 100.
abbrev request : DeletionRequest
request = new_request 10 1 none 0 100

abbrev tombstone : Tombstone
tombstone = record { email = 60; username = 61; password = 62 }

abbrev db_requested : Db
db_requested = record db { requests = request ∷ [] }

-- The sweep finalizes a request that is due: nothing is left to cancel.
finalized_test :
    (cancel_deletion 1 ctx 300 (process_due (λ r. none) (λ n. tombstone) 200 db_requested)).0
    ≡ finalized
unfolding cancel_deletion process_due
finalized_test = refl

-- A finalization that throws is tried again a minute later.
retried_test :
    latest_request 1 (process_due (λ r. some 7) (λ n. tombstone) 200 db_requested).requests
    ≡ some (record request {
      attempt_count = 1;
      error = some 7;
      next_attempt_at = some 60_200;
      last_attempt_at = some 200;
    })
unfolding process_due latest_request
retried_test = refl

-- A second request is answered with the first one.
duplicate_test : (request_deletion 11 1 none 30 ctx 150 db_requested).0 ≡ duplicate request
unfolding request_deletion
duplicate_test = refl

-- A claim on an empty database, then a request, its claim and a failure.
abbrev start : Live
start = record { db = db; claimed = [] }

start-Inv : Inv start
start-Inv = record { ids = tt; processed = tt }

abbrev story : List Step
story = asks 10 1 none 0 ctx 100 ∷ claims request 200 ∷ []

run-can_follow_example :
    (r' : DeletionRequest) × (find_request 10
        (run (finalizes tombstone 10 210) (run_all story start)).db.requests
      ≡ some r')
    × (as_processing 200 request ⇒ r')
unfolding run_all claim_request request_deletion
run-can_follow_example =
    run-can_follow story (finalizes tombstone 10 210) start 10 (as_processing 200 request) start-Inv
      (tt, (tt, tt)) refl

-- A request that was cancelled, before a sweep that read it goes on.
abbrev cancelled_live : Live
cancelled_live = record {
  db = record db { requests = as_cancelled 150 request ∷ [] };
  claimed = [];
}

cancelled-Inv : Inv cancelled_live
cancelled-Inv = record { ids = (((λ e. refl), tt), tt); processed = tt }

terminal_forever_example :
    find_request 10
      (run_all (claims request 200 ∷ finalizes tombstone 10 210 ∷ []) cancelled_live).db.requests
    ≡ some (as_cancelled 150 request)
terminal_forever_example =
    terminal_forever (claims request 200 ∷ finalizes tombstone 10 210 ∷ []) cancelled_live 10
      (as_cancelled 150 request) cancelled-Inv (tt, (tt, tt)) refl refl

finalize_deletion-IsErased_example :
    IsErased tombstone 10 1 210 (finalize_deletion tombstone 10 1 210 db_requested)
finalize_deletion-IsErased_example = finalize_deletion-IsErased tombstone 10 1 210 db_requested

-- The process died behind its claim.
abbrev crashed : Live
crashed = record { db = record db { requests = as_processing 200 request ∷ [] }; claimed = [] }

crashed-Inv : Inv crashed
crashed-Inv = record { ids = (((λ e. refl), tt), tt); processed = tt }

processing_forever_example :
    find_request 10
      (run_all (claims request 900 ∷ cancels 1 950 ∷ fails 10 7 990 ∷ []) crashed).db.requests
    ≡ some (as_processing 200 request)
processing_forever_example =
    processing_forever (claims request 900 ∷ cancels 1 950 ∷ fails 10 7 990 ∷ []) crashed 10
      (as_processing 200 request) crashed-Inv (tt, (tt, (tt, tt))) refl refl tt
