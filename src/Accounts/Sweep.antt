-- ===== src/Accounts/Sweep.antt =====
-- account-lifecycle.service.ts: the sweep that finalizes the deletions that are due.
use learnault_api.Base.{
  ℕ, suc, ◌+◌, ◌-◌, ◌*◌, ◌^◌, Bool, true, false, not, ◌&&◌, Option, none, some, List, [], ◌∷◌, ◌++◌,
  ltb, leb, ◌==◌, if◌then◌else◌,
}
use learnault_api.Base.Table.{update_where, filter_where, count_where}
use learnault_api.Accounts.{
  deleted, pending, processing, completed, failed, DeletionRequest, User, deletion_completed,
  redacted, about, AuditLog, Personal, Db, is_pending, is_processing,
}
use learnault_api.Accounts.Deletion.{log_of, no_context}

-- `OR: [{ nextAttemptAt: null }, { nextAttemptAt: { lte: now } }]`
abbrev is_ready : ℕ → Option ℕ → Bool
is_ready now none = true
is_ready now (some at) = leb at now

-- The requests that `processDue` reads.
abbrev pub is_due : ℕ → DeletionRequest → Bool
is_due now r =
    is_pending r.status
    && (leb r.scheduled_for now && (ltb r.attempt_count 5 && is_ready now r.next_attempt_at))

abbrev pub is_unclaimed : ℕ → DeletionRequest → Bool
is_unclaimed id r = r.id == id && is_pending r.status

abbrev pub as_processing : ℕ → DeletionRequest → DeletionRequest
as_processing now r = record r {
  status = processing;
  attempt_count = suc r.attempt_count;
  last_attempt_at = some now;
}

-- The claim of `processDue`: `claimed.count` and the database.
unfoldable pub claim_request : ℕ → ℕ → Db → ℕ × Db
claim_request id now db = (
  count_where (is_unclaimed id) db.requests,
  record db { requests = update_where (is_unclaimed id) (as_processing now) db.requests },
)

-- The texts of a tombstone, and the random password.
pub record Tombstone : Type 0 where
  pub email : ℕ
  pub username : ℕ
  pub password : ℕ

abbrev pub as_tombstone : Tombstone → ℕ → User → User
as_tombstone t now u = record u {
  email = t.email;
  username = t.username;
  password = t.password;
  wallet_address = none;
  is_verified = false;
  last_login_at = none;
  status = deleted;
  status_changed_at = some now;
}

abbrev pub not_owned : ℕ → List ℕ → List ℕ
not_owned user_id owners = filter_where (λ o. not (o == user_id)) owners

abbrev pub without_personal : ℕ → Personal → Personal
without_personal user_id p = record {
  verification_tokens = not_owned user_id p.verification_tokens;
  device_tokens = not_owned user_id p.device_tokens;
  sync_events = not_owned user_id p.sync_events;
  notification_logs = not_owned user_id p.notification_logs;
  notification_preferences = not_owned user_id p.notification_preferences;
  email_deliveries = not_owned user_id p.email_deliveries;
  completions = not_owned user_id p.completions;
  referral_codes = not_owned user_id p.referral_codes;
  data_export_requests = not_owned user_id p.data_export_requests;
}

abbrev pub as_scrubbed : AuditLog → AuditLog
as_scrubbed a = record a { ip_address = none; user_agent = none; metadata = redacted }

abbrev pub as_completed : ℕ → DeletionRequest → DeletionRequest
as_completed now r = record r { status = completed; completed_at = some now; error = none }

-- `finalizeDeletion`; one transaction.
unfoldable pub finalize_deletion : Tombstone → ℕ → ℕ → ℕ → Db → Db
finalize_deletion t id user_id now db = record {
  users = update_where (λ u. u.id == user_id) (as_tombstone t now) db.users;
  sessions = filter_where (λ s. not (s.user_id == user_id)) db.sessions;
  requests = update_where (λ r. r.id == id) (as_completed now) db.requests;
  personal = without_personal user_id db.personal;
  audit =
      update_where (λ a. a.user_id == user_id) as_scrubbed db.audit
      ++ log_of user_id deletion_completed (about id) no_context ∷ [];
}

abbrev pub is_worked_on : ℕ → DeletionRequest → Bool
is_worked_on id r = r.id == id && is_processing r.status

-- What `handleFinalizationFailure` writes, with the attempts that were read before the claim.
abbrev pub as_failed : ℕ → DeletionRequest → DeletionRequest
as_failed error r = record r { status = failed; error = some error }

abbrev pub as_retried : ℕ → ℕ → ℕ → DeletionRequest → DeletionRequest
as_retried attempts error now r = record r {
  status = pending;
  error = some error;
  next_attempt_at = some (now + 5 ^ (attempts - 1) * 60_000);
}

abbrev pub after_failure : DeletionRequest → ℕ → ℕ → DeletionRequest → DeletionRequest
after_failure read error now r =
    let attempts = read.attempt_count + 1 in
    if leb read.max_attempts attempts then as_failed error r else as_retried attempts error now r

-- `handleFinalizationFailure`
unfoldable pub handle_finalization_failure : DeletionRequest → ℕ → ℕ → Db → Db
handle_finalization_failure read error now db = record db {
  requests = update_where (is_worked_on read.id) (after_failure read error now) db.requests;
}

-- One round of the loop of `processDue`: the claim, and the finalization, which may throw an error.
unfoldable pub process_request :
    (DeletionRequest → Option ℕ) → (ℕ → Tombstone) → ℕ → DeletionRequest → Db → Db
unfolding claim_request finalize_deletion handle_finalization_failure
process_request throws tombstone now read db =
    let (count, db') = claim_request read.id now db in
    if count == 0 then db' else elim (throws read) [
      | none ↦ finalize_deletion (tombstone read.user_id) read.id read.user_id now db'
      | some e ↦ handle_finalization_failure read e now db'
    ]

unfoldable pub process_all :
    (DeletionRequest → Option ℕ) → (ℕ → Tombstone) → ℕ → List DeletionRequest → Db → Db
unfolding process_request
process_all throws tombstone now [] db = db
process_all throws tombstone now (r ∷ rs) db =
    process_all throws tombstone now rs (process_request throws tombstone now r db)

-- `processDue`, with no other call in between; one clock for its reads.
unfoldable pub process_due : (DeletionRequest → Option ℕ) → (ℕ → Tombstone) → ℕ → Db → Db
unfolding process_all
process_due throws tombstone now db =
    process_all throws tombstone now (filter_where (is_due now) db.requests) db
