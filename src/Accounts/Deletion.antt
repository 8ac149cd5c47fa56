-- ===== src/Accounts/Deletion.antt =====
-- account-lifecycle.service.ts: its calls, cut at their awaits where a call makes several writes.
use learnault_api.Base.{
  ℕ, ◌+◌, ◌*◌, Bool, true, false, not, ◌&&◌, ◌||◌, Option, none, some, List, [], ◌∷◌, ◌++◌, leb,
  ◌==◌, if◌then◌else◌,
}
use learnault_api.Base.Table.{find_where, update_where, count_where}
use learnault_api.Accounts.{
  AccountStatus, deactivated, pending_deletion, pending, cancelled, DeletionRequest, User, Session,
  AuditAction, account_deactivated, account_reactivated, deletion_requested, deletion_cancelled,
  Metadata, nothing, about, AuditLog, Db, Context, is_pending, is_processing, is_completed,
  is_active_request, is_active_account,
}

abbrev pub log_of : ℕ → AuditAction → Metadata → Context → AuditLog
log_of user_id action metadata ctx = record {
  user_id = user_id;
  action = action;
  ip_address = ctx.ip_address;
  user_agent = ctx.user_agent;
  metadata = metadata;
}

abbrev pub no_context : Context
no_context = record { ip_address = none; user_agent = none }

abbrev with_status : AccountStatus → ℕ → User → User
with_status status now u = record u { status = status; status_changed_at = some now }

abbrev pub set_status : ℕ → AccountStatus → ℕ → List User → List User
set_status user_id status now users =
    update_where (λ u. u.id == user_id) (with_status status now) users

-- `session.updateMany({ where: { userId, isRevoked: false } })`
abbrev pub revoke_sessions : ℕ → ℕ → List Session → List Session
revoke_sessions user_id now sessions =
    update_where (λ s. s.user_id == user_id && not s.is_revoked)
      (λ s. record s { is_revoked = true; revoked_at = some now }) sessions

-- `DeactivateResult`
pub data DeactivateResult : Type 0 where
  deactivated_ok : DeactivateResult
  conflict : AccountStatus → DeactivateResult

-- `deactivate`, with the status that the caller read.
unfoldable pub deactivate : ℕ → AccountStatus → Context → ℕ → Db → DeactivateResult × Db
deactivate user_id current ctx now db =
    if is_active_account current
    then (
      deactivated_ok,
      record db {
        users = set_status user_id deactivated now db.users;
        sessions = revoke_sessions user_id now db.sessions;
        audit = db.audit ++ log_of user_id account_deactivated nothing ctx ∷ [];
      },
    )
    else (conflict current, db)

-- `reactivate`
unfoldable pub reactivate : ℕ → Context → ℕ → Db → Db
reactivate user_id ctx now db = record db {
  users = set_status user_id AccountStatus.active now db.users;
  audit = db.audit ++ log_of user_id account_reactivated nothing ctx ∷ [];
}

abbrev pub is_active_of : ℕ → DeletionRequest → Bool
is_active_of user_id r = r.user_id == user_id && is_active_request r.status

-- `env.DELETION_COOLING_OFF_DAYS` in milliseconds.
abbrev cooling_off_ms : ℕ → ℕ
cooling_off_ms days = days * 24 * 60 * 60_000

abbrev pub new_request : ℕ → ℕ → Option ℕ → ℕ → ℕ → DeletionRequest
new_request id user_id reason days now = record {
  id = id;
  user_id = user_id;
  status = pending;
  reason = reason;
  scheduled_for = now + cooling_off_ms days;
  cancelled_at = none;
  completed_at = none;
  error = none;
  attempt_count = 0;
  max_attempts = 5;
  next_attempt_at = none;
  last_attempt_at = none;
  created_at = now;
}

-- `RequestDeletionResult`
pub data RequestDeletionResult : Type 0 where
  created duplicate : DeletionRequest → RequestDeletionResult

-- The transaction of `requestDeletion`.
abbrev pub create_request : DeletionRequest → Context → ℕ → Db → Db
create_request r ctx now db = record db {
  requests = db.requests ++ r ∷ [];
  users = set_status r.user_id pending_deletion now db.users;
  sessions = revoke_sessions r.user_id now db.sessions;
  audit = db.audit ++ log_of r.user_id deletion_requested (about r.scheduled_for) ctx ∷ [];
}

-- `requestDeletion`: whether the first read or the unique index of active requests finds another
-- request, that one is answered.
unfoldable pub request_deletion :
    ℕ → ℕ → Option ℕ → ℕ → Context → ℕ → Db → RequestDeletionResult × Db
request_deletion id user_id reason days ctx now db =
    elim (find_where (is_active_of user_id) db.requests) [
      | some r ↦ (duplicate r, db)
      | none ↦
          let r = new_request id user_id reason days now in (created r, create_request r ctx now db)
    ]

-- `orderBy: { createdAt: 'desc' }`: the later of a request and the latest of those behind it.
abbrev later : DeletionRequest → Option DeletionRequest → DeletionRequest
later r none = r
later r (some s) = if leb s.created_at r.created_at then r else s

-- `getLatestDeletionRequest`
unfoldable pub latest_request : ℕ → List DeletionRequest → Option DeletionRequest
latest_request user_id [] = none
latest_request user_id (r ∷ rs) =
    if r.user_id == user_id
    then some (later r (latest_request user_id rs))
    else latest_request user_id rs

abbrev pub is_pending_of : ℕ → DeletionRequest → Bool
is_pending_of user_id r = r.user_id == user_id && is_pending r.status

abbrev pub as_cancelled : ℕ → DeletionRequest → DeletionRequest
as_cancelled now r = record r { status = cancelled; cancelled_at = some now }

-- The first write of `cancelDeletion`: `cancelled.count` and the database.
unfoldable pub cancel_request : ℕ → ℕ → Db → ℕ × Db
cancel_request user_id now db = (
  count_where (is_pending_of user_id) db.requests,
  record db { requests = update_where (is_pending_of user_id) (as_cancelled now) db.requests },
)

-- The second write of `cancelDeletion`.
unfoldable pub restore_user : ℕ → Context → ℕ → Db → Db
restore_user user_id ctx now db = record db {
  users = set_status user_id AccountStatus.active now db.users;
  audit = db.audit ++ log_of user_id deletion_cancelled nothing ctx ∷ [];
}

-- `CancelDeletionResult`
pub data CancelDeletionResult : Type 0 where
  cancelled_ok : Option DeletionRequest → CancelDeletionResult
  finalized no_request : CancelDeletionResult

abbrev is_final : Option DeletionRequest → Bool
is_final none = false
is_final (some r) = is_processing r.status || is_completed r.status

-- `cancelDeletion`, with no other call in between.
unfoldable pub cancel_deletion : ℕ → Context → ℕ → Db → CancelDeletionResult × Db
unfolding cancel_request restore_user latest_request
cancel_deletion user_id ctx now db =
    let (count, db') = cancel_request user_id now db in
    if count == 0
    then (if is_final (latest_request user_id db'.requests) then finalized else no_request, db')
    else (cancelled_ok (latest_request user_id db'.requests), restore_user user_id ctx now db')
