-- ===== src/Sessions/Manage.antt =====
-- src/services/session.service.ts. The device, browser and place of a session are only passed on, and
-- are left out of the rows.
use learnault_api.Base.{
  ℕ, ◌-◌, ◌*◌, Bool, false, not, ◌&&◌, ◌||◌, Option, none, some, List, [], ◌∷◌, ◌++◌, ltb, leb,
  ◌==◌, if◌then◌else◌, map, take, drop,
}
use learnault_api.Base.Table.{find_where, update_where, filter_where, count_where, sort_by}
use learnault_api.Redaction.{Text}
use learnault_api.Sessions.{Session, AuditEntry, session_revoked, session_all_revoked, Db}
use learnault_api.Sessions.Revoke.{as_revoked_session}

-- `SessionView`
pub record SessionView : Type 0 where
  pub id : ℕ
  pub last_used_at : Option ℕ
  pub expires_at : ℕ
  pub is_current : Bool

abbrev pub is_same : Option ℕ → ℕ → Bool
is_same none id = false
is_same (some current) id = current == id

-- `toSessionView`
abbrev pub to_session_view : Option ℕ → Session → SessionView
to_session_view current s = record {
  id = s.id;
  last_used_at = s.last_used_at;
  expires_at = s.expires_at;
  is_current = is_same current s.id;
}

-- `where: { userId, isRevoked: false, expiresAt: { gt: now } }`
abbrev pub is_active_of : ℕ → ℕ → Session → Bool
is_active_of user_id now s = s.user_id == user_id && (not s.is_revoked && ltb now s.expires_at)

-- The page of rows with the current session put first.
abbrev pub current_first : Option ℕ → List Session → List Session
current_first none rows = rows
current_first (some current) rows =
    filter_where (λ s. s.id == current) rows ++ filter_where (λ s. not (s.id == current)) rows

-- `list`: the rows in the order of their ids, which are unique, so that the other orders never decide.
unfoldable pub list_sessions : ℕ → Option ℕ → ℕ → ℕ → ℕ → Db → List SessionView × ℕ
list_sessions user_id current page limit now db =
    let active = filter_where (is_active_of user_id now) db.sessions in
    let rows = take limit (drop ((page - 1) * limit) (sort_by (λ s. s.id) active)) in
    (
      map (to_session_view current) (current_first current rows),
      count_where (is_active_of user_id now) db.sessions,
    )

-- `RevokeOneResult`
pub data RevokeOneResult : Type 0 where
  cross_user not_found current_session revoked_ok : RevokeOneResult

abbrev pub set_revoked : ℕ → ℕ → ℕ → Db → Db
set_revoked user_id session_id now db = record db {
  sessions = update_where (λ s. s.id == session_id) (as_revoked_session now) db.sessions;
  audit =
      db.audit
      ++ record { user_id = user_id; action = session_revoked; metadata = session_id ∷ [] } ∷ [];
}

-- The guards of `revokeOne` about the row that was read.
unfoldable pub revoke_found_session : ℕ → ℕ → Option ℕ → ℕ → Session → Db → RevokeOneResult × Db
revoke_found_session user_id session_id current now s db =
    if s.is_revoked || leb s.expires_at now
    then (not_found, db)
    else if not (s.user_id == user_id)
    then (cross_user, db)
    else if is_same current s.id
    then (current_session, db)
    else (revoked_ok, set_revoked user_id session_id now db)

-- `revokeOne`
unfoldable pub revoke_one : ℕ → ℕ → Option ℕ → ℕ → Db → RevokeOneResult × Db
unfolding revoke_found_session
revoke_one user_id session_id current now db =
    elim (find_where (λ s. s.id == session_id) db.sessions) [
      | none ↦ (not_found, db)
      | some s ↦ revoke_found_session user_id session_id current now s db
    ]

-- The sessions that `revokeAll` revokes.
abbrev pub is_other_of : ℕ → Option ℕ → ℕ → Session → Bool
is_other_of user_id current now s = is_active_of user_id now s && not (is_same current s.id)

abbrev is_given : Option ℕ → ℕ
is_given none = 0
is_given (some _) = 1

-- `revokeAll`: `revokedCount` and the database.
unfoldable pub revoke_all : ℕ → Option ℕ → ℕ → Db → ℕ × Db
revoke_all user_id current now db =
    let count = count_where (is_other_of user_id current now) db.sessions in
    let sessions =
      update_where (is_other_of user_id current now) (as_revoked_session now) db.sessions in
    let entry : AuditEntry = record {
      user_id = user_id;
      action = session_all_revoked;
      metadata = count ∷ is_given current ∷ [];
    } in
    (
      count,
      if ltb 0 count
          then record db { sessions = sessions; audit = db.audit ++ entry ∷ [] }
          else record db { sessions = sessions },
    )

-- `redactFingerprint`
abbrev pub redact_fingerprint : Option Text → Option Text
redact_fingerprint none = none
redact_fingerprint (some []) = none
redact_fingerprint (some (c ∷ cs)) = some (take 8 (c ∷ cs))
