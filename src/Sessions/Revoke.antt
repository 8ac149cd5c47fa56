-- ===== src/Sessions/Revoke.antt =====
-- src/services/refresh-token.service.ts: `issueSession`, `revokeFamily`, `revokeAllForUser` and the two
-- calls by a refresh token.
use learnault_api.Base.{
  ℕ, ◌+◌, Bool, true, false, not, ◌&&◌, ◌||◌, Option, none, some, List, [], ◌∷◌, ◌++◌, ◌==◌, map,
  length,
}
use learnault_api.Base.Table.{find_where, update_where, filter_where}
use learnault_api.Sessions.{
  active, revoked, RefreshToken, Session, AuditAction, session_logged_out, session_all_logged_out,
  Db, Env, Fresh, is_revoked_status,
}

pub record IssueSessionResult : Type 0 where
  pub session_id : ℕ
  pub access_token : ℕ
  pub refresh_token : ℕ
  pub expires_in : ℕ

-- `issueSession`; one transaction.
unfoldable pub issue_session : Env → Fresh → ℕ → ℕ → Db → IssueSessionResult × Db
issue_session env fresh user_id now db =
    let access = env.access_token user_id now in
    let expires_at = now + env.ttl_ms in
    let session : Session = record {
      id = fresh.session_id;
      user_id = user_id;
      token = access;
      is_revoked = false;
      revoked_at = none;
      expires_at = expires_at;
      last_used_at = none;
    } in
    let token : RefreshToken = record {
      id = fresh.token_id;
      session_id = fresh.session_id;
      family_id = fresh.family_id;
      token_hash = env.hash fresh.refresh_token;
      status = active;
      expires_at = expires_at;
    } in
    (
      record {
        session_id = fresh.session_id;
        access_token = access;
        refresh_token = fresh.refresh_token;
        expires_in = env.access_ttl_seconds;
      },
      record db { sessions = db.sessions ++ session ∷ []; tokens = db.tokens ++ token ∷ [] },
    )

abbrev pub as_revoked_token : RefreshToken → RefreshToken
as_revoked_token t = record t { status = revoked }

abbrev pub as_revoked_session : ℕ → Session → Session
as_revoked_session now s = record s { is_revoked = true; revoked_at = some now }

-- `revokeFamily`; one transaction.
unfoldable pub revoke_family : AuditAction → ℕ → ℕ → ℕ → ℕ → Db → Db
revoke_family action family_id session_id user_id now db = record {
  tokens =
      update_where (λ t. t.family_id == family_id && not (is_revoked_status t.status))
        as_revoked_token db.tokens;
  sessions =
      update_where (λ s. s.id == session_id && not s.is_revoked) (as_revoked_session now)
        db.sessions;
  audit =
      db.audit
      ++ record { user_id = user_id; action = action; metadata = family_id ∷ session_id ∷ [] } ∷ [];
}

abbrev pub is_in : ℕ → List ℕ → Bool
is_in n [] = false
is_in n (m ∷ ms) = n == m || is_in n ms

-- The ids that `revokeAllForUser` reads.
abbrev pub live_sessions : ℕ → Db → List ℕ
live_sessions user_id db =
    map (λ s. s.id) (filter_where (λ s. s.user_id == user_id && not s.is_revoked) db.sessions)

-- The transaction of `revokeAllForUser`.
unfoldable pub revoke_sessions : ℕ → List ℕ → ℕ → Db → Db
revoke_sessions user_id ids now db = record {
  sessions =
      update_where (λ s. is_in s.id ids && not s.is_revoked) (as_revoked_session now) db.sessions;
  tokens =
      update_where (λ t. is_in t.session_id ids && not (is_revoked_status t.status))
        as_revoked_token db.tokens;
  audit =
      db.audit
      ++ record { user_id = user_id; action = session_all_logged_out; metadata = length ids ∷ [] }
        ∷ [];
}

-- `revokeAllForUser`: `revokedCount` and the database.
unfoldable pub revoke_all_for_user : ℕ → ℕ → Db → ℕ × Db
unfolding revoke_sessions
revoke_all_for_user user_id now db = elim (live_sessions user_id db) [
  | [] ↦ (0, db)
  | id ∷ ids ↦ (length (id ∷ ids), revoke_sessions user_id (id ∷ ids) now db)
]

-- A refresh token and its session, as one read finds them; the foreign key says that the session is
-- there.
pub record Found : Type 0 where
  pub token : RefreshToken
  pub session : Session

unfoldable pub find_token : Env → ℕ → Db → Option Found
find_token env raw db = elim (find_where (λ t. t.token_hash == env.hash raw) db.tokens) [
  | none ↦ none
  | some t ↦ elim (find_where (λ s. s.id == t.session_id) db.sessions) [
    | none ↦ none
    | some s ↦ some (record { token = t; session = s })
  ]
]

unfoldable pub revoke_found : AuditAction → Found → ℕ → Db → Db
unfolding revoke_family
revoke_found action f now db =
    revoke_family action f.token.family_id f.token.session_id f.session.user_id now db

-- `revokeByRefreshToken`
unfoldable pub revoke_by_refresh_token : Env → ℕ → ℕ → Db → ℕ × Db
unfolding revoke_found
revoke_by_refresh_token env raw now db = elim (find_token env raw db) [
  | none ↦ (0, db)
  | some f ↦ (1, revoke_found session_logged_out f now db)
]

-- `revokeAllByRefreshToken`
unfoldable pub revoke_all_by_refresh_token : Env → ℕ → ℕ → Db → ℕ × Db
unfolding revoke_all_for_user
revoke_all_by_refresh_token env raw now db = elim (find_token env raw db) [
  | none ↦ (0, db)
  | some f ↦ revoke_all_for_user f.session.user_id now db
]
