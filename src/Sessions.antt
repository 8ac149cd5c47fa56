-- ===== src/Sessions.antt =====
-- src/services/refresh-token.service.ts and src/services/session.service.ts: sessions and their families
-- of refresh tokens. `rotate` is cut at its awaits, so that calls can interleave between a read, a claim
-- and a write. Ids, tokens and hashes are numbers; times are milliseconds.
pub mod Revoke
pub mod Rotate
pub mod Steps
pub mod Once
pub mod Replay
pub mod LoggedOut
pub mod Manage
pub mod Managed
mod Tests
use learnault_api.Base.{ℕ, Bool, true, false, Option, none, some, List}

-- `ACTIVE`, `ROTATED`, `REVOKED`
pub data TokenStatus : Type 0 where
  active rotated revoked : TokenStatus

pub record RefreshToken : Type 0 where
  pub id : ℕ
  pub session_id : ℕ
  pub family_id : ℕ
  pub token_hash : ℕ
  pub status : TokenStatus
  pub expires_at : ℕ

pub record Session : Type 0 where
  pub id : ℕ
  pub user_id : ℕ
  pub token : ℕ
  pub is_revoked : Bool
  pub revoked_at : Option ℕ
  pub expires_at : ℕ
  pub last_used_at : Option ℕ

-- `SessionAuditAction`
pub data AuditAction : Type 0 where
  reuse_detected session_logged_out session_all_logged_out : AuditAction
  session_revoked session_all_revoked : AuditAction

-- What `auditService.op` writes.
pub record AuditEntry : Type 0 where
  pub user_id : ℕ
  pub action : AuditAction
  pub metadata : List ℕ

pub record Db : Type 0 where
  pub sessions : List Session
  pub tokens : List RefreshToken
  pub audit : List AuditEntry

-- The configuration and the calls of other modules: SHA-256, the time to live, and the signed access
-- token of a user at a time.
pub record Env : Type 0 where
  pub hash : ℕ → ℕ
  pub ttl_ms : ℕ
  pub access_token : ℕ → ℕ → ℕ
  pub access_ttl_seconds : ℕ

-- The random values of a call.
pub record Fresh : Type 0 where
  pub refresh_token : ℕ
  pub session_id : ℕ
  pub token_id : ℕ
  pub family_id : ℕ

abbrev pub is_active : TokenStatus → Bool
is_active active = true
is_active _ = false

abbrev pub is_rotated : TokenStatus → Bool
is_rotated rotated = true
is_rotated _ = false

abbrev pub is_revoked_status : TokenStatus → Bool
is_revoked_status revoked = true
is_revoked_status _ = false
