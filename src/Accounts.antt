-- ===== src/Accounts.antt =====
-- src/services/account-lifecycle.service.ts and the tables that it changes. Ids, texts and e-mail
-- addresses are numbers; times are milliseconds. The foreign key says that a request's user is there.
pub mod Deletion
pub mod Sweep
pub mod Steps
pub mod Diagram
pub mod Invariant
pub mod Final
pub mod Erased
pub mod Stuck
mod Tests
use learnault_api.Base.{ℕ, Bool, true, false, ◌||◌, Option, none, some, List}

-- `AccountStatus`
pub data AccountStatus : Type 0 where
  active deactivated pending_deletion deleted : AccountStatus

-- `DeletionStatus`
pub data DeletionStatus : Type 0 where
  pending processing completed cancelled failed : DeletionStatus

-- `DeletionRequestRecord`, with the columns of its retries.
pub record DeletionRequest : Type 0 where
  pub id : ℕ
  pub user_id : ℕ
  pub status : DeletionStatus
  pub reason : Option ℕ
  pub scheduled_for : ℕ
  pub cancelled_at : Option ℕ
  pub completed_at : Option ℕ
  pub error : Option ℕ
  pub attempt_count : ℕ
  pub max_attempts : ℕ
  pub next_attempt_at : Option ℕ
  pub last_attempt_at : Option ℕ
  pub created_at : ℕ

pub record User : Type 0 where
  pub id : ℕ
  pub email : ℕ
  pub username : ℕ
  pub password : ℕ
  pub wallet_address : Option ℕ
  pub is_verified : Bool
  pub phone : Option ℕ
  pub phone_verified_at : Option ℕ
  pub last_login_at : Option ℕ
  pub status : AccountStatus
  pub status_changed_at : Option ℕ

pub record Session : Type 0 where
  pub user_id : ℕ
  pub is_revoked : Bool
  pub revoked_at : Option ℕ

pub data AuditAction : Type 0 where
  account_deactivated account_reactivated : AuditAction
  deletion_requested deletion_cancelled deletion_completed : AuditAction

-- `metadata` is none, what the service writes, or the mark of a scrubbed row.
pub data Metadata : Type 0 where
  nothing redacted : Metadata
  about : ℕ → Metadata

pub record AuditLog : Type 0 where
  pub user_id : ℕ
  pub action : AuditAction
  pub ip_address : Option ℕ
  pub user_agent : Option ℕ
  pub metadata : Metadata

-- The other tables of personal data, each as the owners of its rows.
pub record Personal : Type 0 where
  pub verification_tokens : List ℕ
  pub device_tokens : List ℕ
  pub sync_events : List ℕ
  pub notification_logs : List ℕ
  pub notification_preferences : List ℕ
  pub email_deliveries : List ℕ
  pub completions : List ℕ
  pub referral_codes : List ℕ
  pub data_export_requests : List ℕ

pub record Db : Type 0 where
  pub users : List User
  pub sessions : List Session
  pub requests : List DeletionRequest
  pub personal : Personal
  pub audit : List AuditLog

-- `RequestContext`
pub record Context : Type 0 where
  pub ip_address : Option ℕ
  pub user_agent : Option ℕ

abbrev pub is_pending : DeletionStatus → Bool
is_pending pending = true
is_pending _ = false

abbrev pub is_processing : DeletionStatus → Bool
is_processing processing = true
is_processing _ = false

abbrev pub is_completed : DeletionStatus → Bool
is_completed completed = true
is_completed _ = false

-- `ACTIVE_DELETION_STATUSES`
abbrev pub is_active_request : DeletionStatus → Bool
is_active_request s = is_pending s || is_processing s

abbrev pub is_active_account : AccountStatus → Bool
is_active_account active = true
is_active_account _ = false
