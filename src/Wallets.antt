-- ===== src/Wallets.antt =====
-- src/types/wallet-provisioning.types.ts, src/utils/transitions.ts and the tables behind
-- src/services/wallet-provisioning.repository.ts. Ids, keys, tokens and names are numbers; times are
-- milliseconds. The foreign keys say that a job's wallet and a wallet's user are there.
pub mod Reserve
pub mod Claim
pub mod Finish
pub mod Kms
pub mod Handle
pub mod Linked
pub mod Calls
pub mod Sound
pub mod Cases
pub mod Kept
pub mod Diagram
pub mod Keys
pub mod OneKey
pub mod Outcomes
pub mod Exclusive
mod Tests
use learnault_api.Base.{ℕ, Bool, true, false, ◌||◌, Option, none, some, List, [], ◌∷◌, ◌==◌}
use learnault_api.Base.Result.{Result}

-- `WALLET_STATUSES`
pub data WalletStatus : Type 0 where
  reserved provisioning retryable active exporting migrated failed disabled : WalletStatus

-- `WALLET_JOB_STATUSES`
pub data WalletJobStatus : Type 0 where
  pending processing retry completed dead_letter : WalletJobStatus

-- `WALLET_PROVISIONING_FAILURE_CODES`
pub data FailureCode : Type 0 where
  key_generation_failed kms_unavailable kms_store_uncertain database_finalization_failed :
      FailureCode

-- `WalletRecord`
pub record Wallet : Type 0 where
  pub id : ℕ
  pub user_id : ℕ
  pub network : ℕ
  pub custody : ℕ
  pub public_key : Option ℕ
  pub status : WalletStatus
  pub managed_key_reference_id : Option ℕ
  pub failure_code : Option FailureCode
  pub attempt_count : ℕ
  pub provisioned_at : Option ℕ
  pub status_changed_at : ℕ
  pub created_at : ℕ

-- `WalletProvisioningJobRecord`
pub record WalletJob : Type 0 where
  pub id : ℕ
  pub wallet_id : ℕ
  pub status : WalletJobStatus
  pub available_at : ℕ
  pub lease_token : Option ℕ
  pub leased_until : Option ℕ
  pub attempts : ℕ
  pub max_attempts : ℕ
  pub last_failure_code : Option FailureCode
  pub completed_at : Option ℕ
  pub created_at : ℕ

pub record User : Type 0 where
  pub id : ℕ
  pub is_verified : Bool
  pub wallet_address : Option ℕ

pub record ConsentRecord : Type 0 where
  pub user_id : ℕ
  pub purpose : ℕ
  pub is_granted : Bool
  pub created_at : ℕ

pub record ManagedKeyReference : Type 0 where
  pub id : ℕ
  pub provider : ℕ
  pub opaque_reference : ℕ
  pub key_version : Option ℕ

-- `StoredStellarKey`
pub record StoredStellarKey : Type 0 where
  pub provider : ℕ
  pub opaque_reference : ℕ
  pub key_version : Option ℕ
  pub public_key : ℕ

pub data AuditAction : Type 0 where
  wallet_reserved wallet_requeued wallet_attempted wallet_completed : AuditAction
  wallet_retry_scheduled wallet_failed : AuditAction

-- A row of the audit log: the action, and the wallet that its metadata names.
pub record AuditEntry : Type 0 where
  pub user_id : ℕ
  pub action : AuditAction
  pub wallet_id : ℕ

pub record Db : Type 0 where
  pub users : List User
  pub consents : List ConsentRecord
  pub wallets : List Wallet
  pub jobs : List WalletJob
  pub keys : List ManagedKeyReference
  pub audit : List AuditEntry

-- `WalletEligibilityError` and the other errors of the repository.
pub data WalletError : Type 0 where
  user_not_found user_not_verified custodial_consent_required : WalletError
  lease_lost not_found unique_violation : WalletError

abbrev pub Outcome : Type 0 → Type 0
Outcome A = Result WalletError A

abbrev pub is_failed : WalletStatus → Bool
is_failed failed = true
is_failed _ = false

abbrev pub is_active : WalletStatus → Bool
is_active active = true
is_active _ = false

abbrev pub is_processing : WalletJobStatus → Bool
is_processing processing = true
is_processing _ = false

-- `status: { in: ['PENDING', 'RETRY'] }`
abbrev pub is_waiting : WalletJobStatus → Bool
is_waiting pending = true
is_waiting retry = true
is_waiting _ = false

abbrev pub same_status : WalletStatus → WalletStatus → Bool
same_status reserved reserved = true
same_status provisioning provisioning = true
same_status retryable retryable = true
same_status active active = true
same_status exporting exporting = true
same_status migrated migrated = true
same_status failed failed = true
same_status disabled disabled = true
same_status _ _ = false

-- `WALLET_TRANSITIONS`
abbrev pub wallet_transitions : WalletStatus → List WalletStatus
wallet_transitions reserved = provisioning ∷ failed ∷ []
wallet_transitions provisioning = active ∷ retryable ∷ failed ∷ []
wallet_transitions retryable = provisioning ∷ failed ∷ []
wallet_transitions active = exporting ∷ disabled ∷ []
wallet_transitions exporting = active ∷ migrated ∷ failed ∷ []
wallet_transitions migrated = disabled ∷ []
wallet_transitions failed = reserved ∷ []
wallet_transitions disabled = []

abbrev pub includes : List WalletStatus → WalletStatus → Bool
includes [] s = false
includes (t ∷ ts) s = same_status t s || includes ts s

-- `canTransition` at the map of the wallets.
abbrev pub can_transition_wallet : WalletStatus → WalletStatus → Bool
can_transition_wallet from to = includes (wallet_transitions from) to
