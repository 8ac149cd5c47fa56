-- ===== src/Reward.antt =====
-- src/services/reward.service.ts: the types, the constants and the in-memory stores. Users, modules,
-- referral codes, transaction ids and hashes are only compared, so they are numbers; times are
-- milliseconds.
pub mod Calculate
pub mod Claims
pub mod Balance
pub mod Withdrawal
pub mod History
pub mod Solvency
mod Tests
use learnault_api.Base.{ℕ, Bool, Option, List, [], ◌∷◌, ◌++◌, ◌==◌, if◌then◌else◌}
use learnault_api.Base.Int.{ℤ, pos}
use learnault_api.Base.Result.{Result, ok, throw}
use learnault_api.Base.Table.{find_where}
use learnault_api.Money.{MoneyError, Money}

-- `ModuleDifficulty`
pub data ModuleDifficulty : Type 0 where
  beginner intermediate advanced expert : ModuleDifficulty

pub record Module : Type 0 where
  pub id : ℕ
  pub difficulty : ModuleDifficulty
  pub base_reward_stroops : ℤ

pub record RewardClaim : Type 0 where
  pub user_id : ℕ
  pub module_id : ℕ
  pub wallet_address : ℕ
  pub streak_days : Option ℤ
  pub referral_code : Option ℕ

pub data TransactionType : Type 0 where
  module_reward streak_bonus referral_reward withdrawal : TransactionType

pub data TransactionStatus : Type 0 where
  pending completed failed : TransactionStatus

pub record Transaction : Type 0 where
  pub id : ℕ
  pub user_id : ℕ
  pub module_id : Option ℕ
  pub amount_stroops : ℤ
  pub type : TransactionType
  pub status : TransactionStatus
  pub stellar_tx_hash : Option ℕ
  pub created_at : ℕ
  pub completed_at : Option ℕ

pub record WithdrawalRequest : Type 0 where
  pub user_id : ℕ
  pub wallet_address : ℕ
  pub amount_stroops : ℤ

-- The four stores of the module.
pub record Store : Type 0 where
  pub claimed_rewards : List (ℕ × List ℕ)
  pub transactions : List Transaction
  pub referral_codes : List (ℕ × ℕ)
  pub pending_withdrawals : List (ℕ × WithdrawalRequest)

abbrev pub empty_store : Store
empty_store = record {
  claimed_rewards = [];
  transactions = [];
  referral_codes = [];
  pending_withdrawals = [];
}

-- What a call can throw.
pub data RewardError : Type 0 where
  already_claimed code_in_use insufficient_balance not_positive payment_failed : RewardError
  money : MoneyError → RewardError

-- How `StellarService.sendPayment` ends.
pub data Payment : Type 0 where
  paid : ℕ → Payment
  rejected : Payment

abbrev pub Outcome : Type 0 → Type 0
Outcome A = Result RewardError A

-- A `MoneyError` passes through.
abbrev pub lift : {A : Type 0} → Money A → Outcome A
lift (ok a) = ok a
lift (throw e) = throw (money e)

-- `Map.get`
abbrev pub get {ℓ} : {V : Type ℓ} → ℕ → List (ℕ × V) → Option V
get k [] = Option.none
get k ((j, v) ∷ m) = if k == j then Option.some v else get k m

-- `Map.set`
abbrev pub put {ℓ} : {V : Type ℓ} → ℕ → V → List (ℕ × V) → List (ℕ × V)
put k v [] = (k, v) ∷ []
put k v ((j, w) ∷ m) = if k == j then (k, v) ∷ m else (j, w) ∷ put k v m

-- `Map.delete`
abbrev pub remove {ℓ} : {V : Type ℓ} → ℕ → List (ℕ × V) → List (ℕ × V)
remove k [] = []
remove k ((j, w) ∷ m) = if k == j then m else (j, w) ∷ remove k m

-- `recordTransaction`, with the id and the time that it makes.
unfoldable pub record_transaction : Transaction → Store → Store
record_transaction t s = record s { transactions = s.transactions ++ t ∷ [] }
