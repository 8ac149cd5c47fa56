-- ===== src/Reward/Balance.antt =====
-- reward.service.ts: `getBalance` and `hasSufficientBalance`.
pub mod Sums
use learnault_api.Base.{ℕ, Bool, true, false, ◌&&◌, List, [], ◌∷◌, ◌==◌, if◌then◌else◌}
use learnault_api.Base.Int.{ℤ, pos, ◌+ℤ◌, ◌-ℤ◌, leb_ℤ}
use learnault_api.Base.Table.{filter_where}
use learnault_api.Reward.{
  Transaction, TransactionType, TransactionStatus, pending, completed, withdrawal, Store,
}

-- `['module_reward', 'streak_bonus', 'referral_reward'].includes(type)`
abbrev pub is_reward : TransactionType → Bool
is_reward withdrawal = false
is_reward _ = true

abbrev pub is_withdrawal : TransactionType → Bool
is_withdrawal withdrawal = true
is_withdrawal _ = false

abbrev pub is_completed : TransactionStatus → Bool
is_completed completed = true
is_completed _ = false

abbrev pub is_pending : TransactionStatus → Bool
is_pending pending = true
is_pending _ = false

abbrev pub is_earning : Transaction → Bool
is_earning t = is_completed t.status && is_reward t.type

abbrev pub is_withdrawn : Transaction → Bool
is_withdrawn t = is_completed t.status && is_withdrawal t.type

abbrev pub is_held : Transaction → Bool
is_held t = is_pending t.status && is_withdrawal t.type

-- `reduce((sum, t) => sum + t.amountStroops, acc)`
unfoldable pub reduce : ℤ → List Transaction → ℤ
reduce acc [] = acc
reduce acc (t ∷ ts) = reduce (acc +ℤ t.amount_stroops) ts

-- `getUserTransactions`
unfoldable pub get_user_transactions : ℕ → Store → List Transaction
get_user_transactions user s = filter_where (λ t. t.user_id == user) s.transactions

pub record Balance : Type 0 where
  pub available_stroops : ℤ
  pub pending_stroops : ℤ
  pub lifetime_stroops : ℤ

-- `getBalance`
unfoldable pub get_balance : ℕ → Store → Balance
unfolding get_user_transactions
get_balance user s =
    let mine = get_user_transactions user s in
    let earned = reduce (pos 0) (filter_where is_earning mine) in
    let withdrawn = reduce (pos 0) (filter_where is_withdrawn mine) in
    let held = reduce (pos 0) (filter_where is_held mine) in
    record {
      available_stroops =
          if leb_ℤ (withdrawn +ℤ held) earned then earned -ℤ withdrawn -ℤ held else pos 0;
      pending_stroops = held;
      lifetime_stroops = earned;
    }

-- `hasSufficientBalance`
unfoldable pub has_sufficient_balance : ℕ → ℤ → Store → Bool
has_sufficient_balance user amount s = leb_ℤ amount (get_balance user s).available_stroops
