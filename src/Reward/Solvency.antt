-- ===== src/Reward/Solvency.antt =====
-- reward.service.ts: what a user has earned, withdrawn and waits for, under claims and withdrawals
-- that interleave. The calls wait only for payments, so a run is a sequence of the pieces between
-- the waits.
pub mod Exact
pub mod Kept
use learnault_api.Base.{
  ℕ, ◌≡◌, refl, Bool, true, false, ◌&&◌, Option, none, some, List, [], ◌∷◌, ◌++◌, ◌==◌, ◌⊎◌, inl,
  inr, Bool-cases, if◌then◌else◌, arith,
}
use learnault_api.Base.Int.{
  ℤ, pos, negsuc, neg_part, pos_part, ◌+ℤ◌, ◌-ℤ◌, ◌≤ℤ◌, leb_ℤ, int_laws, +ℤ_parts, -ℤ_parts,
  eq_of_parts,
}
use learnault_api.Base.Result.{ok}
use learnault_api.Base.Table.{find_where, filter_where, update_first}
use learnault_api.Money.Range.{InRange}
use learnault_api.Reward.{
  Module, RewardClaim, WithdrawalRequest, Transaction, TransactionStatus, pending, completed,
  failed, withdrawal, Store, empty_store, Payment, paid, rejected,
}
use learnault_api.Reward.Calculate.{Reward, calculate_reward}
use learnault_api.Reward.Calculate.Bounds.{IsReward, calculate_reward-IsReward}
use learnault_api.Reward.Claims.{claim_transaction, finish_claim, register_referral_code}
use learnault_api.Reward.Balance.{Balance, get_balance, is_earning, is_withdrawn, is_held}
use learnault_api.Reward.Balance.Sums.{
  part, sum_where, reduce-filter_where, sum_where-append, sum_where-update_first,
}
use learnault_api.Reward.Withdrawal.{
  new_withdrawal, with_status, start_withdrawal, settle_withdrawal,
}

abbrev pub of_user : ℕ → (Transaction → Bool) → Transaction → Bool
of_user u p t = t.user_id == u && p t

-- What a user has earned, has withdrawn and waits for.
abbrev pub earned : ℕ → Store → ℤ
earned u s = sum_where (of_user u is_earning) s.transactions

abbrev pub withdrawn : ℕ → Store → ℤ
withdrawn u s = sum_where (of_user u is_withdrawn) s.transactions

abbrev pub held : ℕ → Store → ℤ
held u s = sum_where (of_user u is_held) s.transactions

-- What was withdrawn or waits for its payment is covered by what was earned.
abbrev pub IsSolvent : Store → Type 0
IsSolvent s = (u : ℕ) → withdrawn u s +ℤ held u s ≤ℤ earned u s

-- A withdrawal that has started and has not ended.
pub record IsOpen (id : ℕ) (t : Transaction) (s : Store) : Type 0 where
  pub found : find_where (λ x. x.id == id) s.transactions ≡ some t
  pub is_withdrawal : t.type ≡ withdrawal
  pub is_pending : t.status ≡ pending
  pub positive : pos 0 ≤ℤ t.amount_stroops

-- The pieces that run between two waits, in any order and of any number of calls. A claim that is
-- finished was calculated at some earlier time, from any module and streak.
pub data Step : Store → Store → Type 0 where
  claim_paid :
      (id now hash : ℕ) (c : RewardClaim) (m : Module) (days : ℤ) (has_referral : Bool) (r : Reward)
      (s : Store)
      → calculate_reward m days has_referral ≡ ok r
      → Step s (finish_claim id now hash c r s)
  code_registered :
      (code user : ℕ) (s s' : Store) → register_referral_code code user s ≡ ok s' → Step s s'
  withdrawal_started :
      (id now : ℕ) (r : WithdrawalRequest) (s s' : Store)
      → start_withdrawal id now r s ≡ ok s'
      → Step s s'
  withdrawal_settled :
      (id now : ℕ) (p : Payment) (t : Transaction) (s : Store)
      → IsOpen id t s
      → Step s (settle_withdrawal id now p s)

pub data Reach (s : Store) : Store → Type 0 where
  here : Reach s s
  next : {t u : Store} → Reach s t → Step t u → Reach s u
