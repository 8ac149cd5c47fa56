-- ===== src/Reward/Tests.antt =====
-- Rewards, claims and withdrawals on concrete inputs, and their theorems applied.
use learnault_api.Base.{◌+◌, ◌≡◌, refl, false, none, some, [], ◌∷◌, ◌==◌}
use learnault_api.Base.Int.{pos, ◌+ℤ◌, ◌-ℤ◌, ◌*ℤ◌, ◌/ℤ◌}
use learnault_api.Base.Result.{ok, throw}
use learnault_api.Base.Table.{find_where}
use learnault_api.Money.{
  stroops_to_xlm_string, add_stroops, multiply_stroops, clamp_stroops, assert_in_range,
}
use learnault_api.Money.Decimal.{to_string, pad_start}
use learnault_api.Reward.{
  Module, RewardClaim, WithdrawalRequest, Store, empty_store, already_claimed, beginner, paid,
  record_transaction,
}
use learnault_api.Reward.Calculate.{
  Reward, calculate_reward, calculate_base_reward, calculate_streak_bonus, capped_bonus,
}
use learnault_api.Reward.Claims.{
  claim_transaction, start_claim, finish_claim, claim_reward, has_already_claimed, mark_as_claimed,
}
use learnault_api.Reward.Claims.Once.{
  claim_reward_once, overlapping_claims, payments_for, overlapping_claims_pay_twice,
}
use learnault_api.Reward.Balance.{get_balance, get_user_transactions, reduce}
use learnault_api.Reward.Withdrawal.{start_withdrawal, new_withdrawal}
use learnault_api.Reward.Solvency.{IsSolvent, Reach, here, next, claim_paid, withdrawal_started}
use learnault_api.Reward.Solvency.Kept.{Reach-IsSolvent}
use learnault_api.Reward.History.{TransactionFilter}

abbrev lesson : Module
lesson = record { id = 4; difficulty = beginner; base_reward_stroops = pos 50_000_000 }

abbrev lesson_claim : RewardClaim
lesson_claim = record {
  user_id = 1;
  module_id = 4;
  wallet_address = 8;
  streak_days = some (pos 3);
  referral_code = none;
}

abbrev lesson_reward : Reward
lesson_reward = record {
  base_amount_stroops = pos 50_000_000;
  streak_bonus_stroops = pos 15_000_000;
  referral_bonus_stroops = pos 0;
  total_amount_stroops = pos 65_000_000;
}

calculates : calculate_reward lesson (pos 3) false ≡ ok lesson_reward
unfolding calculate_reward calculate_base_reward calculate_streak_bonus capped_bonus
    multiply_stroops clamp_stroops add_stroops ◌*ℤ◌ ◌/ℤ◌ ◌+ℤ◌
calculates = refl

starts : start_claim lesson_claim lesson empty_store ≡ ok lesson_reward
unfolding start_claim has_already_claimed calculate_reward calculate_base_reward
    calculate_streak_bonus capped_bonus multiply_stroops clamp_stroops add_stroops
    stroops_to_xlm_string assert_in_range to_string pad_start ◌*ℤ◌ ◌/ℤ◌ ◌+ℤ◌ ◌-ℤ◌
starts = refl

abbrev claimed_store : Store
claimed_store = finish_claim 1 100 9 lesson_claim lesson_reward empty_store

claims :
    claim_reward 1 100 (paid 9) lesson_claim lesson empty_store ≡ ok (lesson_reward, claimed_store)
unfolding claim_reward
claims = rw (starts, claim_reward) refl

-- The user is paid for another module in between.
abbrev other_claim : RewardClaim
other_claim = record lesson_claim { module_id = 5 }

abbrev other_store : Store
other_store = finish_claim 2 150 11 other_claim lesson_reward claimed_store

claim_reward_once_example :
    claim_reward 3 200 (paid 10) (record lesson_claim { streak_days = none }) lesson other_store
    ≡ throw already_claimed
claim_reward_once_example =
    claim_reward_once 1 100 3 200 (paid 9) (paid 10) lesson_claim
      (record lesson_claim { streak_days = none }) lesson lesson empty_store claimed_store
      other_store lesson_reward claims
      (next here (
        claim_paid 2 150 11 other_claim lesson (pos 3) false lesson_reward claimed_store
          calculates))
      refl refl

overlapping_claims_pay_twice_example :
    (s : Store) × (overlapping_claims 1 2 100 9 10 lesson_claim lesson empty_store ≡ ok s)
    × (payments_for lesson_claim s ≡ payments_for lesson_claim empty_store + 2)
overlapping_claims_pay_twice_example =
    overlapping_claims_pay_twice 1 2 100 9 10 lesson_claim lesson empty_store lesson_reward starts

abbrev request : WithdrawalRequest
request = record { user_id = 1; wallet_address = 8; amount_stroops = pos 60_000_000 }

abbrev waiting_store : Store
waiting_store = record {
  claimed_rewards = (1, 4 ∷ []) ∷ [];
  transactions =
      claim_transaction 1 100 9 lesson_claim lesson_reward ∷ new_withdrawal 2 200 request ∷ [];
  referral_codes = [];
  pending_withdrawals = (2, request) ∷ [];
}

withdraws : start_withdrawal 2 200 request claimed_store ≡ ok waiting_store
unfolding start_withdrawal record_transaction finish_claim mark_as_claimed get_balance
    get_user_transactions reduce ◌+ℤ◌ ◌-ℤ◌
withdraws = refl

run : Reach empty_store waiting_store
run =
    next
      (next here
        (claim_paid 1 100 9 lesson_claim lesson (pos 3) false lesson_reward empty_store calculates))
      (withdrawal_started 2 200 request claimed_store waiting_store withdraws)

Reach-IsSolvent_example : IsSolvent waiting_store
Reach-IsSolvent_example = Reach-IsSolvent run

no_such : find_where (λ x. x.id == 2) claimed_store.transactions ≡ none
unfolding finish_claim mark_as_claimed record_transaction
no_such = refl

abbrev newest_one : TransactionFilter
newest_one = record {
  type = none;
  status = none;
  from_date = none;
  to_date = none;
  limit = some 1;
  offset = none;
}
