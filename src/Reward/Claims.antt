-- ===== src/Reward/Claims.antt =====
-- reward.service.ts: referral codes and claims. `claimReward` waits once, for the payment;
-- `start_claim` is what runs before the wait and `finish_claim` what runs after it.
pub mod Once
use learnault_api.Base.{
  ℕ, Bool, true, false, ◌||◌, Option, none, some, List, [], ◌∷◌, ◌++◌, ◌==◌, if◌then◌else◌,
}
use learnault_api.Base.Int.{ℤ, pos}
use learnault_api.Base.Result.{ok, throw, ◌>>=◌, ◌>>◌, throw_if}
use learnault_api.Money.{stroops_to_xlm_string}
use learnault_api.Reward.{
  Module, RewardClaim, Transaction, module_reward, completed, Store, already_claimed, code_in_use,
  payment_failed, Payment, paid, rejected, Outcome, lift, get, put, record_transaction,
}
use learnault_api.Reward.Calculate.{Reward, calculate_reward}

abbrev pub is_some {ℓ} : {A : Type ℓ} → Option A → Bool
is_some none = false
is_some (some _) = true

-- `registerReferralCode`
unfoldable pub register_referral_code : ℕ → ℕ → Store → Outcome Store
register_referral_code code user s = do
  throw_if (is_some (get code s.referral_codes)) code_in_use
  ok (record s { referral_codes = put code user s.referral_codes })

-- `Set.has`
abbrev pub has : ℕ → List ℕ → Bool
has x [] = false
has x (y ∷ ys) = x == y || has x ys

-- `Set.add`
abbrev pub add : ℕ → List ℕ → List ℕ
add x ys = if has x ys then ys else ys ++ x ∷ []

-- `claimedRewards.get(userId)`, or an empty set.
abbrev pub modules_of : ℕ → List (ℕ × List ℕ) → List ℕ
modules_of user m = elim (get user m) [ none ↦ [] | some modules ↦ modules ]

-- `hasAlreadyClaimed`
unfoldable pub has_already_claimed : ℕ → ℕ → Store → Bool
has_already_claimed user mod_id s = has mod_id (modules_of user s.claimed_rewards)

-- `markAsClaimed`
unfoldable pub mark_as_claimed : ℕ → ℕ → Store → Store
mark_as_claimed user mod_id s = record s {
  claimed_rewards = put user (add mod_id (modules_of user s.claimed_rewards)) s.claimed_rewards;
}

-- `claim.referralCode ? this.resolveReferralCode(…) : undefined`
abbrev pub referrer_of : RewardClaim → Store → Option ℕ
referrer_of c s = elim c.referral_code [ none ↦ none | some code ↦ get code s.referral_codes ]

-- `claim.streakDays ?? 0`
abbrev streak_of : RewardClaim → ℤ
streak_of c = elim c.streak_days [ none ↦ pos 0 | some days ↦ days ]

-- `claimReward` up to the payment: the amounts that will be paid.
unfoldable pub start_claim : RewardClaim → Module → Store → Outcome Reward
unfolding has_already_claimed
start_claim c m s = do
  throw_if (has_already_claimed c.user_id c.module_id s) already_claimed
  reward ← lift (calculate_reward m (streak_of c) (is_some (referrer_of c s)))
  lift (stroops_to_xlm_string reward.total_amount_stroops)
  ok reward

-- What `claimReward` records of a paid claim.
abbrev pub claim_transaction : ℕ → ℕ → ℕ → RewardClaim → Reward → Transaction
claim_transaction id now hash c reward = record {
  id = id;
  user_id = c.user_id;
  module_id = some c.module_id;
  amount_stroops = reward.total_amount_stroops;
  type = module_reward;
  status = completed;
  stellar_tx_hash = some hash;
  created_at = now;
  completed_at = none;
}

-- `claimReward` after the payment. The referral bonus is not paid yet: `payReferralBonus` only logs.
unfoldable pub finish_claim : ℕ → ℕ → ℕ → RewardClaim → Reward → Store → Store
unfolding mark_as_claimed record_transaction
finish_claim id now hash c reward s =
    record_transaction (claim_transaction id now hash c reward)
      (mark_as_claimed c.user_id c.module_id s)

-- `claimReward` where nothing else runs during the payment.
unfoldable pub claim_reward :
    ℕ → ℕ → Payment → RewardClaim → Module → Store → Outcome (Reward × Store)
unfolding start_claim finish_claim
claim_reward id now (paid hash) c m s = do
  reward ← start_claim c m s
  ok (reward, finish_claim id now hash c reward s)
claim_reward id now rejected c m s = do reward ← start_claim c m s; throw payment_failed
