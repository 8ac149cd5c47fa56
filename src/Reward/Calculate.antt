-- ===== src/Reward/Calculate.antt =====
-- reward.service.ts: `calculateReward` and the helpers that it calls.
pub mod Bounds
use learnault_api.Base.{◌*◌, Bool, true, false, if◌then◌else◌}
use learnault_api.Base.Int.{ℤ, pos, leb_ℤ, ◌*ℤ◌}
use learnault_api.Base.Result.{ok, ◌>>=◌}
use learnault_api.Money.{Money, stroops_per_xlm, add_stroops, multiply_stroops, clamp_stroops}
use learnault_api.Reward.{Module, ModuleDifficulty, beginner, intermediate, advanced, expert}

-- `DIFFICULTY_MULTIPLIERS`: the numerator and the denominator of each tier.
abbrev pub difficulty_multipliers : ModuleDifficulty → ℤ × ℤ
difficulty_multipliers beginner = (pos 1, pos 1)
difficulty_multipliers intermediate = (pos 3, pos 2)
difficulty_multipliers advanced = (pos 2, pos 1)
difficulty_multipliers expert = (pos 3, pos 1)

-- `xlmToStroops(5n)`
abbrev pub base_reward_stroops : ℤ
base_reward_stroops = pos (5 * stroops_per_xlm)

-- `xlmToStroops(2n)`
abbrev pub referral_bonus_stroops : ℤ
referral_bonus_stroops = pos (2 * stroops_per_xlm)

abbrev pub streak_bonus_rate_num : ℤ
streak_bonus_rate_num = pos 1

abbrev pub streak_bonus_rate_den : ℤ
streak_bonus_rate_den = pos 10

abbrev pub max_streak_bonus_num : ℤ
max_streak_bonus_num = pos 1

abbrev pub max_streak_bonus_den : ℤ
max_streak_bonus_den = pos 1

-- `calculateBaseReward`
unfoldable pub calculate_base_reward : Module → Money ℤ
calculate_base_reward m =
    let (num, den) = difficulty_multipliers m.difficulty in
    multiply_stroops m.base_reward_stroops num den

-- `calculateStreakBonus` for a positive number of days.
unfoldable pub capped_bonus : ℤ → ℤ → Money ℤ
capped_bonus base days = do
  uncapped ← multiply_stroops base (days *ℤ streak_bonus_rate_num) streak_bonus_rate_den
  max ← multiply_stroops base max_streak_bonus_num max_streak_bonus_den
  ok (clamp_stroops uncapped max)

-- `calculateStreakBonus`
unfoldable pub calculate_streak_bonus : ℤ → ℤ → Money ℤ
unfolding capped_bonus
calculate_streak_bonus base days = if leb_ℤ days (pos 0) then ok (pos 0) else capped_bonus base days

pub record Reward : Type 0 where
  pub base_amount_stroops : ℤ
  pub streak_bonus_stroops : ℤ
  pub referral_bonus_stroops : ℤ
  pub total_amount_stroops : ℤ

-- `calculateReward`
unfoldable pub calculate_reward : Module → ℤ → Bool → Money Reward
unfolding calculate_base_reward calculate_streak_bonus
calculate_reward m streak_days has_referral = do
  base ← calculate_base_reward m
  streak ← calculate_streak_bonus base streak_days
  let referral = if has_referral then referral_bonus_stroops else pos 0
  sum ← add_stroops base streak
  total ← add_stroops sum referral
  ok (record {
    base_amount_stroops = base;
    streak_bonus_stroops = streak;
    referral_bonus_stroops = referral;
    total_amount_stroops = total;
  })
