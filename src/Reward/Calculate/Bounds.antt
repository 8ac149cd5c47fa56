-- ===== src/Reward/Calculate/Bounds.antt =====
-- reward.service.ts: the parts of a calculated reward.
use Prim.Native.Nat.{min}
use mathlib.Core.Path.{subst}
use learnault_api.Base.{
  leb, ℕ, ◌*◌, ◌/◌, ◌≤◌, ◌≡◌, refl, sym, ap, ◌∙◌, Bool, inl, inr, Bool-cases, arith, if◌then◌else◌,
}
use learnault_api.Base.Int.{ℤ, pos, ◌+ℤ◌, ◌*ℤ◌, ◌/ℤ◌, ◌≤ℤ◌, pos-*ℤ, pos-/ℤ, leb_ℤ}
use learnault_api.Base.Result.{ok, throw}
use learnault_api.Base.Inversion.{>>=-ok, ok-injective}
use learnault_api.Money.{overflow, max_stroops, add_stroops, multiply_stroops, clamp_stroops}
use learnault_api.Money.Range.{InRange, add_stroops_iff, clamp_stroops_bounds}
use learnault_api.Reward.{Module}
use learnault_api.Reward.Calculate.{
  Reward, calculate_base_reward, calculate_streak_bonus, calculate_reward, capped_bonus,
  referral_bonus_stroops,
}

multiply_stroops-InRange : (s n d r : ℤ) → multiply_stroops s n d ≡ ok r → InRange r
unfolding multiply_stroops
multiply_stroops-InRange s n d r h = ground arith

multiply_one : (s r : ℤ) → multiply_stroops s (pos 1) (pos 1) ≡ ok r → r ≡ s
unfolding multiply_stroops ◌*ℤ◌ ◌/ℤ◌
multiply_one s r h = ground arith

capped_bonus_bounds :
    (base days r : ℤ) → InRange base → capped_bonus base days ≡ ok r → (pos 0 ≤ℤ r) × (r ≤ℤ base)
unfolding capped_bonus
capped_bonus_bounds base days r range h =
    let (u, _, rest) = >>=-ok (multiply_stroops base (days *ℤ pos 1) (pos 10)) _ h in
    let (m, capped, last) = >>=-ok (multiply_stroops base (pos 1) (pos 1)) _ rest in
    subst (λ x. (pos 0 ≤ℤ x) × (x ≤ℤ base))
      (ap (clamp_stroops u) (sym (multiply_one base m capped)) ∙ ok-injective last)
      (let bounds = clamp_stroops_bounds u base range.0 in (bounds.0, bounds.1))

-- The streak bonus is never more than the base, and never negative.
calculate_streak_bonus_bounds :
    (base days r : ℤ)
    → InRange base
    → calculate_streak_bonus base days ≡ ok r
    → (pos 0 ≤ℤ r) × (r ≤ℤ base)
unfolding calculate_streak_bonus
calculate_streak_bonus_bounds base days r range h = elim (Bool-cases (leb_ℤ days (pos 0))) [
  | inl none_kept ↦ ground arith
  | inr some_kept ↦ capped_bonus_bounds base days r range (rw some_kept at h)
]

-- What every calculated reward satisfies: no part is negative, the streak bonus is at most the base,
-- and the total is the exact sum of the parts and can be paid.
pub record IsReward (has_referral : Bool) (r : Reward) : Type 0 where
  pub base_nonneg : pos 0 ≤ℤ r.base_amount_stroops
  pub streak_nonneg : pos 0 ≤ℤ r.streak_bonus_stroops
  pub streak_capped : r.streak_bonus_stroops ≤ℤ r.base_amount_stroops
  pub referral_flat :
      r.referral_bonus_stroops ≡ (if has_referral then referral_bonus_stroops else pos 0)
  pub total_exact :
      r.total_amount_stroops
      ≡ r.base_amount_stroops +ℤ r.streak_bonus_stroops +ℤ r.referral_bonus_stroops
  pub total_in_range : InRange r.total_amount_stroops

parts-IsReward :
    (has_referral : Bool) (base streak referral sum total : ℤ)
    → (referral ≡ (if has_referral then referral_bonus_stroops else pos 0))
    → (pos 0 ≤ℤ base) × (pos 0 ≤ℤ streak) × (streak ≤ℤ base)
    → add_stroops base streak ≡ ok sum
    → add_stroops sum referral ≡ ok total
    → IsReward has_referral (record {
      base_amount_stroops = base;
      streak_bonus_stroops = streak;
      referral_bonus_stroops = referral;
      total_amount_stroops = total;
    })
parts-IsReward has_referral base streak referral sum total flat (b, s, c) e f =
    let exact = (add_stroops_iff base streak sum).0 e in
    let whole = (add_stroops_iff sum referral total).0 f in
    record {
      base_nonneg = b;
      streak_nonneg = s;
      streak_capped = c;
      referral_flat = flat;
      total_exact = cc (exact.0, whole.0);
      total_in_range = whole.1;
    }

-- A reward is calculated for any module and streak only if it satisfies all of `IsReward`.
pub calculate_reward-IsReward :
    (m : Module) (days : ℤ) (has_referral : Bool) (r : Reward)
    → calculate_reward m days has_referral ≡ ok r
    → IsReward has_referral r
unfolding calculate_reward calculate_base_reward
calculate_reward-IsReward m days has_referral r h =
    let (base, e0, h1) = >>=-ok _ _ h in
    let (streak, e1, h2) = >>=-ok _ _ h1 in
    let (sum, e2, h3) = >>=-ok _ _ h2 in
    let (total, e3, h4) = >>=-ok _ _ h3 in
    let range : InRange base = multiply_stroops-InRange _ _ _ base e0 in
    let bounds = calculate_streak_bonus_bounds base days streak range e1 in
    subst (IsReward has_referral) (ok-injective h4)
      (parts-IsReward has_referral base streak _ sum total refl (range.0, bounds.0, bounds.1) e2 e3)

-- The streak bonus for amounts and days that are not negative, in one formula: a tenth of the base
-- for each day, at most the base; the call overflows where the uncapped bonus is out of range.
pub calculate_streak_bonus_formula :
    (b d : ℕ)
    → b ≤ max_stroops
    → calculate_streak_bonus (pos b) (pos d)
      ≡ (if leb (b * d / 10) max_stroops then ok (pos (min b (b * d / 10))) else throw overflow)
unfolding calculate_streak_bonus multiply_stroops clamp_stroops
calculate_streak_bonus_formula b d h =
    rw (pos-*ℤ d 1, pos-*ℤ b (d * 1), pos-*ℤ b 1, pos-/ℤ (b * (d * 1)) 10, pos-/ℤ (b * 1) 1)
      (ground arith)
