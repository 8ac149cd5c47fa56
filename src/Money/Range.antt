-- ===== src/Money/Range.antt =====
-- money.ts: what each arithmetic helper promises about its result.
use learnault_api.Base.{ℕ, ◌+◌, ◌*◌, ◌/◌, ◌≤◌, ◌<◌, ◌≡◌, ◌↔◌, true, arith, zero, suc}
use learnault_api.Base.Int.{
  ℤ, pos, ◌+ℤ◌, ◌-ℤ◌, ◌≤ℤ◌, +ℤ_parts, -ℤ_parts, eq_of_parts, pos-*ℤ, pos-/ℤ,
}
use learnault_api.Base.Result.{ok}
use learnault_api.Money.{
  max_stroops, assert_in_range, add_stroops, subtract_stroops, multiply_stroops, clamp_stroops,
  is_valid_stroop_amount, bigint,
}

abbrev pub InRange : ℤ → Type 0
InRange n = (pos 0 ≤ℤ n) × (n ≤ℤ pos max_stroops)

pub assert_in_range_iff : (n : ℤ) → (assert_in_range n ≡ ok tt) ↔ InRange n
unfolding assert_in_range
assert_in_range_iff n = (λ h. ground arith, λ h. ground arith)

-- The Boolean test and the throwing test accept the same amounts.
pub is_valid_stroop_amount_iff :
    (n : ℤ) → (is_valid_stroop_amount (bigint n) ≡ true) ↔ (assert_in_range n ≡ ok tt)
unfolding is_valid_stroop_amount assert_in_range
is_valid_stroop_amount_iff n = (λ h. ground arith, λ h. ground arith)

-- A sum is returned exactly when it is the exact sum and lies in range.
pub add_stroops_iff : (a b r : ℤ) → (add_stroops a b ≡ ok r) ↔ ((r ≡ a +ℤ b) × InRange r)
unfolding add_stroops
add_stroops_iff a b r = (λ h. ground arith, λ h. ground arith)

-- A difference is returned exactly when it is the exact difference and not negative.
pub subtract_stroops_iff :
    (a b r : ℤ) → (subtract_stroops a b ≡ ok r) ↔ ((r ≡ a -ℤ b) × (pos 0 ≤ℤ r))
unfolding subtract_stroops
subtract_stroops_iff a b r = (λ h. ground arith, λ h. ground arith)

-- What was subtracted can be added again, and gives the amount back.
pub add_stroops-subtract_stroops :
    (a b r : ℤ) → InRange a → subtract_stroops a b ≡ ok r → add_stroops r b ≡ ok a
add_stroops-subtract_stroops a b r h e =
    let (exact, _) = (subtract_stroops_iff a b r).0 e in
    (add_stroops_iff r b a).1
      (ground (arith, +ℤ_parts r b, -ℤ_parts a b, eq_of_parts a (r +ℤ b)), h)

-- For amounts that are not negative the product is rounded down, and never by a whole stroop.
pub multiply_stroops_floor :
    (s n d : ℕ) (r : ℤ)
    → multiply_stroops (pos s) (pos n) (pos d) ≡ ok r
    → (q : ℕ) × (r ≡ pos q) × (q * d ≤ s * n) × (s * n < q * d + d)
unfolding multiply_stroops
multiply_stroops_floor s n zero r h = cc
multiply_stroops_floor s n (suc d) r h =
    (s * n / suc d, ground (arith, pos-*ℤ s n, pos-/ℤ (s * n) (suc d)), omega arith, omega arith)

-- With a ceiling that is not negative the result lies in `[0, max]`, and an amount that lies there
-- already is kept.
pub clamp_stroops_bounds :
    (v max : ℤ)
    → pos 0 ≤ℤ max
    → let c = clamp_stroops v max in (pos 0 ≤ℤ c) × (c ≤ℤ max) × (pos 0 ≤ℤ v → v ≤ℤ max → c ≡ v)
unfolding clamp_stroops
clamp_stroops_bounds v max h = ground arith
