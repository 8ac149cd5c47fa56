-- ===== src/Money/RoundTrip.antt =====
-- money.ts: printing an amount and reading it back.
use learnault_api.Base.{
  ℕ, ◌+◌, ◌*◌, ◌/◌, ◌%◌, ◌≤◌, ◌<◌, ◌≡◌, true, false, [], ◌∷◌, ◌++◌, arith, length,
}
use learnault_api.Money.Range.{InRange}
use learnault_api.Base.Int.{ℤ, pos, negsuc, pos-*ℤ, pos-+ℤ}
use learnault_api.Base.Result.{ok, ◌>>=◌}
use learnault_api.Money.{
  stroops_per_xlm, max_stroops, stroops_to_xlm_string, is_xlm_string, whole_matches,
  xlm_string_to_stroops, starts_with_minus,
}
use learnault_api.Money.Decimal.{Text, all_digits, to_string, pad_start, value, trim}
use learnault_api.Money.Decimal.Digits.{
  value-to_string, to_string-all_digits, to_string-length_pos, to_string-length, value-pad_start,
  all_digits-pad_start, length-pad_start,
}
use learnault_api.Money.Decimal.Shape.{is_plain-decimal, trim-plain, split-decimal, pad_end-full}

-- The digits of a whole and of a fractional part.
abbrev IsDecimal : Text → Text → Type 0
IsDecimal whole frac =
    (0 < length whole) × (all_digits whole ≡ true) × (all_digits frac ≡ true) × (length frac ≡ 7)

whole_matches-decimal :
    (whole frac : Text) → IsDecimal whole frac → whole_matches (whole ++ b'.' ∷ frac) ≡ true
unfolding whole_matches
whole_matches-decimal [] frac h = absurd (omega arith)
whole_matches-decimal (x ∷ []) frac h = ground arith
whole_matches-decimal (x ∷ y ∷ whole) frac h =
    ground (arith, whole_matches-decimal (y ∷ whole) frac)

is_xlm_string-decimal :
    (whole frac : Text) → IsDecimal whole frac → is_xlm_string (whole ++ b'.' ∷ frac) ≡ true
unfolding is_xlm_string
is_xlm_string-decimal [] frac h = absurd (omega arith)
is_xlm_string-decimal (x ∷ whole) frac h = ground (arith, whole_matches-decimal (x ∷ whole) frac h)

no_minus :
    (whole frac : Text) → IsDecimal whole frac → starts_with_minus (whole ++ b'.' ∷ frac) ≡ false
no_minus [] frac h = absurd (omega arith)
no_minus (x ∷ whole) frac h = ground arith

-- Reading `whole.frac` with seven fractional digits.
read_decimal :
    (whole frac : Text)
    → IsDecimal whole frac
    → value whole * stroops_per_xlm + value frac ≤ max_stroops
    → xlm_string_to_stroops (whole ++ b'.' ∷ frac)
      ≡ ok (pos (value whole * stroops_per_xlm + value frac))
unfolding xlm_string_to_stroops
read_decimal whole frac h fits =
    rw
      (
        trim-plain (whole ++ b'.' ∷ frac) (is_plain-decimal whole frac h.1 h.2),
        is_xlm_string-decimal whole frac h,
        no_minus whole frac h,
        split-decimal whole frac h.1 h.2,
        pad_end-full 7 b'0' frac h.3,
        pos-*ℤ (value whole) stroops_per_xlm,
        pos-+ℤ (value whole * stroops_per_xlm) (value frac),
      )
      (ground arith)

print_decimal :
    (n : ℕ)
    → n ≤ max_stroops
    → stroops_to_xlm_string (pos n)
      ≡ ok (
          to_string (n / stroops_per_xlm)
          ++ b'.' ∷ pad_start 7 b'0' (to_string (n % stroops_per_xlm)))
unfolding stroops_to_xlm_string
print_decimal n h = ground arith

printed-IsDecimal :
    (n : ℕ)
    → IsDecimal
        (to_string (n / stroops_per_xlm))
        (pad_start 7 b'0' (to_string (n % stroops_per_xlm)))
printed-IsDecimal n = (
  to_string-length_pos (n / stroops_per_xlm),
  to_string-all_digits (n / stroops_per_xlm),
  all_digits-pad_start 7 (to_string (n % stroops_per_xlm))
      (to_string-all_digits (n % stroops_per_xlm)),
  length-pad_start 7 b'0' (to_string (n % stroops_per_xlm))
      (to_string-length 6 (n % stroops_per_xlm) (omega arith)),
)

printed_value :
    (n : ℕ)
    → value (to_string (n / stroops_per_xlm)) * stroops_per_xlm
        + value (pad_start 7 b'0' (to_string (n % stroops_per_xlm)))
      ≡ n
printed_value n =
    rw
      (
        value-pad_start 7 (to_string (n % stroops_per_xlm)),
        value-to_string (n / stroops_per_xlm),
        value-to_string (n % stroops_per_xlm),
      )
      (omega arith)

-- Every amount in range is printed, and the printed text is read back as the same amount.
pub read_printed : (n : ℤ) → InRange n → (stroops_to_xlm_string n >>= xlm_string_to_stroops) ≡ ok n
read_printed (pos n) (_, h) = rw (
  print_decimal n (omega arith),
  read_decimal (to_string (n / stroops_per_xlm))
      (pad_start 7 b'0' (to_string (n % stroops_per_xlm))) (printed-IsDecimal n)
      (rw (printed_value n) (omega arith)),
  printed_value n,
)
read_printed (negsuc n) (h, _) = absurd (omega arith)

-- Whatever the text, an amount that is read lies in range, and the trimmed text has the form of a
-- decimal with at most seven fractional digits.
pub read-InRange :
    (t : Text) (n : ℤ)
    → xlm_string_to_stroops t ≡ ok n
    → InRange n × (is_xlm_string (trim t) ≡ true)
unfolding xlm_string_to_stroops
read-InRange t n h = ground arith
