-- ===== src/Money.antt =====
-- src/utils/money.ts: stroop amounts as signed integers (`bigint`), and the decimal strings at the
-- boundary as lists of code points. A call that throws a `MoneyError` returns its code.
-- `legacyFloatXlmToStroops` works on floats and is not modelled.
pub mod Decimal
pub mod Range
pub mod RoundTrip
mod Tests
use learnault_api.Base.{
  ℕ, zero, suc, ◌*◌, ◌/◌, ◌%◌, ◌^◌, Bool, true, false, ◌&&◌, not, List, [], ◌∷◌, ◌++◌, ltb, leb,
  ◌==◌, if◌then◌else◌,
}
use learnault_api.Base.Int.{ℤ, pos, negsuc, pos_part, ◌+ℤ◌, ◌-ℤ◌, ◌*ℤ◌, ◌/ℤ◌, ltb_ℤ, leb_ℤ}
use learnault_api.Base.Result.{Result, ok, throw, ◌>>=◌, ◌>>◌, throw_if}
use learnault_api.Money.Decimal.{
  Text, to_string, pad_start, pad_end, trim, split, value, is_digit, all_digits, length_le,
}

pub data MoneyError : Type 0 where
  invalid_xlm_string subtraction_underflow divide_by_zero out_of_range overflow : MoneyError

abbrev pub Money : Type 0 → Type 0
Money A = Result MoneyError A

abbrev pub stroops_per_xlm : ℕ
stroops_per_xlm = 10_000_000

abbrev pub max_stroops : ℕ
max_stroops = 10 ^ 18

-- `assertInRange`
unfoldable pub assert_in_range : ℤ → Money (Unit {0})
assert_in_range stroops = do
  throw_if (ltb_ℤ stroops (pos 0)) out_of_range
  throw_if (ltb_ℤ (pos max_stroops) stroops) overflow

-- `xlmToStroops`
unfoldable pub xlm_to_stroops : ℤ → Money ℤ
unfolding assert_in_range
xlm_to_stroops xlm = let result = xlm *ℤ pos stroops_per_xlm in do assert_in_range result; ok result

-- `stroopsToXlmString`; the minus sign of the source is kept, although the range check has
-- already thrown for a negative amount.
unfoldable pub stroops_to_xlm_string : ℤ → Money Text
unfolding assert_in_range
stroops_to_xlm_string stroops =
    let is_negative = ltb_ℤ stroops (pos 0) in
    let abs = pos_part (if is_negative then pos 0 -ℤ stroops else stroops) in
    let whole = abs / stroops_per_xlm in
    let frac = abs % stroops_per_xlm in
    let frac_str = pad_start 7 b'0' (to_string frac) in
    do
      assert_in_range stroops
      ok ((if is_negative then b'-' ∷ [] else []) ++ (to_string whole ++ b'.' ∷ frac_str))

-- The digits of the pattern's group `(\.\d{0,7})?` and the end of the text.
frac_matches : Text → Bool
frac_matches [] = true
frac_matches (c ∷ cs) = c == b'.' && (all_digits cs && length_le 7 cs)

-- The pattern's `\d+` with the rest behind it.
whole_matches : Text → Bool
unfolding frac_matches
whole_matches [] = false
whole_matches (c ∷ []) = is_digit c
whole_matches (c ∷ d ∷ cs) =
    let later = whole_matches (d ∷ cs) in
    is_digit c && (if is_digit d then later else frac_matches (d ∷ cs))

-- `/^-?\d+(\.\d{0,7})?$/`
unfoldable pub is_xlm_string : Text → Bool
unfolding whole_matches
is_xlm_string [] = false
is_xlm_string (c ∷ cs) = if c == b'-' then whole_matches cs else whole_matches (c ∷ cs)

abbrev starts_with_minus : Text → Bool
starts_with_minus [] = false
starts_with_minus (c ∷ cs) = c == b'-'

-- `text.slice(1)`
abbrev slice_one : Text → Text
slice_one [] = []
slice_one (c ∷ cs) = cs

-- `const [wholePart = '0', fracPart = ''] = parts`
abbrev whole_part : List Text → Text
whole_part [] = b'0' ∷ []
whole_part (whole ∷ _) = whole

abbrev frac_part : List Text → Text
frac_part [] = []
frac_part (_ ∷ []) = []
frac_part (_ ∷ frac ∷ _) = frac

-- `xlmStringToStroops`
unfoldable pub xlm_string_to_stroops : Text → Money ℤ
unfolding is_xlm_string assert_in_range
xlm_string_to_stroops xlm_string =
    let trimmed = trim xlm_string in
    let is_negative = starts_with_minus trimmed in
    let abs = if is_negative then slice_one trimmed else trimmed in
    let parts = split b'.' abs in
    let padded_frac = pad_end 7 b'0' (frac_part parts) in
    let result = pos (value (whole_part parts)) *ℤ pos stroops_per_xlm +ℤ pos (value padded_frac) in
    let signed = if is_negative then pos 0 -ℤ result else result in
    do throw_if (not (is_xlm_string trimmed)) invalid_xlm_string; assert_in_range signed; ok signed

-- `addStroops`
unfoldable pub add_stroops : ℤ → ℤ → Money ℤ
unfolding assert_in_range
add_stroops a b = let result = a +ℤ b in do assert_in_range result; ok result

-- `subtractStroops`
unfoldable pub subtract_stroops : ℤ → ℤ → Money ℤ
subtract_stroops a b =
    let result = a -ℤ b in do throw_if (ltb_ℤ result (pos 0)) subtraction_underflow; ok result

abbrev is_zero : ℤ → Bool
is_zero (pos n) = n == 0
is_zero (negsuc _) = false

-- `multiplyStroops`
unfoldable pub multiply_stroops : ℤ → ℤ → ℤ → Money ℤ
unfolding assert_in_range
multiply_stroops stroops numerator denominator =
    let result = (stroops *ℤ numerator) /ℤ denominator in
    do throw_if (is_zero denominator) divide_by_zero; assert_in_range result; ok result

-- `clampStroops`
unfoldable pub clamp_stroops : ℤ → ℤ → ℤ
clamp_stroops value max =
    if ltb_ℤ value (pos 0) then pos 0 else if ltb_ℤ max value then max else value

-- `formatStroops`
unfoldable pub format_stroops : ℤ → Text → Money Text
unfolding stroops_to_xlm_string
format_stroops stroops asset_code = do
  text ← stroops_to_xlm_string stroops
  ok (text ++ b' ' ∷ asset_code)

-- `isValidStroopAmount` takes any value; only a `bigint` can pass.
pub data Unknown : Type 0 where
  bigint : ℤ → Unknown
  other : Unknown

unfoldable pub is_valid_stroop_amount : Unknown → Bool
is_valid_stroop_amount (bigint n) = leb_ℤ (pos 0) n && leb_ℤ n (pos max_stroops)
is_valid_stroop_amount other = false
