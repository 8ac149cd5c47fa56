-- ===== src/Money/Tests.antt =====
-- money.ts on concrete inputs, and the money theorems applied.
use learnault_api.Base.{◌≡◌, refl, [], ◌∷◌, arith}
use learnault_api.Base.Int.{pos, ◌+ℤ◌, ◌-ℤ◌, ◌*ℤ◌, ◌/ℤ◌}
use learnault_api.Base.Result.{ok, throw, ◌>>=◌}
use learnault_api.Money.{
  stroops_to_xlm_string, xlm_string_to_stroops, subtract_stroops, multiply_stroops,
  invalid_xlm_string, out_of_range,
}
use learnault_api.Money.Decimal.{Text, to_string, pad_start, pad_end, trim, split, value}
use learnault_api.Money.Range.{InRange}
use learnault_api.Money.RoundTrip.{read_printed}
use Prim.Native.Char.{code}
use Prim.Native.String.{String}

abbrev codes : String → Text
codes String.[] = []
codes (String.◌∷◌ c s) = code c ∷ codes s

prints : stroops_to_xlm_string (pos 50_000_000) ≡ ok (codes "5.0000000")
unfolding stroops_to_xlm_string to_string pad_start ◌-ℤ◌
prints = refl

reads : xlm_string_to_stroops (codes " 5.5") ≡ ok (pos 55_000_000)
unfolding xlm_string_to_stroops pad_end trim split value ◌-ℤ◌ ◌*ℤ◌ ◌+ℤ◌
reads = refl

reads_not : xlm_string_to_stroops (codes "5.12345678") ≡ throw invalid_xlm_string
unfolding xlm_string_to_stroops pad_end trim split value ◌-ℤ◌ ◌*ℤ◌ ◌+ℤ◌
reads_not = refl

reads_negative : xlm_string_to_stroops (codes "-5.") ≡ throw out_of_range
unfolding xlm_string_to_stroops pad_end trim split value ◌-ℤ◌ ◌*ℤ◌ ◌+ℤ◌
reads_negative = refl

multiplies : multiply_stroops (pos 50_000_000) (pos 3) (pos 2) ≡ ok (pos 75_000_000)
unfolding multiply_stroops ◌*ℤ◌ ◌/ℤ◌
multiplies = refl

in_range : InRange (pos 50_000_000)
in_range = (omega arith, omega arith)

read_printed_example :
    (stroops_to_xlm_string (pos 50_000_000) >>= xlm_string_to_stroops) ≡ ok (pos 50_000_000)
read_printed_example = read_printed (pos 50_000_000) in_range

subtracts : subtract_stroops (pos 50_000_000) (pos 20_000_000) ≡ ok (pos 30_000_000)
unfolding subtract_stroops ◌-ℤ◌
subtracts = refl
