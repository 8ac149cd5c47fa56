-- ===== src/Money/Decimal/Shape.antt =====
-- Text of the shape `digits . digits`: what `trim`, `split` and `padEnd` do to it.
use learnault_api.Base.{ℕ, ◌-◌, ◌≡◌, refl, Bool, true, ◌&&◌, not, [], ◌∷◌, ◌++◌, arith, length}
use learnault_api.Money.Decimal.{Text, is_space, all_digits, trim_start, trim, split, pad_end}
use mathlib.Core.List.{append-nil, reverse, reverse-cons, reverse-reverse}

-- No character is white space.
abbrev pub is_plain : Text → Bool
is_plain [] = true
is_plain (c ∷ cs) = not (is_space c) && is_plain cs

is_plain-append :
    (xs ys : Text) → is_plain xs ≡ true → is_plain ys ≡ true → is_plain (xs ++ ys) ≡ true
is_plain-append [] ys h k = k
is_plain-append (x ∷ xs) ys h k = ground (arith, is_plain-append xs ys)

is_plain-reverse : (xs : Text) → is_plain xs ≡ true → is_plain (reverse xs) ≡ true
is_plain-reverse [] h = refl
is_plain-reverse (x ∷ xs) h =
    rw reverse-cons
      (is_plain-append (reverse xs) (x ∷ []) (is_plain-reverse xs (ground arith)) (ground arith))

trim_start-plain : (xs : Text) → is_plain xs ≡ true → trim_start xs ≡ xs
unfolding trim_start
trim_start-plain [] h = refl
trim_start-plain (x ∷ xs) h = ground arith

pub trim-plain : (xs : Text) → is_plain xs ≡ true → trim xs ≡ xs
unfolding trim
trim-plain xs h =
    rw (trim_start-plain xs h, trim_start-plain (reverse xs) (is_plain-reverse xs h))
      (reverse-reverse xs)

digits-plain : (xs : Text) → all_digits xs ≡ true → is_plain xs ≡ true
digits-plain [] h = refl
digits-plain (x ∷ xs) h = ground (arith, digits-plain xs)

module _ (whole frac : Text) (w : all_digits whole ≡ true) (f : all_digits frac ≡ true) where
  pub is_plain-decimal : is_plain (whole ++ b'.' ∷ frac) ≡ true
  is_plain-decimal =
      is_plain-append whole (b'.' ∷ frac) (digits-plain whole w)
        (ground (arith, digits-plain frac f))

split-digits : (xs : Text) → all_digits xs ≡ true → split b'.' xs ≡ xs ∷ []
unfolding split
split-digits [] h = refl
split-digits (x ∷ xs) h = ground (arith, split-digits xs)

pub split-decimal :
    (whole frac : Text)
    → all_digits whole ≡ true
    → all_digits frac ≡ true
    → split b'.' (whole ++ b'.' ∷ frac) ≡ whole ∷ frac ∷ []
unfolding split
split-decimal [] frac w f = ground (arith, split-digits frac)
split-decimal (x ∷ whole) frac w f = ground (arith, split-decimal whole frac)

pub pad_end-full : (width c : ℕ) (xs : Text) → length xs ≡ width → pad_end width c xs ≡ xs
unfolding pad_end
pad_end-full width c xs h =
    let none_left : width - length xs ≡ 0 = omega arith in rw none_left (append-nil xs)
