-- ===== src/Money/Decimal/Digits.antt =====
-- Decimal digits: printing gives digits, and reading them gives the number back.
use learnault_api.Base.{
  ℕ, zero, suc, ◌+◌, ◌-◌, ◌*◌, ◌/◌, ◌%◌, ◌^◌, ◌≤◌, ◌<◌, ◌≡◌, refl, true, [], ◌∷◌, ◌++◌, inl, inr,
  ltb, Bool-cases, arith, length, length-append, length-replicate, replicate,
}
use learnault_api.Money.Decimal.{
  Text, all_digits, digits_from, to_string, pad_start, value_from, value,
}
use native.Mathlib.Nat.{pow-suc}

pub value_from-append :
    (acc : ℕ) (xs ys : Text) → value_from acc (xs ++ ys) ≡ value_from (value_from acc xs) ys
unfolding value_from
value_from-append acc [] ys = refl
value_from-append acc (x ∷ xs) ys = value_from-append (acc * 10 + (x - b'0')) xs ys

pub all_digits-append :
    (xs ys : Text) → all_digits xs ≡ true → all_digits ys ≡ true → all_digits (xs ++ ys) ≡ true
all_digits-append [] ys h k = k
all_digits-append (x ∷ xs) ys h k = ground (arith, all_digits-append xs ys)

-- With more fuel than the number, its digits are read back as the number.
digits_from-value : (fuel n : ℕ) → n < fuel → value_from 0 (digits_from fuel n) ≡ n
unfolding digits_from
digits_from-value zero n h = elim h [ ]
digits_from-value (suc fuel) n h = elim (Bool-cases (ltb n 10)) [
  | inl small ↦ rw small (unfold value_from in omega arith)
  | inr large ↦
      rw (large, value_from-append, digits_from-value fuel (n / 10) (ground arith))
        (unfold value_from in omega arith)
]

pub value-to_string : (n : ℕ) → value (to_string n) ≡ n
unfolding value to_string
value-to_string n = digits_from-value (suc n) n (omega arith)

digits_from-all_digits : (fuel n : ℕ) → all_digits (digits_from fuel n) ≡ true
unfolding digits_from
digits_from-all_digits zero n = refl
digits_from-all_digits (suc fuel) n = elim (Bool-cases (ltb n 10)) [
  | inl small ↦ rw small (ground arith)
  | inr large ↦ rw large (
      all_digits-append (digits_from fuel (n / 10)) ((n % 10 + b'0') ∷ [])
        (digits_from-all_digits fuel (n / 10)) (ground arith))
]

pub to_string-all_digits : (n : ℕ) → all_digits (to_string n) ≡ true
unfolding to_string
to_string-all_digits n = digits_from-all_digits (suc n) n

pub to_string-length_pos : (n : ℕ) → 0 < length (to_string n)
unfolding to_string
to_string-length_pos n = elim (Bool-cases (ltb n 10)) [
  | inl small ↦ rw small (omega arith)
  | inr large ↦ rw (large, length-append) (omega arith)
]

-- A number below `10 ^ (k + 1)` has at most `k + 1` digits.
digits_from-length : (k fuel n : ℕ) → n < 10 ^ suc k → length (digits_from fuel n) ≤ suc k
unfolding digits_from
digits_from-length k zero n h = omega arith
digits_from-length zero (suc fuel) n h = ground arith
digits_from-length (suc k) (suc fuel) n h = elim (Bool-cases (ltb n 10)) [
  | inl small ↦ rw small (omega arith)
  | inr large ↦
      rw (large, length-append)
        (omega (arith, digits_from-length k fuel (n / 10) (omega (arith, pow-suc 10 (suc k)))))
]

pub to_string-length : (k n : ℕ) → n < 10 ^ suc k → length (to_string n) ≤ suc k
unfolding to_string
to_string-length k n h = digits_from-length k (suc n) n h

replicate-value : (k : ℕ) → value_from 0 (replicate k b'0') ≡ 0
unfolding value_from
replicate-value zero = refl
replicate-value (suc k) = replicate-value k

replicate-all_digits : (k : ℕ) → all_digits (replicate k b'0') ≡ true
replicate-all_digits zero = refl
replicate-all_digits (suc k) = replicate-all_digits k

-- Zeros in front change neither the value nor the kind of the characters.
pub value-pad_start : (width : ℕ) (xs : Text) → value (pad_start width b'0' xs) ≡ value xs
unfolding pad_start value
value-pad_start width xs = rw (value_from-append, replicate-value (width - length xs))

pub all_digits-pad_start :
    (width : ℕ) (xs : Text) → all_digits xs ≡ true → all_digits (pad_start width b'0' xs) ≡ true
unfolding pad_start
all_digits-pad_start width xs h =
    all_digits-append (replicate (width - length xs) b'0') xs
      (replicate-all_digits (width - length xs)) h

pub length-pad_start :
    (width c : ℕ) (xs : Text) → length xs ≤ width → length (pad_start width c xs) ≡ width
unfolding pad_start
length-pad_start width c xs h =
    rw (length-append, length-replicate (width - length xs) c) (omega arith)
