-- ===== src/Base/Rows.antt =====
-- What a query says of the rows that it finds.
use learnault_api.Base.Tests.{leb, ◌==◌, if◌then◌else◌, Bool-cases}
use learnault_api.Base.Table.{
  find_where, filter_where, update_first, update_where, count_where, best, first_by, All, All-map,
}
use Prim.Native.Nat.{ℕ}
use mathlib.Core.Path.{◌≡◌, refl, subst}
use mathlib.Core.Logic.{◌≢◌, inl, inr}
use mathlib.Core.Bool.{Bool, true, false, ◌&&◌}
use mathlib.Core.Option.{Option, none, some, some-injective}
use mathlib.Core.List.{List, [], ◌∷◌, ◌++◌}
use native.Mathlib.Omega.{arith}

module _ {ℓ} {A : Type ℓ} where
  pub find_where-true : (p : A → Bool) (xs : List A) (x : A) → find_where p xs ≡ some x → p x ≡ true
  find_where-true p [] x h = cc
  find_where-true p (y ∷ xs) x h = elim (Bool-cases (p y)) [
    | inl e ↦ subst (λ z. p z ≡ true) (some-injective y x (rw e at h)) e
    | inr e ↦ find_where-true p xs x (rw e at h)
  ]

  -- An update that does not change what the search tests keeps the place of the row that is found.
  pub find_where-update_where :
      (k p : A → Bool) (f : A → A) (xs : List A)
      → ((x : A) → k (f x) ≡ k x)
      → find_where k (update_where p f xs)
        ≡ elim (find_where k xs) [ none ↦ none | some x ↦ some (if p x then f x else x) ]
  find_where-update_where k p f [] same = refl
  find_where-update_where k p f (x ∷ xs) same = elim (Bool-cases (p x)) [
    | inl e ↦
        rw (e, same x)
          (elim (Bool-cases (k x)) [
            | inl g ↦ rw (g, e)
            | inr g ↦ rw (g, find_where-update_where k p f xs same)
          ])
    | inr e ↦ rw e (elim (Bool-cases (k x)) [
      | inl g ↦ rw (g, e)
      | inr g ↦ rw (g, find_where-update_where k p f xs same)
    ])
  ]

  -- No row passes a test any more after all that did were changed so that they fail it.
  pub count_where-update_where :
      (p : A → Bool) (f : A → A) (xs : List A)
      → ((x : A) → p (f x) ≡ false)
      → count_where p (update_where p f xs) ≡ 0
  count_where-update_where p f [] fails = refl
  count_where-update_where p f (x ∷ xs) fails = elim (Bool-cases (p x)) [
    | inl e ↦ rw (e, fails x) (count_where-update_where p f xs fails)
    | inr e ↦ rw (e, e) (count_where-update_where p f xs fails)
  ]

module _ {ℓ κ} {A : Type ℓ} (P : A → Type κ) where
  pub find_where-All :
      (p : A → Bool) (xs : List A) (x : A) → All P xs → find_where p xs ≡ some x → P x
  find_where-All p [] x h e = absurd (cc)
  find_where-All p (y ∷ xs) x (h, hs) e = elim (Bool-cases (p y)) [
    | inl g ↦ subst P (some-injective y x (rw g at e)) h
    | inr g ↦ find_where-All p xs x hs (rw g at e)
  ]

  best-P :
      (key : A → ℕ) (x y : A) (o : Option A)
      → P x
      → ((z : A) → o ≡ some z → P z)
      → best key x o ≡ some y
      → P y
  best-P key x y none h k e = subst P (some-injective x y e) h
  best-P key x y (some z) h k e = elim (Bool-cases (leb (key x) (key z))) [
    | inl g ↦ subst P (some-injective x y (rw g at e)) h
    | inr g ↦ subst P (some-injective z y (rw g at e)) (k z refl)
  ]

  -- The row that `findFirst` returns with an order is a row of the table that passes the test.
  pub first_by-All :
      (key : A → ℕ) (p : A → Bool) (xs : List A) (x : A)
      → All (λ y. p y ≡ true → P y) xs
      → first_by key p xs ≡ some x
      → P x
  first_by-All key p [] x h e = absurd (cc)
  first_by-All key p (y ∷ xs) x (h, hs) e = elim (Bool-cases (p y)) [
    | inl g ↦ best-P key y x (first_by key p xs) (h g) (λ z. first_by-All key p xs z hs) (rw g at e)
    | inr g ↦ first_by-All key p xs x hs (rw g at e)
  ]

-- Every row is found under its own key, or another row with that key is.
module _ {ℓ} {A : Type ℓ} (key : A → ℕ) where
  not_none : (a : A) (o : Option A) → o ≡ some a → o ≢ none
  not_none a o e h = cc

  pub rows_found : (xs : List A) → All (λ x. find_where (λ y. key y == key x) xs ≢ none) xs
  rows_found [] = tt
  rows_found (x ∷ xs) = (
    (let here : (key x == key x) ≡ true = ground arith in rw here (not_none x (some x) refl)),
    All-map _ _ xs
        (λ y h. elim (Bool-cases (key x == key y)) [
          | inl e ↦ rw e (not_none x (some x) refl)
          | inr e ↦ rw e h
        ])
        (rows_found xs),
  )

module _ {ℓ} {A : Type ℓ} where
  -- A row that is counted is found.
  pub counted :
      (p : A → Bool) (xs : List A)
      → (count_where p xs == 0) ≡ false
      → (x : A) × (find_where p xs ≡ some x)
  counted p [] h = cc
  counted p (x ∷ xs) h = elim (Bool-cases (p x)) [
    | inl e ↦ (x, rw e)
    | inr e ↦ let (y, found) = counted p xs (rw e at h) in (y, rw e found)
  ]

  -- A row that is found is counted.
  pub found_counts :
      (p : A → Bool) (xs : List A) (x : A)
      → find_where p xs ≡ some x
      → (count_where p xs == 0) ≡ false
  found_counts p [] x h = cc
  found_counts p (y ∷ ys) x h = elim (Bool-cases (p y)) [
    | inl e ↦ rw e (ground arith)
    | inr e ↦ rw e (found_counts p ys x (rw e at h))
  ]

  pub count_where-append :
      (p : A → Bool) (xs ys : List A)
      → (count_where p xs == 0) ≡ false
      → (count_where p (xs ++ ys) == 0) ≡ false
  count_where-append p [] ys h = cc
  count_where-append p (x ∷ xs) ys h = elim (Bool-cases (p x)) [
    | inl e ↦ rw e (ground arith)
    | inr e ↦ rw e (count_where-append p xs ys (rw e at h))
  ]

  -- A row behind all others, where none of them is found.
  pub find_where-last :
      (p : A → Bool) (xs : List A) (x : A)
      → find_where p xs ≡ none
      → p x ≡ true
      → find_where p (xs ++ x ∷ []) ≡ some x
  find_where-last p [] x h is = rw is
  find_where-last p (y ∷ ys) x h is = elim (Bool-cases (p y)) [
    | inl e ↦ let no = rw e at h in cc
    | inr e ↦ rw (e, find_where-last p ys x (rw e at h) is)
  ]

  pub find_where-ext :
      (p q : A → Bool) (xs : List A) → ((x : A) → p x ≡ q x) → find_where p xs ≡ find_where q xs
  find_where-ext p q [] h = refl
  find_where-ext p q (x ∷ xs) h = rw (h x, find_where-ext p q xs h)

  pub find_where-filter_where :
      (u p : A → Bool) (xs : List A)
      → find_where p (filter_where u xs) ≡ find_where (λ x. u x && p x) xs
  find_where-filter_where u p [] = refl
  find_where-filter_where u p (x ∷ xs) = elim (Bool-cases (u x)) [
    | inl e ↦ rw (e, find_where-filter_where u p xs)
    | inr e ↦ rw (e, find_where-filter_where u p xs)
  ]

module _ {ℓ κ} {A : Type ℓ} where
  -- An update of the row that a query finds.
  pub All-update_first :
      (P : A → Type κ) (p : A → Bool) (f : A → A) (xs : List A) (x : A)
      → find_where p xs ≡ some x
      → P (f x)
      → All P xs
      → All P (update_first p f xs)
  All-update_first P p f [] x e k h = tt
  All-update_first P p f (y ∷ ys) x e k (h, hs) = elim (Bool-cases (p y)) [
    | inl i ↦ let same = some-injective y x (rw i at e) in rw i (rw same (k), hs)
    | inr i ↦ rw i (h, All-update_first P p f ys x (rw i at e) k hs)
  ]
