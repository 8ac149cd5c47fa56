-- ===== src/Base/Table.antt =====
-- A database table as the list of its rows, with the queries that the services use: `findFirst`
-- with an order, `findMany` with a filter, `updateMany`, `count`.
use learnault_api.Base.Tests.{leb, if◌then◌else◌, Bool-cases}
use learnault_api.Base.Lists.{length, take, drop}
use Prim.Native.Nat.{ℕ, zero, suc}
use mathlib.Core.Path.{◌≡◌, refl, ap}
use mathlib.Core.Logic.{inl, inr}
use mathlib.Core.Bool.{Bool, true, ◌&&◌}
use mathlib.Core.Option.{Option, none, some}
use mathlib.Core.List.{List, [], ◌∷◌, ◌++◌}

module _ {ℓ} {A : Type ℓ} where
  -- `findFirst` or `findUnique` by a test, in the order of the table.
  abbrev pub find_where : (A → Bool) → List A → Option A
  find_where p [] = none
  find_where p (x ∷ xs) = if p x then some x else find_where p xs

  -- `updateMany`.
  abbrev pub update_where : (A → Bool) → (A → A) → List A → List A
  update_where p f [] = []
  update_where p f (x ∷ xs) = (if p x then f x else x) ∷ update_where p f xs

  -- A mutation of the row that `find` returns.
  abbrev pub update_first : (A → Bool) → (A → A) → List A → List A
  update_first p f [] = []
  update_first p f (x ∷ xs) = if p x then f x ∷ xs else x ∷ update_first p f xs

  -- `findMany`.
  abbrev pub filter_where : (A → Bool) → List A → List A
  filter_where p [] = []
  filter_where p (x ∷ xs) = if p x then x ∷ filter_where p xs else filter_where p xs

  abbrev pub count_where : (A → Bool) → List A → ℕ
  count_where p [] = 0
  count_where p (x ∷ xs) = if p x then suc (count_where p xs) else count_where p xs

  -- The better of a row and the best of the rows behind it; the earlier row wins a tie.
  abbrev pub best : (A → ℕ) → A → Option A → Option A
  best key x none = some x
  best key x (some y) = if leb (key x) (key y) then some x else some y

  -- `findFirst` with `orderBy: { key: 'asc' }`.
  abbrev pub first_by : (A → ℕ) → (A → Bool) → List A → Option A
  first_by key p [] = none
  first_by key p (x ∷ xs) = if p x then best key x (first_by key p xs) else first_by key p xs

-- Every row of the table has the property.
module _ {ℓ κ} {A : Type ℓ} where
  abbrev pub All : (A → Type κ) → List A → Type κ
  All P [] = Unit
  All P (x ∷ xs) = P x × All P xs

  pub All-map : (P Q : A → Type κ) (xs : List A) → ((x : A) → P x → Q x) → All P xs → All Q xs
  All-map P Q [] f h = tt
  All-map P Q (x ∷ xs) f (h, hs) = (f x h, All-map P Q xs f hs)

  pub All-append : (P : A → Type κ) (xs ys : List A) → All P xs → All P ys → All P (xs ++ ys)
  All-append P [] ys h k = k
  All-append P (x ∷ xs) ys (p, h) k = (p, All-append P xs ys h k)

  All-update_head :
      (P : A → Type κ) (p : A → Bool) (f : A → A) (x : A)
      → ((x : A) → P x → p x ≡ true → P (f x))
      → P x
      → P (if p x then f x else x)
  All-update_head P p f x k h = elim (Bool-cases (p x)) [ inl e ↦ rw e (k x h e) | inr e ↦ rw e h ]

  pub All-update :
      (P : A → Type κ) (p : A → Bool) (f : A → A) (xs : List A)
      → ((x : A) → P x → p x ≡ true → P (f x))
      → All P xs
      → All P (update_where p f xs)
  All-update P p f [] k h = tt
  All-update P p f (x ∷ xs) k (h, hs) = (All-update_head P p f x k h, All-update P p f xs k hs)

  pub All-filter :
      (P : A → Type κ) (p : A → Bool) (xs : List A)
      → ((x : A) → p x ≡ true → P x)
      → All P (filter_where p xs)
  All-filter P p [] k = tt
  All-filter P p (x ∷ xs) k = elim (Bool-cases (p x)) [
    | inl e ↦ rw e (k x e, All-filter P p xs k)
    | inr e ↦ rw e (All-filter P p xs k)
  ]

  pub All-take : (P : A → Type κ) (n : ℕ) (xs : List A) → All P xs → All P (take n xs)
  All-take P zero xs h = tt
  All-take P (suc n) [] h = tt
  All-take P (suc n) (x ∷ xs) (h, hs) = (h, All-take P n xs hs)

  pub All-drop : (P : A → Type κ) (n : ℕ) (xs : List A) → All P xs → All P (drop n xs)
  All-drop P zero xs h = h
  All-drop P (suc n) [] h = tt
  All-drop P (suc n) (x ∷ xs) (h, hs) = All-drop P n xs hs

module _ {ℓ} {A : Type ℓ} where
  pub filter_where-filter_where :
      (p q : A → Bool) (xs : List A)
      → filter_where q (filter_where p xs) ≡ filter_where (λ x. p x && q x) xs
  filter_where-filter_where p q [] = refl
  filter_where-filter_where p q (x ∷ xs) = elim (Bool-cases (p x)) [
    | inl e ↦ rw e (elim (Bool-cases (q x)) [
      | inl e' ↦ rw e' (ap (λ ys. x ∷ ys) (filter_where-filter_where p q xs))
      | inr e' ↦ rw e' (filter_where-filter_where p q xs)
    ])
    | inr e ↦ rw e (filter_where-filter_where p q xs)
  ]

  pub length-filter_where :
      (p : A → Bool) (xs : List A) → length (filter_where p xs) ≡ count_where p xs
  length-filter_where p [] = refl
  length-filter_where p (x ∷ xs) = elim (Bool-cases (p x)) [
    | inl e ↦ rw e (ap suc (length-filter_where p xs))
    | inr e ↦ rw e (length-filter_where p xs)
  ]

-- `orderBy: { key: 'asc' }`; rows with one key keep their order.
module _ {ℓ} {A : Type ℓ} (key : A → ℕ) where
  abbrev pub insert_by : A → List A → List A
  insert_by x [] = x ∷ []
  insert_by x (y ∷ ys) = if leb (key x) (key y) then x ∷ y ∷ ys else y ∷ insert_by x ys

  abbrev pub sort_by : List A → List A
  sort_by [] = []
  sort_by (x ∷ xs) = insert_by x (sort_by xs)

-- An update whose effect on a row needs another fact about the row.
module _ {ℓ κ μ} {A : Type ℓ} where
  pub All-update_with :
      (P : A → Type κ) (Q : A → Type μ) (p : A → Bool) (f : A → A) (xs : List A)
      → ((x : A) → Q x → p x ≡ true → P x → P (f x))
      → All Q xs
      → All P xs
      → All P (update_where p f xs)
  All-update_with P Q p f [] k q h = tt
  All-update_with P Q p f (x ∷ xs) k (q, qs) (h, hs) = elim (Bool-cases (p x)) [
    | inl e ↦ rw e (k x q e h, All-update_with P Q p f xs k qs hs)
    | inr e ↦ rw e (h, All-update_with P Q p f xs k qs hs)
  ]

-- What holds of every row holds of those that a query keeps or sorts.
module _ {ℓ κ} {A : Type ℓ} (P : A → Type κ) where
  pub All-filter_where : (p : A → Bool) (xs : List A) → All P xs → All P (filter_where p xs)
  All-filter_where p [] h = tt
  All-filter_where p (x ∷ xs) (h, hs) = elim (Bool-cases (p x)) [
    | inl e ↦ rw e (h, All-filter_where p xs hs)
    | inr e ↦ rw e (All-filter_where p xs hs)
  ]

  All-insert_by : (key : A → ℕ) (x : A) (xs : List A) → P x → All P xs → All P (insert_by key x xs)
  All-insert_by key x [] p h = (p, tt)
  All-insert_by key x (y ∷ ys) p (h, hs) = elim (Bool-cases (leb (key x) (key y))) [
    | inl e ↦ rw e (p, (h, hs))
    | inr e ↦ rw e (h, All-insert_by key x ys p hs)
  ]

  pub All-sort_by : (key : A → ℕ) (xs : List A) → All P xs → All P (sort_by key xs)
  All-sort_by key [] h = tt
  All-sort_by key (x ∷ xs) (h, hs) = All-insert_by key x (sort_by key xs) h (All-sort_by key xs hs)
