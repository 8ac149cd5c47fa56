-- ===== src/Base/Unique.antt =====
-- Unique columns of a table.
use learnault_api.Base.Tests.{◌==◌, if◌then◌else◌, Bool-cases}
use learnault_api.Base.Table.{find_where, update_where, All, All-map, All-append}
use Prim.Native.Nat.{ℕ}
use mathlib.Core.Path.{◌≡◌, refl, sym, ap, ◌∙◌}
use mathlib.Core.Logic.{◌≢◌, inl, inr}
use mathlib.Core.Bool.{Bool}
use mathlib.Core.Option.{none, some}
use mathlib.Core.List.{List, [], ◌∷◌, ◌++◌}
use native.Mathlib.Omega.{arith}

module _ {ℓ κ} {A : Type ℓ} where
  pub All-every : {P : A → Type κ} → ((x : A) → P x) → (xs : List A) → All P xs
  All-every k [] = tt
  All-every k (x ∷ xs) = (k x, All-every k xs)

module _ {ℓ κ μ ν} {A : Type ℓ} where
  pub All-with :
      {P : A → Type κ} {Q : A → Type μ} {R : A → Type ν}
      → ((x : A) → P x → Q x → R x)
      → (xs : List A) → All P xs
      → All Q xs
      → All R xs
  All-with k [] h h' = tt
  All-with k (x ∷ xs) (h, hs) (h', hs') = (k x h h', All-with k xs hs hs')

module _ {ℓ} {A : Type ℓ} where
  abbrev pub updated : (A → Bool) → (A → A) → A → A
  updated p f x = if p x then f x else x

  -- No two rows share a key.
  abbrev pub IsUnique : (A → ℕ) → List A → Type ℓ
  IsUnique key xs = All (λ x. All (λ y. key x ≡ key y → x ≡ y) xs) xs

  pub All-updated :
      (P : A → Type ℓ) (p : A → Bool) (f : A → A) (xs : List A)
      → All (λ x. P (updated p f x)) xs
      → All P (update_where p f xs)
  All-updated P p f [] h = tt
  All-updated P p f (x ∷ xs) (h, hs) = (h, All-updated P p f xs hs)

  updated-key :
      (key : A → ℕ) (p : A → Bool) (f : A → A) (x : A)
      → ((x : A) → key (f x) ≡ key x)
      → key (updated p f x) ≡ key x
  updated-key key p f x same = elim (Bool-cases (p x)) [ inl e ↦ rw e (same x) | inr e ↦ rw e ]

  pub update_where-IsUnique :
      (key : A → ℕ) (p : A → Bool) (f : A → A) (xs : List A)
      → ((x : A) → key (f x) ≡ key x)
      → IsUnique key xs
      → IsUnique key (update_where p f xs)
  update_where-IsUnique key p f xs same h = All-updated _ p f xs (
      All-map _ _ xs
        (λ x hx. All-updated _ p f xs (
          All-map _ _ xs
            (λ y hy e.
              ap (updated p f)
                (hy (sym (updated-key key p f x same) ∙ e ∙ updated-key key p f y same)))
            hx))
        h)

  pub append-IsUnique :
      (key : A → ℕ) (x : A) (xs : List A)
      → All (λ y. key y ≢ key x) xs
      → IsUnique key xs
      → IsUnique key (xs ++ x ∷ [])
  append-IsUnique key x xs fresh h =
      All-append _ xs (x ∷ [])
        (All-with (λ y ne hy. All-append _ xs (x ∷ []) hy ((λ e. absurd (ne e)), tt)) xs fresh h)
        (
          All-append _ xs (x ∷ []) (All-with (λ y ne _ e. absurd (ne (sym e))) xs fresh fresh)
              ((λ e. refl), tt),
          tt,
        )

  -- No row has a key that is not found, and a key that no row has is not found.
  pub find_where-none :
      (key : A → ℕ) (n : ℕ) (xs : List A)
      → find_where (λ x. key x == n) xs ≡ none
      → All (λ x. key x ≢ n) xs
  find_where-none key n [] h = tt
  find_where-none key n (x ∷ xs) h = elim (Bool-cases (key x == n)) [
    | inl e ↦ absurd (cc (rw e at h))
    | inr e ↦ ((λ same. absurd (ground arith)), find_where-none key n xs (rw e at h))
  ]

  pub find_where-absent :
      (key : A → ℕ) (n : ℕ) (xs : List A)
      → All (λ x. key x ≢ n) xs
      → find_where (λ x. key x == n) xs ≡ none
  find_where-absent key n [] h = refl
  find_where-absent key n (x ∷ xs) (h, hs) = elim (Bool-cases (key x == n)) [
    | inl e ↦ absurd (h (ground arith))
    | inr e ↦ rw e (find_where-absent key n xs hs)
  ]

  pub find_where-append :
      (p : A → Bool) (xs ys : List A) (x : A)
      → find_where p xs ≡ some x
      → find_where p (xs ++ ys) ≡ some x
  find_where-append p [] ys x h = cc
  find_where-append p (y ∷ xs) ys x h = elim (Bool-cases (p y)) [
    | inl e ↦ rw e (rw e at h)
    | inr e ↦ rw e (find_where-append p xs ys x (rw e at h))
  ]
