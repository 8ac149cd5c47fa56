-- ===== src/Reward/Balance/Sums.antt =====
-- reward.service.ts: the sums behind a balance, under the two changes of the transaction list.
use mathlib.Core.Path.{subst}
use mathlib.Core.Option.{some-injective}
use learnault_api.Base.{
  ◌≡◌, sym, ap, ◌∙◌, inl, inr, Bool-cases, Bool, ◌&&◌, some, List, [], ◌∷◌, ◌++◌, if◌then◌else◌,
}
use learnault_api.Base.Int.{ℤ, pos, ◌+ℤ◌, int_laws, +ℤ_assoc}
use learnault_api.Base.Table.{find_where, filter_where, update_first}
use learnault_api.Reward.{Transaction}
use learnault_api.Reward.Balance.{reduce}

-- What one transaction adds to a sum.
abbrev pub part : (Transaction → Bool) → Transaction → ℤ
part p t = if p t then t.amount_stroops else pos 0

abbrev pub sum_where : (Transaction → Bool) → List Transaction → ℤ
sum_where p [] = pos 0
sum_where p (t ∷ ts) = part p t +ℤ sum_where p ts

-- The filters and the loop of `getBalance` give the sum.
pub reduce-filter_where :
    (p q : Transaction → Bool) (acc : ℤ) (ts : List Transaction)
    → reduce acc (filter_where q (filter_where p ts)) ≡ acc +ℤ sum_where (λ t. p t && q t) ts
unfolding reduce
reduce-filter_where p q acc [] = omega int_laws
reduce-filter_where p q acc (t ∷ ts) = elim (Bool-cases (p t)) [
  | inl e ↦ rw e (elim (Bool-cases (q t)) [
    | inl e' ↦ rw (e', reduce-filter_where p q (acc +ℤ t.amount_stroops) ts) (omega int_laws)
    | inr e' ↦ rw (e', reduce-filter_where p q acc ts) (omega int_laws)
  ])
  | inr e ↦ rw (e, reduce-filter_where p q acc ts) (omega int_laws)
]

pub sum_where-append :
    (p : Transaction → Bool) (ts : List Transaction) (t : Transaction)
    → sum_where p (ts ++ t ∷ []) ≡ sum_where p ts +ℤ part p t
sum_where-append p [] t = omega int_laws
sum_where-append p (x ∷ ts) t = rw (sum_where-append p ts t) (omega int_laws)

+ℤ-step : (t a b c d : ℤ) → a +ℤ b ≡ c +ℤ d → t +ℤ a +ℤ b ≡ t +ℤ c +ℤ d
+ℤ-step t a b c d h = +ℤ_assoc t a b ∙ ap (λ s. t +ℤ s) h ∙ sym (+ℤ_assoc t c d)

pub sum_where-update_first :
    (p k : Transaction → Bool) (f : Transaction → Transaction) (x : Transaction)
    (ts : List Transaction)
    → find_where k ts ≡ some x
    → sum_where p (update_first k f ts) +ℤ part p x ≡ sum_where p ts +ℤ part p (f x)
sum_where-update_first p k f x [] h = cc
sum_where-update_first p k f x (t ∷ ts) h = elim (Bool-cases (k t)) [
  | inl e ↦
      subst
        (λ y.
          sum_where p (update_first k f (t ∷ ts)) +ℤ part p y
          ≡ sum_where p (t ∷ ts) +ℤ part p (f y))
        (some-injective t x (rw e at h)) (rw e (omega int_laws))
  | inr e ↦
      let ih = sum_where-update_first p k f x ts (rw e at h) in rw e (+ℤ-step (part p t) _ _ _ _ ih)
]
