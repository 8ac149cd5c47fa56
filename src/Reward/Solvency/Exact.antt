-- ===== src/Reward/Solvency/Exact.antt =====
-- reward.service.ts: the balance of a user in a solvent store.
use learnault_api.Base.{ℕ, ◌≡◌, ◌∙◌, Bool, true, ◌==◌, if◌then◌else◌, arith}
use learnault_api.Base.Int.{ℤ, pos, ◌+ℤ◌, ◌-ℤ◌, ◌≤ℤ◌, leb_ℤ, int_laws}
use learnault_api.Base.Table.{filter_where}
use learnault_api.Reward.{Transaction, Store}
use learnault_api.Reward.Balance.{
  get_balance, get_user_transactions, reduce, is_earning, is_withdrawn, is_held,
}
use learnault_api.Reward.Balance.Sums.{sum_where, reduce-filter_where}
use learnault_api.Reward.Solvency.{of_user, earned, withdrawn, held, IsSolvent}

pub sum_of_user :
    (u : ℕ) (q : Transaction → Bool) (s : Store)
    → reduce (pos 0) (filter_where q (get_user_transactions u s))
      ≡ sum_where (of_user u q) s.transactions
unfolding get_user_transactions
sum_of_user u q s =
    reduce-filter_where (λ t. t.user_id == u) q (pos 0) s.transactions ∙ omega int_laws

-- `getBalance` in terms of the three sums.
pub get_balance_sums :
    (u : ℕ) (s : Store)
    → get_balance u s ≡ record {
      available_stroops =
          if leb_ℤ (withdrawn u s +ℤ held u s) (earned u s)
          then earned u s -ℤ withdrawn u s -ℤ held u s
          else pos 0;
      pending_stroops = held u s;
      lifetime_stroops = earned u s;
    }
unfolding get_balance
get_balance_sums u s =
    rw (sum_of_user u is_earning s, sum_of_user u is_withdrawn s, sum_of_user u is_held s)

pub leb_ℤ-true : (a b : ℤ) → a ≤ℤ b → leb_ℤ a b ≡ true
leb_ℤ-true a b h = ground arith

pub available_of_solvent :
    (u : ℕ) (s : Store)
    → IsSolvent s
    → (get_balance u s).available_stroops ≡ earned u s -ℤ withdrawn u s -ℤ held u s
available_of_solvent u s h = rw (get_balance_sums u s, leb_ℤ-true _ _ (h u))

-- In a solvent store the available balance is exactly what is left, and never negative.
pub get_balance_exact :
    (u : ℕ) (s : Store)
    → IsSolvent s
    → let b = get_balance u s in
      (b.available_stroops +ℤ withdrawn u s +ℤ held u s ≡ earned u s)
      × (pos 0 ≤ℤ b.available_stroops)
get_balance_exact u s h =
    rw (available_of_solvent u s h)
      (let covered = h u in omega int_laws, let covered = h u in omega int_laws)
