-- ===== src/Reward/History.antt =====
-- reward.service.ts: `getTransactionHistory`.
pub mod Paging
use learnault_api.Base.{
  ℕ, ◌+◌, Bool, true, false, ◌&&◌, Option, none, some, List, [], ◌∷◌, ltb, leb, if◌then◌else◌,
  length, take, drop,
}
use learnault_api.Base.Table.{filter_where}
use learnault_api.Reward.{
  Transaction, TransactionType, TransactionStatus, module_reward, streak_bonus, referral_reward,
  withdrawal, pending, completed, failed, Store,
}
use learnault_api.Reward.Balance.{get_user_transactions}

pub record TransactionFilter : Type 0 where
  pub type : Option TransactionType
  pub status : Option TransactionStatus
  pub from_date : Option ℕ
  pub to_date : Option ℕ
  pub limit : Option ℕ
  pub offset : Option ℕ

abbrev same_type : TransactionType → TransactionType → Bool
same_type module_reward module_reward = true
same_type streak_bonus streak_bonus = true
same_type referral_reward referral_reward = true
same_type withdrawal withdrawal = true
same_type _ _ = false

abbrev same_status : TransactionStatus → TransactionStatus → Bool
same_status pending pending = true
same_status completed completed = true
same_status failed failed = true
same_status _ _ = false

-- A filter that is absent keeps everything.
abbrev pub if_given {ℓ} : {A : Type ℓ} → Option A → (A → Bool) → Bool
if_given none p = true
if_given (some a) p = p a

-- The four filters, which the source applies one after the other.
unfoldable pub apply_filters : TransactionFilter → List Transaction → List Transaction
apply_filters f ts =
    let by_type = filter_where (λ t. if_given f.type (same_type t.type)) ts in
    let by_status = filter_where (λ t. if_given f.status (same_status t.status)) by_type in
    let from = filter_where (λ t. if_given f.from_date (λ d. leb d t.created_at)) by_status in
    filter_where (λ t. if_given f.to_date (leb t.created_at)) from

-- `sort((a, b) => b.createdAt - a.createdAt)`, which is stable: newest first.
unfoldable pub insert_newest : Transaction → List Transaction → List Transaction
insert_newest t [] = t ∷ []
insert_newest t (u ∷ us) =
    if leb u.created_at t.created_at then t ∷ u ∷ us else u ∷ insert_newest t us

unfoldable pub sort_newest : List Transaction → List Transaction
unfolding insert_newest
sort_newest [] = []
sort_newest (t ∷ ts) = insert_newest t (sort_newest ts)

abbrev pub or_default : ℕ → Option ℕ → ℕ
or_default d none = d
or_default d (some n) = n

pub record Page : Type 0 where
  pub transactions : List Transaction
  pub total : ℕ
  pub has_more : Bool

-- `getTransactionHistory`
unfoldable pub get_transaction_history : ℕ → TransactionFilter → Store → Page
unfolding apply_filters sort_newest
get_transaction_history user f s =
    let sorted = sort_newest (apply_filters f (get_user_transactions user s)) in
    let total = length sorted in
    let limit = or_default 20 f.limit in
    let offset = or_default 0 f.offset in
    record {
      transactions = take limit (drop offset sorted);
      total = total;
      has_more = ltb (offset + limit) total;
    }
