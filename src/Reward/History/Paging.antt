-- ===== src/Reward/History/Paging.antt =====
-- reward.service.ts: what a page of the transaction history holds.
use learnault_api.Base.{
  if◌then◌else◌, ℕ, zero, suc, ◌+◌, ◌-◌, ◌≤◌, ◌<◌, ◌≡◌, ◌↔◌, ap, ◌∙◌, refl, Bool, true, ◌&&◌, List,
  [], ◌∷◌, ◌==◌, leb, arith, length, take, drop, length-take, length-drop, Bool-cases, inl, inr,
}
use Prim.Native.Nat.{min}
use learnault_api.Base.Table.{
  filter_where, count_where, All, All-map, All-filter, All-take, All-drop,
  filter_where-filter_where, length-filter_where,
}
use learnault_api.Reward.{Transaction, Store}
use learnault_api.Reward.Balance.{get_user_transactions}
use learnault_api.Reward.History.{
  TransactionFilter, same_type, same_status, if_given, apply_filters, insert_newest, sort_newest,
  or_default, Page, get_transaction_history,
}

-- The transactions that the request asks for.
abbrev pub matches : ℕ → TransactionFilter → Transaction → Bool
matches user f t =
    (((t.user_id == user && if_given f.type (same_type t.type))
        && if_given f.status (same_status t.status))
      && if_given f.from_date (λ d. leb d t.created_at))
    && if_given f.to_date (leb t.created_at)

apply_filters-filter_where :
    (user : ℕ) (f : TransactionFilter) (s : Store)
    → apply_filters f (get_user_transactions user s) ≡ filter_where (matches user f) s.transactions
unfolding apply_filters get_user_transactions
apply_filters-filter_where user f s =
    let p = λ (t : Transaction). t.user_id == user in
    let q = λ (t : Transaction). if_given f.type (same_type t.type) in
    let r = λ (t : Transaction). if_given f.status (same_status t.status) in
    let from = λ (t : Transaction). if_given f.from_date (λ d. leb d t.created_at) in
    let to = λ (t : Transaction). if_given f.to_date (leb t.created_at) in
    rw (
      filter_where-filter_where p q s.transactions,
      filter_where-filter_where (λ t. p t && q t) r s.transactions,
      filter_where-filter_where (λ t. (p t && q t) && r t) from s.transactions,
      filter_where-filter_where (λ t. ((p t && q t) && r t) && from t) to s.transactions,
    )

-- Newest first.
abbrev pub IsNewestFirst : List Transaction → Type 0
IsNewestFirst [] = Unit
IsNewestFirst (t ∷ ts) = All (λ u. u.created_at ≤ t.created_at) ts × IsNewestFirst ts

module _ (P : Transaction → Type 0) where
  insert_newest-All :
      (t : Transaction) (ts : List Transaction) → P t → All P ts → All P (insert_newest t ts)
  unfolding insert_newest
  insert_newest-All t [] h k = (h, tt)
  insert_newest-All t (u ∷ us) h k = elim (Bool-cases (leb u.created_at t.created_at)) [
    | inl e ↦ rw e (h, k)
    | inr e ↦ rw e (k.0, insert_newest-All t us h k.1)
  ]

  sort_newest-All : (ts : List Transaction) → All P ts → All P (sort_newest ts)
  unfolding sort_newest
  sort_newest-All [] h = tt
  sort_newest-All (t ∷ ts) (h, hs) = insert_newest-All t (sort_newest ts) h (sort_newest-All ts hs)

older :
    (t u : Transaction) (us : List Transaction)
    → u.created_at ≤ t.created_at
    → All (λ v. v.created_at ≤ u.created_at) us
    → All (λ v. v.created_at ≤ t.created_at) us
older t u us h k =
    All-map (λ v. v.created_at ≤ u.created_at) (λ v. v.created_at ≤ t.created_at) us
      (λ v e. omega arith) k

insert_newest-IsNewestFirst :
    (t : Transaction) (ts : List Transaction)
    → IsNewestFirst ts
    → IsNewestFirst (insert_newest t ts)
unfolding insert_newest
insert_newest-IsNewestFirst t [] h = (tt, tt)
insert_newest-IsNewestFirst t (u ∷ us) (h, hs) = elim (Bool-cases (leb u.created_at t.created_at)) [
  | inl e ↦ rw e ((ground arith, older t u us (ground arith) h), (h, hs))
  | inr e ↦ rw e (
    unfold insert_newest in
        insert_newest-All (λ v. v.created_at ≤ u.created_at) t us (ground arith) h,
    insert_newest-IsNewestFirst t us hs,
  )
]

sort_newest-IsNewestFirst : (ts : List Transaction) → IsNewestFirst (sort_newest ts)
unfolding sort_newest
sort_newest-IsNewestFirst [] = tt
sort_newest-IsNewestFirst (t ∷ ts) =
    insert_newest-IsNewestFirst t (sort_newest ts) (sort_newest-IsNewestFirst ts)

length-insert_newest :
    (t : Transaction) (ts : List Transaction) → length (insert_newest t ts) ≡ suc (length ts)
unfolding insert_newest
length-insert_newest t [] = refl
length-insert_newest t (u ∷ us) = elim (Bool-cases (leb u.created_at t.created_at)) [
  | inl e ↦ rw e
  | inr e ↦ rw e (ap suc (length-insert_newest t us))
]

length-sort_newest : (ts : List Transaction) → length (sort_newest ts) ≡ length ts
unfolding sort_newest
length-sort_newest [] = refl
length-sort_newest (t ∷ ts) =
    length-insert_newest t (sort_newest ts) ∙ ap suc (length-sort_newest ts)

take-IsNewestFirst : (n : ℕ) (ts : List Transaction) → IsNewestFirst ts → IsNewestFirst (take n ts)
take-IsNewestFirst zero ts h = tt
take-IsNewestFirst (suc n) [] h = tt
take-IsNewestFirst (suc n) (t ∷ ts) (h, hs) =
    (All-take (λ u. u.created_at ≤ t.created_at) n ts h, take-IsNewestFirst n ts hs)

drop-IsNewestFirst : (n : ℕ) (ts : List Transaction) → IsNewestFirst ts → IsNewestFirst (drop n ts)
drop-IsNewestFirst zero ts h = h
drop-IsNewestFirst (suc n) [] h = tt
drop-IsNewestFirst (suc n) (t ∷ ts) (h, hs) = drop-IsNewestFirst n ts hs

count_where-insert_newest :
    (q : Transaction → Bool) (t : Transaction) (ts : List Transaction)
    → count_where q (insert_newest t ts) ≡ count_where q (t ∷ ts)
unfolding insert_newest
count_where-insert_newest q t [] = refl
count_where-insert_newest q t (u ∷ us) = elim (Bool-cases (leb u.created_at t.created_at)) [
  | inl e ↦ rw e
  | inr e ↦ rw (e, count_where-insert_newest q t us) (ground arith)
]

count_where-sort_newest :
    (q : Transaction → Bool) (ts : List Transaction)
    → count_where q (sort_newest ts) ≡ count_where q ts
unfolding sort_newest
count_where-sort_newest q [] = refl
count_where-sort_newest q (t ∷ ts) =
    count_where-insert_newest q t (sort_newest ts)
    ∙ ap (λ n. if q t then suc n else n) (count_where-sort_newest q ts)

count_where-filter_where :
    (p q : Transaction → Bool) (ts : List Transaction)
    → count_where q (filter_where p ts) ≡ count_where (λ t. p t && q t) ts
count_where-filter_where p q [] = refl
count_where-filter_where p q (t ∷ ts) = elim (Bool-cases (p t)) [
  | inl e ↦ rw (e, count_where-filter_where p q ts)
  | inr e ↦ rw (e, count_where-filter_where p q ts)
]

-- The page of a request: `rows` are the transactions that match, each as often as in the store and
-- newest first, and the page is the slice of them that the offset and the limit name; the total
-- counts all that match, and `hasMore` says whether any stand behind the page.
pub record IsPage (user limit offset : ℕ) (f : TransactionFilter) (s : Store) (p : Page)
    : Type 0 where
  pub all_match : All (λ t. matches user f t ≡ true) p.transactions
  pub newest_first : IsNewestFirst p.transactions
  pub rows : List Transaction
  pub rows_newest_first : IsNewestFirst rows
  pub rows_match :
      (q : Transaction → Bool)
      → count_where q rows ≡ count_where (λ t. matches user f t && q t) s.transactions
  pub slice : p.transactions ≡ take limit (drop offset rows)
  pub total_counted : p.total ≡ count_where (matches user f) s.transactions
  pub length_bounded : length p.transactions ≡ min limit (p.total - offset)
  pub more_iff : (p.has_more ≡ true) ↔ (offset + limit < p.total)

-- Every page of the history is the page that was asked for.
pub get_transaction_history-IsPage :
    (user : ℕ) (f : TransactionFilter) (s : Store)
    → IsPage user
        (or_default 20 f.limit)
        (or_default 0 f.offset)
        f
        s
        (get_transaction_history user f s)
unfolding get_transaction_history
get_transaction_history-IsPage user f s =
    let limit = or_default 20 f.limit in
    let offset = or_default 0 f.offset in
    let found = filter_where (matches user f) s.transactions in
    rw (apply_filters-filter_where user f s) (record {
      all_match = All-take _ limit _ (
          All-drop _ offset _ (
            sort_newest-All _ found (
              All-filter (λ t. matches user f t ≡ true) (matches user f) s.transactions
                (λ t e. e))));
      newest_first =
          take-IsNewestFirst limit _
            (drop-IsNewestFirst offset _ (sort_newest-IsNewestFirst found));
      rows = sort_newest found;
      rows_newest_first = sort_newest-IsNewestFirst found;
      rows_match = λ q.
          count_where-sort_newest q found
          ∙ count_where-filter_where (matches user f) q s.transactions;
      slice = refl;
      total_counted =
          length-sort_newest found ∙ length-filter_where (matches user f) s.transactions;
      length_bounded = length-take limit _ ∙ ap (min limit) (length-drop offset _);
      more_iff = (λ e. ground arith, λ e. ground arith);
    })
