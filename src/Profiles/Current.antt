-- ===== src/Profiles/Current.antt =====
-- consent.service.ts: the current records are the latest one of each purpose.
use learnault_api.Base.{
  ◌==◌, ℕ, ◌≡◌, ◌<◌, refl, ◌∙◌, Bool, false, not, ◌&&◌, List, [], ◌∷◌, ◌++◌, leb, arith, Bool-cases,
  inl, inr,
}
use learnault_api.Base.Table.{find_where, filter_where, count_where, All}
use learnault_api.Base.Rows.{find_where-ext, find_where-filter_where}
use learnault_api.Profiles.{ConsentRecord}
use learnault_api.Profiles.Consent.{
  insert_newest, newest_first, is_of, is_for, get_current_for_purpose, distinct, get_current,
}

-- A purpose is found as before among the records that are not for another one.
pub find_where-other :
    (p q : ℕ) (cs : List ConsentRecord)
    → (q == p) ≡ false
    → find_where (is_for p) (filter_where (λ d. not (is_for q d)) cs) ≡ find_where (is_for p) cs
find_where-other p q cs e =
    find_where-filter_where (λ d. not (is_for q d)) (is_for p) cs
    ∙ find_where-ext (λ d. not (is_for q d) && is_for p d) (is_for p) cs (λ d. ground arith)

find_where-distinct :
    (p : ℕ) (cs : List ConsentRecord)
    → find_where (is_for p) (distinct cs) ≡ find_where (is_for p) cs
find_where-distinct p [] = refl
find_where-distinct p (c ∷ cs) = elim (Bool-cases (is_for p c)) [
  | inl e ↦ rw e
  | inr e ↦ rw e (find_where-other p c.purpose (distinct cs) e ∙ find_where-distinct p cs)
]

-- The current record of a purpose is the same for both reads: in the list of all current records, and
-- when it is asked for alone.
pub get_current-get_current_for_purpose :
    (user_id p : ℕ) (cs : List ConsentRecord)
    → find_where (is_for p) (get_current user_id cs) ≡ get_current_for_purpose user_id p cs
unfolding get_current_for_purpose
get_current-get_current_for_purpose user_id p cs =
    find_where-distinct p (filter_where (is_of user_id) (newest_first cs))
    ∙ find_where-filter_where (is_of user_id) (is_for p) (newest_first cs)

count_where-insert_newest :
    (q : ConsentRecord → Bool) (c : ConsentRecord) (ds : List ConsentRecord)
    → count_where q (insert_newest c ds) ≡ count_where q (c ∷ ds)
count_where-insert_newest q c [] = refl
count_where-insert_newest q c (d ∷ ds) = elim (Bool-cases (leb d.created_at c.created_at)) [
  | inl e ↦ rw e
  | inr e ↦
      rw (e, count_where-insert_newest q c ds)
        (elim (Bool-cases (q c)) [
          | inl a ↦ elim (Bool-cases (q d)) [ inl b ↦ rw (a, b) | inr b ↦ rw (a, b) ]
          | inr a ↦ elim (Bool-cases (q d)) [ inl b ↦ rw (a, b) | inr b ↦ rw (a, b) ]
        ])
]

pub count_where-newest_first :
    (q : ConsentRecord → Bool) (cs : List ConsentRecord)
    → count_where q (newest_first cs) ≡ count_where q cs
count_where-newest_first q [] = refl
count_where-newest_first q (c ∷ cs) =
    count_where-insert_newest q c (newest_first cs) ∙ rw (count_where-newest_first q cs)

module _ (P : ConsentRecord → Type 0) where
  All-insert_newest :
      (c : ConsentRecord) (ds : List ConsentRecord) → P c → All P ds → All P (insert_newest c ds)
  All-insert_newest c [] h hs = (h, tt)
  All-insert_newest c (d ∷ ds) h (k, ks) = elim (Bool-cases (leb d.created_at c.created_at)) [
    | inl e ↦ rw e (h, (k, ks))
    | inr e ↦ rw e (k, All-insert_newest c ds h ks)
  ]

  pub All-newest_first : (cs : List ConsentRecord) → All P cs → All P (newest_first cs)
  All-newest_first [] h = tt
  All-newest_first (c ∷ cs) (h, hs) =
      All-insert_newest c (newest_first cs) h (All-newest_first cs hs)

-- A record that is later than all others comes first.
pub newest_first-append :
    (n : ConsentRecord) (cs : List ConsentRecord)
    → All (λ c. c.created_at < n.created_at) cs
    → newest_first (cs ++ n ∷ []) ≡ n ∷ newest_first cs
newest_first-append n [] h = refl
newest_first-append n (c ∷ cs) (h, hs) =
    let later : leb n.created_at c.created_at ≡ false = ground arith in
    rw (newest_first-append n cs hs, later)
