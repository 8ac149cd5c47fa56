-- ===== src/Profiles/Required.antt =====
-- consent.service.ts: a required consent, once given, is not lost to further records.
use learnault_api.Base.{
  ℕ, ◌≡◌, refl, sym, ap, ◌∙◌, Bool, true, false, ◌&&◌, List, [], ◌∷◌, ◌++◌, ◌==◌, arith, Bool-cases,
  Option-cases, inl, inr,
}
use learnault_api.Base.Table.{find_where, count_where, All}
use learnault_api.Base.Rows.{
  find_where-All, find_where-true, counted, found_counts, count_where-append,
}
use learnault_api.Profiles.{required_consent_purposes, ConsentRecord, includes, is_granted}
use learnault_api.Profiles.Consent.{
  newest_first, is_of, is_for, get_current_for_purpose, get_current, is_grant, all_granted,
  has_all_required_granted,
}
use learnault_api.Profiles.Current.{
  get_current-get_current_for_purpose, count_where-newest_first, All-newest_first,
}

-- A record of a required purpose is a grant and marked as required.
abbrev pub IsRequiredKept : ConsentRecord → Type 0
IsRequiredKept c =
    includes required_consent_purposes c.purpose ≡ true
    → (is_granted c.status ≡ true) × (c.required ≡ true)

abbrev of_both : ℕ → ℕ → ConsentRecord → Bool
of_both user_id p c = is_of user_id c && is_for p c

-- The current record of a required purpose is a grant if the user has any record of it.
has_grant :
    (user_id p : ℕ) (cs : List ConsentRecord)
    → includes required_consent_purposes p ≡ true
    → All IsRequiredKept cs
    → (count_where (of_both user_id p) cs == 0) ≡ false
    → is_grant (find_where (is_for p) (get_current user_id cs)) ≡ true
unfolding get_current_for_purpose
has_grant user_id p cs is h some_row =
    let (c, found) =
      counted (of_both user_id p) (newest_first cs)
        (ap (λ n. n == 0) (count_where-newest_first (of_both user_id p) cs) ∙ some_row) in
    let kept =
      find_where-All IsRequiredKept (of_both user_id p) (newest_first cs) c
        (All-newest_first IsRequiredKept cs h) found in
    let both = find_where-true (of_both user_id p) (newest_first cs) c found in
    let same : c.purpose ≡ p = ground arith in
    rw (get_current-get_current_for_purpose user_id p cs, found)
      (kept (ap (includes required_consent_purposes) same ∙ is)).0

grant_counts :
    (user_id p : ℕ) (cs : List ConsentRecord)
    → is_grant (find_where (is_for p) (get_current user_id cs)) ≡ true
    → (count_where (of_both user_id p) cs == 0) ≡ false
unfolding get_current_for_purpose
grant_counts user_id p cs h = elim (Option-cases (get_current_for_purpose user_id p cs)) [
  | inl e ↦ let no = rw (get_current-get_current_for_purpose user_id p cs, e) at h in cc
  | inr (c, e) ↦
      ap (λ n. n == 0) (sym (count_where-newest_first (of_both user_id p) cs))
      ∙ found_counts (of_both user_id p) (newest_first cs) c e
]

-- Further records do not take a required consent away.
all_granted_append :
    (ps : List ℕ) (user_id : ℕ) (cs ds : List ConsentRecord)
    → All (λ p. includes required_consent_purposes p ≡ true) ps
    → All IsRequiredKept (cs ++ ds)
    → all_granted ps (get_current user_id cs) ≡ true
    → all_granted ps (get_current user_id (cs ++ ds)) ≡ true
all_granted_append [] user_id cs ds is h t = refl
all_granted_append (p ∷ ps) user_id cs ds (i, is) h t =
    elim (Bool-cases (is_grant (find_where (is_for p) (get_current user_id cs)))) [
      | inr e ↦ let no = rw e at t in cc
      | inl e ↦
          let there =
            has_grant user_id p (cs ++ ds) i h
              (count_where-append (of_both user_id p) cs ds (grant_counts user_id p cs e)) in
          rw there (all_granted_append ps user_id cs ds is h (rw e at t))
    ]

pub required_granted_append :
    (user_id : ℕ) (cs ds : List ConsentRecord)
    → All IsRequiredKept (cs ++ ds)
    → has_all_required_granted user_id cs ≡ true
    → has_all_required_granted user_id (cs ++ ds) ≡ true
unfolding has_all_required_granted
required_granted_append user_id cs ds h t =
    all_granted_append required_consent_purposes user_id cs ds (refl, (refl, tt)) h t
