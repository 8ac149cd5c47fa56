-- ===== src/Profiles/Consent.antt =====
-- consent.service.ts: a consent is never changed, and the latest record of a purpose is the one that counts.
use learnault_api.Base.{
  ℕ, Bool, true, false, not, ◌&&◌, Option, none, some, List, [], ◌∷◌, ◌++◌, leb, ◌==◌,
  if◌then◌else◌,
}
use learnault_api.Base.Table.{find_where, filter_where}
use learnault_api.Profiles.{
  required_consent_purposes, granted, withdrawn, ConsentRecord, includes, is_granted,
}

-- `orderBy: { createdAt: 'desc' }`
abbrev pub insert_newest : ConsentRecord → List ConsentRecord → List ConsentRecord
insert_newest c [] = c ∷ []
insert_newest c (d ∷ ds) =
    if leb d.created_at c.created_at then c ∷ d ∷ ds else d ∷ insert_newest c ds

abbrev pub newest_first : List ConsentRecord → List ConsentRecord
newest_first [] = []
newest_first (c ∷ cs) = insert_newest c (newest_first cs)

abbrev pub is_of : ℕ → ConsentRecord → Bool
is_of user_id c = c.user_id == user_id

abbrev pub is_for : ℕ → ConsentRecord → Bool
is_for purpose c = c.purpose == purpose

-- `getCurrentForPurpose`
unfoldable pub get_current_for_purpose : ℕ → ℕ → List ConsentRecord → Option ConsentRecord
get_current_for_purpose user_id purpose cs =
    find_where (λ c. is_of user_id c && is_for purpose c) (newest_first cs)

-- `distinct: ['purpose']`: the first record of each purpose.
abbrev pub distinct : List ConsentRecord → List ConsentRecord
distinct [] = []
distinct (c ∷ cs) = c ∷ filter_where (λ d. not (is_for c.purpose d)) (distinct cs)

-- `getCurrent`
abbrev pub get_current : ℕ → List ConsentRecord → List ConsentRecord
get_current user_id cs = distinct (filter_where (is_of user_id) (newest_first cs))

abbrev pub is_grant : Option ConsentRecord → Bool
is_grant none = false
is_grant (some c) = is_granted c.status

-- The test of `hasAllRequiredGranted`: `byPurpose` has the one current record of each purpose.
abbrev pub all_granted : List ℕ → List ConsentRecord → Bool
all_granted [] current = true
all_granted (p ∷ ps) current = is_grant (find_where (is_for p) current) && all_granted ps current

-- `hasAllRequiredGranted`
unfoldable pub has_all_required_granted : ℕ → List ConsentRecord → Bool
has_all_required_granted user_id cs = all_granted required_consent_purposes (get_current user_id cs)

abbrev pub grant_record : ℕ → ℕ → ℕ → ℕ → ℕ → ℕ → ConsentRecord
grant_record id user_id purpose policy_version source now = record {
  id = id;
  user_id = user_id;
  purpose = purpose;
  required = includes required_consent_purposes purpose;
  policy_version = policy_version;
  status = granted;
  source = source;
  granted_at = some now;
  withdrawn_at = none;
  created_at = now;
}

-- `grant`
abbrev pub grant : ℕ → ℕ → ℕ → ℕ → ℕ → ℕ → List ConsentRecord → List ConsentRecord
grant id user_id purpose policy_version source now cs =
    cs ++ grant_record id user_id purpose policy_version source now ∷ []

-- `WithdrawConsentResult`
pub data WithdrawResult : Type 0 where
  withdrawn_ok : ConsentRecord → WithdrawResult
  not_granted required_cannot_withdraw : WithdrawResult

abbrev pub withdrawal : ℕ → ℕ → ℕ → ConsentRecord → ℕ → ℕ → ConsentRecord
withdrawal id user_id purpose latest source now = record {
  id = id;
  user_id = user_id;
  purpose = purpose;
  required = latest.required;
  policy_version = latest.policy_version;
  status = withdrawn;
  source = source;
  granted_at = none;
  withdrawn_at = some now;
  created_at = now;
}

-- `withdraw`; `CONSENT_TRANSITIONS` leads to a withdrawal from a grant only.
unfoldable pub withdraw :
    ℕ → ℕ → ℕ → ℕ → ℕ → List ConsentRecord → WithdrawResult × List ConsentRecord
unfolding get_current_for_purpose
withdraw id user_id purpose source now cs = elim (get_current_for_purpose user_id purpose cs) [
  | none ↦ (not_granted, cs)
  | some latest ↦
      if not (is_granted latest.status)
      then (not_granted, cs)
      else if latest.required
      then (required_cannot_withdraw, cs)
      else let r = withdrawal id user_id purpose latest source now in (withdrawn_ok r, cs ++ r ∷ [])
]
