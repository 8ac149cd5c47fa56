-- ===== src/Profiles/Owner.antt =====
-- profile.service.ts: the required consents in the owner's aggregate, against those of consent.service.ts.
use learnault_api.Base.{
  ℕ, ◌≡◌, refl, Bool, true, false, not, ◌&&◌, ◌||◌, List, [], ◌∷◌, ◌==◌, arith, Bool-cases, inl,
  inr, if◌then◌else◌,
}
use learnault_api.Base.Table.{find_where, filter_where}
use learnault_api.Profiles.{required_consent_purposes, ConsentRecord, is_granted}
use learnault_api.Profiles.Current.{find_where-other}
use learnault_api.Profiles.Consent.{
  newest_first, is_of, is_for, distinct, get_current, is_grant, all_granted,
  has_all_required_granted,
}

-- `consents.some(consent => …)`
abbrev pub some_granted : ℕ → List ConsentRecord → Bool
some_granted p [] = false
some_granted p (c ∷ cs) = (is_for p c && is_granted c.status) || some_granted p cs

abbrev pub every_some_granted : List ℕ → List ConsentRecord → Bool
every_some_granted [] consents = true
every_some_granted (p ∷ ps) consents = some_granted p consents && every_some_granted ps consents

-- `requiredConsentsGranted` of `getOwnerAccountProfile`
unfoldable pub required_consents_granted : ℕ → List ConsentRecord → Bool
required_consents_granted user_id cs =
    every_some_granted required_consent_purposes (get_current user_id cs)

some_granted-filter_where :
    (p q : ℕ) (cs : List ConsentRecord)
    → some_granted p (filter_where (λ d. not (is_for q d)) cs)
      ≡ (if q == p then false else some_granted p cs)
some_granted-filter_where p q [] = elim (Bool-cases (q == p)) [ inl e ↦ rw e | inr e ↦ rw e ]
some_granted-filter_where p q (c ∷ cs) =
    let rest = some_granted-filter_where p q cs in
    elim (Bool-cases (is_for q c)) [
      | inl e ↦ rw e (elim (Bool-cases (q == p)) [
        | inl i ↦ rw (rest, i)
        | inr i ↦ let other : is_for p c ≡ false = ground arith in rw (rest, i, other)
      ])
      | inr e ↦ rw e (elim (Bool-cases (q == p)) [
        | inl i ↦ let other : is_for p c ≡ false = ground arith in rw (rest, i, other)
        | inr i ↦ rw (rest, i)
      ])
    ]

some_granted-distinct :
    (p : ℕ) (cs : List ConsentRecord)
    → some_granted p (distinct cs) ≡ is_grant (find_where (is_for p) (distinct cs))
some_granted-distinct p [] = refl
some_granted-distinct p (c ∷ cs) =
    let others = some_granted-filter_where p c.purpose (distinct cs) in
    elim (Bool-cases (is_for p c)) [
      | inl e ↦
          rw (e, others, e)
            (elim (Bool-cases (is_granted c.status)) [ inl g ↦ rw g | inr g ↦ rw g ])
      | inr e ↦
          rw (e, others, e, find_where-other p c.purpose (distinct cs) e)
            (some_granted-distinct p cs)
    ]

every_some_granted-distinct :
    (ps : List ℕ) (cs : List ConsentRecord)
    → every_some_granted ps (distinct cs) ≡ all_granted ps (distinct cs)
every_some_granted-distinct [] cs = refl
every_some_granted-distinct (p ∷ ps) cs =
    rw (some_granted-distinct p cs, every_some_granted-distinct ps cs)

-- The owner's aggregate and the check that completes an onboarding agree on whether the required consents
-- are granted, though the one looks for any current grant of each purpose and the other for the purpose's
-- current record.
pub required_consents_granted-has_all_required_granted :
    (user_id : ℕ) (cs : List ConsentRecord)
    → required_consents_granted user_id cs ≡ has_all_required_granted user_id cs
unfolding required_consents_granted has_all_required_granted
required_consents_granted-has_all_required_granted user_id cs =
    every_some_granted-distinct required_consent_purposes
      (filter_where (is_of user_id) (newest_first cs))
