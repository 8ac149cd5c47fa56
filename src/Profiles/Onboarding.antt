-- ===== src/Profiles/Onboarding.antt =====
-- onboarding.service.ts
use learnault_api.Base.{
  ℕ, Bool, true, false, not, none, some, List, [], ◌∷◌, ◌++◌, ◌==◌, if◌then◌else◌,
}
use learnault_api.Base.Table.{find_where, filter_where, update_first}
use learnault_api.Profiles.{
  profile_basics, required_onboarding_steps, in_progress, completed, Progress, Db, includes,
  is_completed,
}
use learnault_api.Profiles.Consent.{has_all_required_granted}

-- `CURRENT_ONBOARDING_VERSION`
abbrev current_onboarding_version : ℕ
current_onboarding_version = 1

abbrev pub is_progress_of : ℕ → Progress → Bool
is_progress_of user_id p = p.user_id == user_id

abbrev pub new_progress : ℕ → ℕ → List ℕ → ℕ → Progress
new_progress user_id step steps now = record {
  user_id = user_id;
  version = current_onboarding_version;
  current_step = step;
  completed_steps = steps;
  status = in_progress;
  completed_at = none;
  started_at = now;
}

-- `getOrCreate`, which `resume` calls: the progress and the table.
unfoldable pub get_or_create : ℕ → ℕ → List Progress → Progress × List Progress
get_or_create user_id now ps = elim (find_where (is_progress_of user_id) ps) [
  | some p ↦ (p, ps)
  | none ↦ let p = new_progress user_id profile_basics [] now in (p, ps ++ p ∷ [])
]

-- `Array.from(new Set(steps))`: the first of equal steps stays.
abbrev pub unique_steps : List ℕ → List ℕ
unique_steps [] = []
unique_steps (s ∷ ss) = s ∷ filter_where (λ t. not (t == s)) (unique_steps ss)

-- `SaveStepResult` and `CompleteOnboardingResult`
pub data SaveStepResult : Type 0 where
  saved already_saved : Progress → SaveStepResult

pub data CompleteResult : Type 0 where
  completed_now already_completed : Progress → CompleteResult
  incomplete_steps : List ℕ → CompleteResult
  missing_required_consent : CompleteResult

abbrev pub with_step : ℕ → List ℕ → Progress → Progress
with_step step steps p = record p { current_step = step; completed_steps = steps }

-- `saveStep`
unfoldable pub save_step : ℕ → ℕ → ℕ → List Progress → SaveStepResult × List Progress
save_step user_id step now ps = elim (find_where (is_progress_of user_id) ps) [
  | none ↦ let p = new_progress user_id step (step ∷ []) now in (saved p, ps ++ p ∷ [])
  | some p ↦
      if is_completed p.status
      then (already_saved p, ps)
      else let q = with_step step (unique_steps (p.completed_steps ++ step ∷ [])) in
        (saved (q p), update_first (is_progress_of user_id) q ps)
]

abbrev pub missing_steps : List ℕ → List ℕ
missing_steps steps = filter_where (λ s. not (includes steps s)) required_onboarding_steps

abbrev pub is_empty : List ℕ → Bool
is_empty [] = true
is_empty (_ ∷ _) = false

abbrev pub as_completed : ℕ → Progress → Progress
as_completed now p = record p { status = completed; completed_at = some now }

-- `complete` of a progress that was read.
unfoldable pub complete_progress : Progress → ℕ → ℕ → Db → CompleteResult × Db
complete_progress p user_id now db =
    if is_completed p.status
    then (already_completed p, db)
    else if not (is_empty (missing_steps p.completed_steps))
    then (incomplete_steps (missing_steps p.completed_steps), db)
    else if not (has_all_required_granted user_id db.consents)
    then (missing_required_consent, db)
    else (
      completed_now (as_completed now p),
      record db { progress = update_first (is_progress_of user_id) (as_completed now) db.progress },
    )

-- `complete`
unfoldable pub complete : ℕ → ℕ → Db → CompleteResult × Db
unfolding get_or_create complete_progress
complete user_id now db =
    let (p, ps) = get_or_create user_id now db.progress in
    complete_progress p user_id now (record db { progress = ps })
