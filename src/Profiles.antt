-- ===== src/Profiles.antt =====
-- src/services/consent.service.ts, src/services/onboarding.service.ts, src/services/profile.service.ts and
-- src/services/profile-serializer.ts: the tables of consents, onboardings and profiles. Purposes, steps,
-- ids and texts are numbers; times are milliseconds.
pub mod Consent
pub mod Onboarding
pub mod View
pub mod Current
pub mod Required
pub mod Onboarded
pub mod Gate
pub mod Owner
mod Tests
use learnault_api.Base.{
  ℕ, ◌+◌, Bool, true, false, ◌||◌, Option, none, some, List, [], ◌∷◌, ltb, leb, ◌==◌, if◌then◌else◌,
}

-- `CONSENT_PURPOSES`
abbrev pub terms_of_service : ℕ
terms_of_service = 0

abbrev pub privacy_policy : ℕ
privacy_policy = 1

abbrev pub data_sharing : ℕ
data_sharing = 4

-- `REQUIRED_CONSENT_PURPOSES`
abbrev pub required_consent_purposes : List ℕ
required_consent_purposes = terms_of_service ∷ privacy_policy ∷ []

-- `CONSENT_STATUSES`
pub data ConsentStatus : Type 0 where
  granted withdrawn : ConsentStatus

-- `ConsentRecordEntry`
pub record ConsentRecord : Type 0 where
  pub id : ℕ
  pub user_id : ℕ
  pub purpose : ℕ
  pub required : Bool
  pub policy_version : ℕ
  pub status : ConsentStatus
  pub source : ℕ
  pub granted_at : Option ℕ
  pub withdrawn_at : Option ℕ
  pub created_at : ℕ

-- `ONBOARDING_STEPS`
abbrev pub profile_basics : ℕ
profile_basics = 0

abbrev pub consent_step : ℕ
consent_step = 1

abbrev pub preferences : ℕ
preferences = 2

-- `REQUIRED_ONBOARDING_STEPS`
abbrev pub required_onboarding_steps : List ℕ
required_onboarding_steps = profile_basics ∷ consent_step ∷ []

-- `ONBOARDING_STATUSES`
pub data OnboardingStatus : Type 0 where
  in_progress completed : OnboardingStatus

-- `OnboardingProgressRecord`
pub record Progress : Type 0 where
  pub user_id : ℕ
  pub version : ℕ
  pub current_step : ℕ
  pub completed_steps : List ℕ
  pub status : OnboardingStatus
  pub completed_at : Option ℕ
  pub started_at : ℕ

-- `PROFILE_VISIBILITIES`
pub data Visibility : Type 0 where
  private_to_owner employer everyone : Visibility

-- `LearnerProfileRecord`
pub record Profile : Type 0 where
  pub id : ℕ
  pub user_id : ℕ
  pub display_name : Option ℕ
  pub bio : Option ℕ
  pub avatar_url : Option ℕ
  pub country : Option ℕ
  pub timezone : Option ℕ
  pub languages : List ℕ
  pub level : ℕ
  pub interests : List ℕ
  pub goals : List ℕ
  pub visibility : Visibility
  pub created_at : ℕ
  pub updated_at : ℕ

-- The columns of a user that the gate reads; `is_active` stands for the status `ACTIVE`.
pub record Account : Type 0 where
  pub id : ℕ
  pub is_active : Bool

pub record Db : Type 0 where
  pub accounts : List Account
  pub profiles : List Profile
  pub consents : List ConsentRecord
  pub progress : List Progress

-- `Array.includes`
abbrev pub includes : List ℕ → ℕ → Bool
includes [] x = false
includes (y ∷ ys) x = y == x || includes ys x

abbrev pub is_granted : ConsentStatus → Bool
is_granted granted = true
is_granted withdrawn = false

abbrev pub is_completed : OnboardingStatus → Bool
is_completed completed = true
is_completed in_progress = false
