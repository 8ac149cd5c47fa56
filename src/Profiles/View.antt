-- ===== src/Profiles/View.antt =====
-- profile-serializer.ts and the third-party reads of profile.service.ts.
use learnault_api.Base.{
  ℕ, Bool, true, false, not, Option, none, some, List, ltb, ◌==◌, if◌then◌else◌,
}
use learnault_api.Base.Table.{find_where}
use learnault_api.Profiles.{
  data_sharing, Visibility, private_to_owner, employer, everyone, Profile, Account, ConsentRecord,
  Db, is_granted,
}
use learnault_api.Profiles.Consent.{is_for, get_current}

-- `VISIBILITY_RANK`
abbrev pub visibility_rank : Visibility → ℕ
visibility_rank private_to_owner = 0
visibility_rank employer = 1
visibility_rank everyone = 2

-- `EmployerProfileView` and `PublicProfileView`: the stub, or the fields.
pub record EmployerFields : Type 0 where
  pub id : ℕ
  pub display_name : Option ℕ
  pub bio : Option ℕ
  pub avatar_url : Option ℕ
  pub country : Option ℕ
  pub timezone : Option ℕ
  pub languages : List ℕ
  pub level : ℕ
  pub interests : List ℕ
  pub goals : List ℕ

pub record PublicFields : Type 0 where
  pub id : ℕ
  pub display_name : Option ℕ
  pub bio : Option ℕ
  pub avatar_url : Option ℕ
  pub country : Option ℕ
  pub level : ℕ
  pub interests : List ℕ

pub data View (A : Type 0) : Type 0 where
  stub : ℕ → View A
  visible : A → View A

abbrev employer_fields : Profile → EmployerFields
employer_fields p = record {
  id = p.id;
  display_name = p.display_name;
  bio = p.bio;
  avatar_url = p.avatar_url;
  country = p.country;
  timezone = p.timezone;
  languages = p.languages;
  level = p.level;
  interests = p.interests;
  goals = p.goals;
}

abbrev public_fields : Profile → PublicFields
public_fields p = record {
  id = p.id;
  display_name = p.display_name;
  bio = p.bio;
  avatar_url = p.avatar_url;
  country = p.country;
  level = p.level;
  interests = p.interests;
}

-- `toEmployerProfile`
abbrev pub to_employer_profile : Profile → View EmployerFields
to_employer_profile p =
    if ltb (visibility_rank p.visibility) (visibility_rank employer)
    then stub p.id
    else visible (employer_fields p)

-- `toPublicProfile`
abbrev pub to_public_profile : Profile → View PublicFields
to_public_profile p =
    if ltb (visibility_rank p.visibility) (visibility_rank everyone)
    then stub p.id
    else visible (public_fields p)

abbrev pub is_not_withdrawn : Option ConsentRecord → Bool
is_not_withdrawn none = true
is_not_withdrawn (some c) = is_granted c.status

-- `isDisclosureAllowed`
abbrev pub is_disclosure_allowed : Account → List ConsentRecord → Bool
is_disclosure_allowed account consents =
    if not account.is_active
    then false
    else is_not_withdrawn (find_where (is_for data_sharing) consents)

pub record Disclosure : Type 0 where
  pub profile : Profile
  pub allowed : Bool

-- `disclosureContext`
unfoldable pub disclosure_context : ℕ → Db → Option Disclosure
disclosure_context user_id db = elim (find_where (λ p. p.user_id == user_id) db.profiles) [
  | none ↦ none
  | some p ↦ elim (find_where (λ a. a.id == user_id) db.accounts) [
    | none ↦ none
    | some a ↦ some (record {
      profile = p;
      allowed = is_disclosure_allowed a (get_current user_id db.consents);
    })
  ]
]

-- Both reads, at their serializer.
abbrev pub gated : {A : Type 0} → (Profile → View A) → Option Disclosure → Option (View A)
gated serializer none = none
gated serializer (some d) =
    if not d.allowed then some (stub d.profile.id) else some (serializer d.profile)

-- `getEmployerView`
unfoldable pub get_employer_view : ℕ → Db → Option (View EmployerFields)
get_employer_view user_id db = gated to_employer_profile (disclosure_context user_id db)

-- `getPublicView`
unfoldable pub get_public_view : ℕ → Db → Option (View PublicFields)
get_public_view user_id db = gated to_public_profile (disclosure_context user_id db)
