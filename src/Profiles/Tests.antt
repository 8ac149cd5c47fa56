-- ===== src/Profiles/Tests.antt =====
-- Consents, onboardings and views on concrete inputs, and their theorems applied.
use learnault_api.Base.{◌≡◌, refl, true, none, some, [], ◌∷◌, arith}
use learnault_api.Profiles.{
  terms_of_service, data_sharing, everyone, private_to_owner, Profile, Account, ConsentRecord,
  withdrawn, Db,
}
use learnault_api.Profiles.Consent.{
  has_all_required_granted, grant, grant_record, grant, withdraw, withdrawal,
  get_current_for_purpose, required_cannot_withdraw, withdrawn_ok,
}
use learnault_api.Profiles.Onboarding.{
  CompleteResult, missing_required_consent, incomplete_steps, complete, save_step,
}
use learnault_api.Profiles.View.{stub, get_public_view, get_employer_view}
use learnault_api.Profiles.Onboarded.{
  grants, withdraws, saves, completes, run_all, IsConsented, run_all-IsConsented,
}
use learnault_api.Profiles.Owner.{
  required_consents_granted, required_consents_granted-has_all_required_granted,
}
use learnault_api.Profiles.Gate.{IsHidden, is_private, refusals_alike, withdraw_hides}

abbrev account : Account
account = record { id = 1; is_active = true }

abbrev profile : Profile
profile = record {
  id = 30;
  user_id = 1;
  display_name = some 31;
  bio = none;
  avatar_url = none;
  country = some 32;
  timezone = some 33;
  languages = 34 ∷ [];
  level = 0;
  interests = [];
  goals = 35 ∷ [];
  visibility = everyone;
  created_at = 5;
  updated_at = 6;
}

abbrev db : Db
db = record { accounts = account ∷ []; profiles = profile ∷ []; consents = []; progress = [] }

abbrev sharing : ConsentRecord
sharing = grant_record 7 1 data_sharing 1 0 100

abbrev sharing_db : Db
sharing_db = record db { consents = sharing ∷ [] }

-- A required consent is not withdrawn.
required_test :
    (withdraw 8 1 terms_of_service 0 200 (grant 7 1 terms_of_service 1 0 100 [])).0
    ≡ required_cannot_withdraw
unfolding withdraw
required_test = refl

-- All steps, and one of the two required consents.
consent_missing_test :
    (complete 1 300
      (run_all (grants 7 1 terms_of_service 1 0 100 ∷ saves 1 0 150 ∷ saves 1 1 160 ∷ []) db)).0
    ≡ missing_required_consent
unfolding complete run_all learnault_api.Profiles.Onboarding.complete_progress
    learnault_api.Profiles.Consent.has_all_required_granted save_step
consent_missing_test = refl

run_all-IsConsented_example : IsConsented (
    run_all
      (grants 7 1 0 1 0 100
        ∷ grants 8 1 1 1 0 110
        ∷ saves 1 0 150
        ∷ saves 1 1 160
        ∷ completes 1 170
        ∷ withdraws 9 1 0 0 180
        ∷ [])
      db)
run_all-IsConsented_example =
    run_all-IsConsented
      (grants 7 1 0 1 0 100
        ∷ grants 8 1 1 1 0 110
        ∷ saves 1 0 150
        ∷ saves 1 1 160
        ∷ completes 1 170
        ∷ withdraws 9 1 0 0 180
        ∷ [])
      db (record { consents = tt; progress = tt })

refusals_alike_example :
    (get_public_view 1
        (record db { profiles = record profile { visibility = private_to_owner } ∷ [] })
      ≡ some (stub 30))
    × (get_employer_view 1
          (record db { profiles = record profile { visibility = private_to_owner } ∷ [] })
        ≡ some (stub 30))
refusals_alike_example =
    refusals_alike 1
      (record db { profiles = record profile { visibility = private_to_owner } ∷ [] })
      (record profile { visibility = private_to_owner }) account refl refl (is_private refl)

withdraw_hides_example :
    IsHidden 1
      (record sharing_db { consents = (withdraw 9 1 data_sharing 0 200 sharing_db.consents).1 })
unfolding withdraw
withdraw_hides_example =
    withdraw_hides 9 1 0 200 sharing_db (withdrawal 9 1 data_sharing sharing 0 200)
      (omega arith, tt) refl

required_consents_granted-has_all_required_granted_example :
    required_consents_granted 1 (grant 8 1 1 1 0 110 (grant 7 1 0 1 0 100 []))
    ≡ has_all_required_granted 1 (grant 8 1 1 1 0 110 (grant 7 1 0 1 0 100 []))
required_consents_granted-has_all_required_granted_example =
    required_consents_granted-has_all_required_granted 1
      (grant 8 1 1 1 0 110 (grant 7 1 0 1 0 100 []))
