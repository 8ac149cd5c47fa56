-- ===== src/Profiles/Onboarded.antt =====
-- Required consents and completed onboardings, under calls of both services one after another.
use learnault_api.Base.{
  ℕ, ◌≡◌, refl, ap, ◌∙◌, true, false, some, List, [], ◌∷◌, ◌++◌, arith, Bool-cases, Option-cases,
  inl, inr,
}
use learnault_api.Base.Table.{find_where, All, All-map, All-append}
use learnault_api.Base.Rows.{find_where-All, find_where-true}
use learnault_api.Base.Rows.{All-update_first, find_where-last}
use learnault_api.Profiles.{
  profile_basics, required_consent_purposes, ConsentRecord, Progress, Db, includes, is_granted,
  is_completed,
}
use learnault_api.Profiles.Consent.{
  newest_first, get_current_for_purpose, has_all_required_granted, grant_record, grant, withdraw,
  withdrawal,
}
use learnault_api.Profiles.Required.{IsRequiredKept, required_granted_append}
use learnault_api.Profiles.Current.{All-newest_first}
use learnault_api.Profiles.Onboarding.{
  is_progress_of, get_or_create, save_step, with_step, complete_progress, complete, as_completed,
  missing_steps, is_empty, unique_steps, new_progress,
}

-- A completed onboarding has every required step and its user every required consent.
abbrev pub IsOnboarded : List ConsentRecord → Progress → Type 0
IsOnboarded cs p =
    is_completed p.status ≡ true
    → (is_empty (missing_steps p.completed_steps) ≡ true)
      × (has_all_required_granted p.user_id cs ≡ true)

pub record IsConsented (db : Db) : Type 0 where
  pub consents : All IsRequiredKept db.consents
  pub progress : All (IsOnboarded db.consents) db.progress

-- A call of one of the services.
pub data Call : Type 0 where
  grants : (id user_id purpose policy_version source now : ℕ) → Call
  withdraws : (id user_id purpose source now : ℕ) → Call
  resumes : (user_id now : ℕ) → Call
  saves : (user_id step now : ℕ) → Call
  completes : (user_id now : ℕ) → Call

unfoldable pub run : Call → Db → Db
run (grants id user_id purpose version source now) db = record db {
  consents = grant id user_id purpose version source now db.consents;
}
run (withdraws id user_id purpose source now) db = record db {
  consents = (withdraw id user_id purpose source now db.consents).1;
}
run (resumes user_id now) db = record db { progress = (get_or_create user_id now db.progress).1 }
run (saves user_id step now) db = record db {
  progress = (save_step user_id step now db.progress).1;
}
run (completes user_id now) db = (complete user_id now db).1

unfoldable pub run_all : List Call → Db → Db
unfolding run
run_all [] db = db
run_all (c ∷ cs) db = run_all cs (run c db)

-- What a call makes of the consents.
Grows : List ConsentRecord → List ConsentRecord → Type 0
Grows cs cs' =
    ((u : ℕ) → has_all_required_granted u cs ≡ true → has_all_required_granted u cs' ≡ true)
    × All IsRequiredKept cs'

append-Grows :
    (cs : List ConsentRecord) (c : ConsentRecord)
    → All IsRequiredKept cs
    → IsRequiredKept c
    → Grows cs (cs ++ c ∷ [])
unfolding Grows
append-Grows cs c h k =
    let all = All-append IsRequiredKept cs (c ∷ []) h (k, tt) in
    ((λ u t. required_granted_append u cs (c ∷ []) all t), all)

withdraw-Grows :
    (id user_id purpose source now : ℕ) (cs : List ConsentRecord)
    → All IsRequiredKept cs
    → Grows cs (withdraw id user_id purpose source now cs).1
unfolding Grows withdraw get_current_for_purpose
withdraw-Grows id user_id purpose source now cs h =
    elim (Option-cases (get_current_for_purpose user_id purpose cs)) [
      | inl e ↦ rw (e, withdraw) ((λ u t. t), h)
      | inr (c, e) ↦ elim (Bool-cases (is_granted c.status)) [
        | inr g ↦ rw (e, withdraw, g) ((λ u t. t), h)
        | inl g ↦ elim (Bool-cases c.required) [
          | inl r ↦ rw (e, withdraw, g, r) ((λ u t. t), h)
          | inr r ↦
              let kept =
                find_where-All IsRequiredKept _ (newest_first cs) c
                  (All-newest_first IsRequiredKept cs h) e in
              let both = find_where-true _ (newest_first cs) c e in
              let for_it : c.purpose ≡ purpose = ground arith in
              rw (e, withdraw, g, r)
                (append-Grows cs
                  (record (withdrawal id user_id purpose c source now) { required = false }) h
                  (λ is.
                    let no = (kept (ap (includes required_consent_purposes) for_it ∙ is)).1 in cc))
        ]
      ]
    ]

grown :
    (cs cs' : List ConsentRecord) (ps : List Progress)
    → Grows cs cs'
    → All (IsOnboarded cs) ps
    → All (IsOnboarded cs') ps
unfolding Grows
grown cs cs' ps (more, h) os =
    All-map (IsOnboarded cs) (IsOnboarded cs') ps
      (λ p o done. ((o done).0, more p.user_id (o done).1)) os

new_progress-IsOnboarded :
    (cs : List ConsentRecord) (user_id step : ℕ) (steps : List ℕ) (now : ℕ)
    → IsOnboarded cs (new_progress user_id step steps now)
new_progress-IsOnboarded cs user_id step steps now done = cc

get_or_create-IsOnboarded :
    (cs : List ConsentRecord) (user_id now : ℕ) (ps : List Progress)
    → All (IsOnboarded cs) ps
    → All (IsOnboarded cs) (get_or_create user_id now ps).1
unfolding get_or_create
get_or_create-IsOnboarded cs user_id now ps h =
    elim (Option-cases (find_where (is_progress_of user_id) ps)) [
      | inr (p, e) ↦ rw (e, get_or_create) h
      | inl e ↦
          rw (e, get_or_create)
            (All-append (IsOnboarded cs) ps (new_progress user_id profile_basics [] now ∷ []) h
              (new_progress-IsOnboarded cs user_id profile_basics [] now, tt))
    ]

get_or_create-found :
    (user_id now : ℕ) (ps : List Progress)
    → find_where (is_progress_of user_id) (get_or_create user_id now ps).1
      ≡ some (get_or_create user_id now ps).0
unfolding get_or_create
get_or_create-found user_id now ps = elim (Option-cases (find_where (is_progress_of user_id) ps)) [
  | inr (p, e) ↦ rw (e, get_or_create) e
  | inl e ↦
      rw (e, get_or_create)
        (find_where-last (is_progress_of user_id) ps (new_progress user_id profile_basics [] now) e
          (ground arith))
]

save_step-IsOnboarded :
    (cs : List ConsentRecord) (user_id step now : ℕ) (ps : List Progress)
    → All (IsOnboarded cs) ps
    → All (IsOnboarded cs) (save_step user_id step now ps).1
unfolding save_step
save_step-IsOnboarded cs user_id step now ps h =
    elim (Option-cases (find_where (is_progress_of user_id) ps)) [
      | inl e ↦
          rw (e, save_step)
            (All-append (IsOnboarded cs) ps (new_progress user_id step (step ∷ []) now ∷ []) h
              (new_progress-IsOnboarded cs user_id step (step ∷ []) now, tt))
      | inr (p, e) ↦ elim (Bool-cases (is_completed p.status)) [
        | inl c ↦ rw (e, save_step, c) h
        | inr c ↦
            rw (e, save_step, c)
              (All-update_first (IsOnboarded cs) (is_progress_of user_id)
                (with_step step (unique_steps (p.completed_steps ++ step ∷ []))) ps p e (λ done. cc)
                h)
      ]
    ]

complete_progress-IsConsented :
    (p : Progress) (user_id now : ℕ) (db : Db)
    → find_where (is_progress_of user_id) db.progress ≡ some p
    → IsConsented db
    → IsConsented (complete_progress p user_id now db).1
unfolding complete_progress
complete_progress-IsConsented p user_id now db e s = elim (Bool-cases (is_completed p.status)) [
  | inl c ↦ rw c s
  | inr c ↦ elim (Bool-cases (is_empty (missing_steps p.completed_steps))) [
    | inr m ↦ rw (c, m) s
    | inl m ↦ elim (Bool-cases (has_all_required_granted user_id db.consents)) [
      | inr g ↦ rw (c, m, g) s
      | inl g ↦
          let is = find_where-true (is_progress_of user_id) db.progress p e in
          let same : p.user_id ≡ user_id = ground arith in
          rw (c, m, g)
            (record {
              consents = s.consents;
              progress =
                  All-update_first (IsOnboarded db.consents) (is_progress_of user_id)
                    (as_completed now) db.progress p e
                    (λ done. (m, ap (λ u. has_all_required_granted u db.consents) same ∙ g))
                    s.progress;
            })
    ]
  ]
]

run-IsConsented : (c : Call) (db : Db) → IsConsented db → IsConsented (run c db)
unfolding run Grows complete
run-IsConsented (grants id user_id purpose version source now) db s =
    let grows =
      append-Grows db.consents (grant_record id user_id purpose version source now) s.consents
        (λ is. (refl, is)) in
    record { consents = grows.1; progress = grown db.consents _ db.progress grows s.progress }
run-IsConsented (withdraws id user_id purpose source now) db s =
    let grows = withdraw-Grows id user_id purpose source now db.consents s.consents in
    record { consents = grows.1; progress = grown db.consents _ db.progress grows s.progress }
run-IsConsented (resumes user_id now) db s = record {
  consents = s.consents;
  progress = get_or_create-IsOnboarded db.consents user_id now db.progress s.progress;
}
run-IsConsented (saves user_id step now) db s = record {
  consents = s.consents;
  progress = save_step-IsOnboarded db.consents user_id step now db.progress s.progress;
}
run-IsConsented (completes user_id now) db s =
    complete_progress-IsConsented (get_or_create user_id now db.progress).0 user_id now
      (record db { progress = (get_or_create user_id now db.progress).1 })
      (get_or_create-found user_id now db.progress)
      (record {
        consents = s.consents;
        progress = get_or_create-IsOnboarded db.consents user_id now db.progress s.progress;
      })

-- Whatever consents are granted and withdrawn and whatever onboardings are resumed, saved and completed,
-- one call after another, from a database where it holds, as the empty one: no required consent is ever
-- withdrawn, and every completed onboarding has all required steps and its user all required consents.
pub run_all-IsConsented : (cs : List Call) (db : Db) → IsConsented db → IsConsented (run_all cs db)
unfolding run_all
run_all-IsConsented [] db s = s
run_all-IsConsented (c ∷ cs) db s = run_all-IsConsented cs (run c db) (run-IsConsented c db s)
