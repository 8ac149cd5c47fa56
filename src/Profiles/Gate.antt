-- ===== src/Profiles/Gate.antt =====
-- profile.service.ts: when others see nothing of a profile.
use learnault_api.Base.{
  ℕ, ◌≡◌, ◌<◌, refl, sym, ap, ◌∙◌, true, false, Option, none, some, List, ◌==◌, arith, Bool-cases,
  Option-cases, inl, inr,
}
use learnault_api.Base.Table.{find_where, All}
use learnault_api.Base.Rows.{find_where-true}
use learnault_api.Profiles.{
  data_sharing, private_to_owner, Profile, Account, ConsentRecord, withdrawn, Db, is_granted,
}
use learnault_api.Profiles.Consent.{
  get_current_for_purpose, get_current, withdraw, withdrawal, withdrawn_ok,
}
use learnault_api.Profiles.Current.{get_current-get_current_for_purpose, newest_first-append}
use learnault_api.Profiles.View.{
  View, stub, is_disclosure_allowed, disclosure_context, get_employer_view, get_public_view,
}

-- What a refusal answers: nothing, where there is no profile or no account, and else the profile's id.
abbrev pub refused_view : {A : Type 0} → ℕ → Db → Option (View A)
refused_view user_id db = elim (find_where (λ p. p.user_id == user_id) db.profiles) [
  | none ↦ none
  | some p ↦ elim (find_where (λ a. a.id == user_id) db.accounts) [
    | none ↦ none
    | some a ↦ some (stub p.id)
  ]
]

-- The reasons to refuse.
pub data IsRefused (p : Profile) (a : Account) (consents : List ConsentRecord) : Type 0 where
  is_private : p.visibility ≡ private_to_owner → IsRefused p a consents
  is_inactive : a.is_active ≡ false → IsRefused p a consents
  is_withdrawn :
      (c : ConsentRecord)
      → get_current_for_purpose a.id data_sharing consents ≡ some c
      → c.status ≡ withdrawn
      → IsRefused p a consents

abbrev pub IsHidden : ℕ → Db → Type 0
IsHidden user_id db =
    (get_public_view user_id db ≡ refused_view user_id db)
    × (get_employer_view user_id db ≡ refused_view user_id db)

no_profile :
    (user_id : ℕ) (db : Db)
    → find_where (λ p. p.user_id == user_id) db.profiles ≡ none
    → disclosure_context user_id db ≡ none
unfolding disclosure_context
no_profile user_id db e = rw (e, disclosure_context) refl

no_account :
    (user_id : ℕ) (db : Db) (p : Profile)
    → find_where (λ p. p.user_id == user_id) db.profiles ≡ some p
    → find_where (λ a. a.id == user_id) db.accounts ≡ none
    → disclosure_context user_id db ≡ none
unfolding disclosure_context
no_account user_id db p e k = rw (e, disclosure_context, k) refl

context_of :
    (user_id : ℕ) (db : Db) (p : Profile) (a : Account)
    → find_where (λ p. p.user_id == user_id) db.profiles ≡ some p
    → find_where (λ a. a.id == user_id) db.accounts ≡ some a
    → disclosure_context user_id db
      ≡ some (record {
        profile = p;
        allowed = is_disclosure_allowed a (get_current user_id db.consents);
      })
unfolding disclosure_context
context_of user_id db p a e k = rw (e, disclosure_context, k) refl

not_allowed :
    (user_id : ℕ) (db : Db)
    → ((a : Account)
        → find_where (λ b. b.id == user_id) db.accounts ≡ some a
        → is_disclosure_allowed a (get_current user_id db.consents) ≡ false)
    → IsHidden user_id db
unfolding get_public_view get_employer_view
not_allowed user_id db refuses =
    elim (Option-cases (find_where (λ p. p.user_id == user_id) db.profiles)) [
      | inl e ↦
          rw (no_profile user_id db e, get_public_view, get_employer_view, refused_view, e)
            (refl, refl)
      | inr (p, e) ↦ elim (Option-cases (find_where (λ a. a.id == user_id) db.accounts)) [
        | inl k ↦
            rw (no_account user_id db p e k, get_public_view, get_employer_view, refused_view, e, k)
              (refl, refl)
        | inr (a, k) ↦
            rw
              (
                context_of user_id db p a e k,
                get_public_view,
                get_employer_view,
                refuses a k,
                refused_view,
                e,
                k,
              )
              (refl, refl)
      ]
    ]

withdrawn_refuses :
    (user_id : ℕ) (a : Account) (c : ConsentRecord) (cs : List ConsentRecord)
    → get_current_for_purpose user_id data_sharing cs ≡ some c
    → c.status ≡ withdrawn
    → is_disclosure_allowed a (get_current user_id cs) ≡ false
withdrawn_refuses user_id a c cs e w =
    rw (get_current-get_current_for_purpose user_id data_sharing cs, e, w)
      (elim (Bool-cases a.is_active) [ inl i ↦ rw i | inr i ↦ rw i ])

-- All refusals look the same: to the public and to employers a private profile, that of an account that is
-- not active, and one whose sharing is withdrawn each show their id and nothing else.
pub refusals_alike :
    (user_id : ℕ) (db : Db) (p : Profile) (a : Account)
    → find_where (λ q. q.user_id == user_id) db.profiles ≡ some p
    → find_where (λ b. b.id == user_id) db.accounts ≡ some a
    → IsRefused p a db.consents
    → (get_public_view user_id db ≡ some (stub p.id))
      × (get_employer_view user_id db ≡ some (stub p.id))
unfolding get_public_view get_employer_view
refusals_alike user_id db p a e k (is_private v) =
    rw (context_of user_id db p a e k, get_public_view, get_employer_view)
      (elim (Bool-cases (is_disclosure_allowed a (get_current user_id db.consents))) [
        | inl i ↦ rw (i, v) (refl, refl)
        | inr i ↦ rw i (refl, refl)
      ])
refusals_alike user_id db p a e k (is_inactive i) =
    rw (context_of user_id db p a e k, get_public_view, get_employer_view, i) (refl, refl)
refusals_alike user_id db p a e k (is_withdrawn c there w) =
    let at_id = find_where-true (λ b. b.id == user_id) db.accounts a k in
    let same : a.id ≡ user_id = ground arith in
    let no =
      withdrawn_refuses user_id a c db.consents
        (ap (λ u. get_current_for_purpose u data_sharing db.consents) (sym same) ∙ there) w in
    rw (context_of user_id db p a e k, get_public_view, get_employer_view, no) (refl, refl)

withdraw-current :
    (id user_id purpose source now : ℕ) (cs : List ConsentRecord) (r : ConsentRecord)
    → All (λ c. c.created_at < now) cs
    → (withdraw id user_id purpose source now cs).0 ≡ withdrawn_ok r
    → (c : ConsentRecord) × (get_current_for_purpose user_id purpose
          (withdraw id user_id purpose source now cs).1
        ≡ some c)
      × (c.status ≡ withdrawn)
unfolding withdraw get_current_for_purpose
withdraw-current id user_id purpose source now cs r later h =
    elim (Option-cases (get_current_for_purpose user_id purpose cs)) [
      | inl e ↦ let no = rw (e, withdraw) at h in cc
      | inr (c, e) ↦ elim (Bool-cases (is_granted c.status)) [
        | inr g ↦ let no = rw (e, withdraw, g) at h in cc
        | inl g ↦ elim (Bool-cases c.required) [
          | inl q ↦ let no = rw (e, withdraw, g, q) at h in cc
          | inr q ↦
              let n : ConsentRecord = record (withdrawal id user_id purpose c source now) {
                required = false;
              } in
              let mine : (user_id == user_id) ≡ true = ground arith in
              let for_it : (purpose == purpose) ≡ true = ground arith in
              rw (e, withdraw, g, q) (n, rw (newest_first-append n cs later, mine, for_it), refl)
        ]
      ]
    ]

-- A withdrawal of data sharing takes effect at once: after `withdraw` answered with its record, later than
-- all records before, the public and employers see nothing of the profile but its id, whatever its
-- visibility says.
pub withdraw_hides :
    (id user_id source now : ℕ) (db : Db) (r : ConsentRecord)
    → All (λ c. c.created_at < now) db.consents
    → (withdraw id user_id data_sharing source now db.consents).0 ≡ withdrawn_ok r
    → IsHidden user_id
        (record db { consents = (withdraw id user_id data_sharing source now db.consents).1 })
withdraw_hides id user_id source now db r later h =
    let (c, there, w) = withdraw-current id user_id data_sharing source now db.consents r later h in
    let cs = (withdraw id user_id data_sharing source now db.consents).1 in
    not_allowed user_id (record db { consents = cs })
      (λ a k. withdrawn_refuses user_id a c cs there w)
