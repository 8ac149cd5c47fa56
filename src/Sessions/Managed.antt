-- ===== src/Sessions/Managed.antt =====
-- session.service.ts: sessions after they were revoked, and the pages of the list.
use mathlib.Core.Option.{some-injective}
use learnault_api.Base.{
  ℕ, ◌≡◌, ◌≢◌, ◌≤◌, refl, sym, ap, ◌∙◌, true, false, not, ◌&&◌, ◌||◌, Option, some, List, [], ◌∷◌,
  ◌==◌, leb, ltb, Bool-cases, Option-cases, inl, inr, arith,
}
use learnault_api.Base.Table.{find_where, update_where, count_where, All, All-update, All-append}
use learnault_api.Base.Rows.{find_where-All, find_where-true}
use learnault_api.Base.Unique.{updated, All-updated, All-every}
use learnault_api.Sessions.{Session, Db, Env, Fresh}
use learnault_api.Sessions.Revoke.{
  issue_session, as_revoked_session, Found, find_token, revoke_family, revoke_found,
  revoke_sessions,
}
use learnault_api.Sessions.Rotate.{live, check_token, claim_token, mint_token, rotate}
use learnault_api.Sessions.Steps.{Op, issue, claim, mint, revoke, revoke_user, run, run_all}
use learnault_api.Sessions.Replay.{is_ok, rotate-Rotation, find_token-found}
use learnault_api.Sessions.LoggedOut.{of_session, IsOut, StartsNo, run_all-IsOut, rotate-out, Who}
use learnault_api.Sessions.Manage.{
  is_same, revoke_found_session, revoke_one, revoked_ok, set_revoked, is_other_of, revoke_all,
}

-- What `revokeOne` answered `ok` about.
revoke_one-ok :
    (user_id session_id : ℕ) (current : Option ℕ) (now : ℕ) (db : Db)
    → (revoke_one user_id session_id current now db).0 ≡ revoked_ok
    → (s : Session) × (find_where (λ t. t.id == session_id) db.sessions ≡ some s)
      × (s.user_id ≡ user_id)
      × (is_same current session_id ≡ false)
      × ((revoke_one user_id session_id current now db).1 ≡ set_revoked user_id session_id now db)
unfolding revoke_one revoke_found_session
revoke_one-ok user_id session_id current now db e =
    elim (Option-cases (find_where (λ t. t.id == session_id) db.sessions)) [
      | inl g ↦ absurd (cc (rw (g, revoke_one) at e))
      | inr (s, g) ↦
          let is : s.id ≡ session_id =
            let there = find_where-true (λ t. t.id == session_id) db.sessions s g in ground arith in
          elim (Bool-cases (s.is_revoked || leb s.expires_at now)) [
            | inl a ↦ absurd (cc (rw (g, revoke_one, a) at e))
            | inr a ↦ elim (Bool-cases (s.user_id == user_id)) [
              | inr b ↦ absurd (cc (rw (g, revoke_one, a, b) at e))
              | inl b ↦ elim (Bool-cases (is_same current s.id)) [
                | inl c ↦ absurd (cc (rw (g, revoke_one, a, b, c) at e))
                | inr c ↦ (s, g, ground arith, rw (sym is) c, rw (g, revoke_one, a, b, c) refl)
              ]
            ]
          ]
    ]

revoked_row :
    (session_id now : ℕ) (s : Session)
    → of_session session_id
        (updated (λ t. t.id == session_id) (as_revoked_session now) s).id
        s.user_id
      ≡ true
    → (updated (λ t. t.id == session_id) (as_revoked_session now) s).is_revoked ≡ true
revoked_row session_id now s = elim (Bool-cases (s.id == session_id)) [
  | inl e ↦ rw e (λ _. refl)
  | inr e ↦ rw e (λ same. absurd (ground arith))
]

-- `revokeOne` answers `ok` only about another session of the same user; from then on no token of that
-- session can be rotated, whatever other calls write since, if none of them starts a session under
-- the same id.
pub revoke_one-out :
    (user_id session_id : ℕ) (current : Option ℕ) (now : ℕ) (db : Db) (ops : List Op) (env : Env)
    (fresh : Fresh) (raw now' : ℕ) (f : Found)
    → (revoke_one user_id session_id current now db).0 ≡ revoked_ok
    → All (StartsNo (of_session session_id)) ops
    → find_token env raw (run_all ops (revoke_one user_id session_id current now db).1) ≡ some f
    → f.session.id ≡ session_id
    → (is_same current session_id ≡ false)
      × ((s : Session) × (find_where (λ t. t.id == session_id) db.sessions ≡ some s)
          × (s.user_id ≡ user_id))
      × (is_ok
            (rotate env fresh now' raw
              (run_all ops (revoke_one user_id session_id current now db).1)).0
          ≡ false)
revoke_one-out user_id session_id current now db ops env fresh raw now' f good ne found same =
    let (s, there, mine, other, is) = revoke_one-ok user_id session_id current now db good in
    let who = of_session session_id in
    let out : IsOut who (revoke_one user_id session_id current now db).1.sessions = rw is (
      All-updated _ (λ t. t.id == session_id) (as_revoked_session now) db.sessions
        (All-every (revoked_row session_id now) db.sessions)) in
    (
      other,
      (s, there, mine),
      rotate-out who env fresh now' raw f _ (run_all-IsOut who ops _ ne out) found (ground arith),
    )

-- All chosen sessions are revoked or over.
abbrev IsGone : Who → ℕ → List Session → Type 0
IsGone who now ss =
    All (λ s. who s.id s.user_id ≡ true → (s.is_revoked || leb s.expires_at now) ≡ true) ss

run-IsGone :
    (who : Who) (now' : ℕ) (op : Op) (db : Db)
    → StartsNo who op
    → IsGone who now' db.sessions
    → IsGone who now' (run op db).sessions
unfolding run issue_session claim_token mint_token revoke_found revoke_family revoke_sessions
run-IsGone who now' (issue env fresh user_id now) db ne h =
    All-append (λ s. who s.id s.user_id ≡ true → (s.is_revoked || leb s.expires_at now') ≡ true)
      db.sessions _ h ((λ same. cc), tt)
run-IsGone who now' (mint env fresh now f) db ne h =
    All-update (λ s. who s.id s.user_id ≡ true → (s.is_revoked || leb s.expires_at now') ≡ true) _ _
      db.sessions (λ s k e. k) h
run-IsGone who now' (claim id) db ne h = h
run-IsGone who now' (revoke action f now) db ne h =
    All-update (λ s. who s.id s.user_id ≡ true → (s.is_revoked || leb s.expires_at now') ≡ true) _
      (as_revoked_session now) db.sessions (λ s k e same. refl) h
run-IsGone who now' (revoke_user user_id ids now) db ne h =
    All-update (λ s. who s.id s.user_id ≡ true → (s.is_revoked || leb s.expires_at now') ≡ true) _
      (as_revoked_session now) db.sessions (λ s k e same. refl) h

run_all-IsGone :
    (who : Who) (now : ℕ) (ops : List Op) (db : Db)
    → All (StartsNo who) ops
    → IsGone who now db.sessions
    → IsGone who now (run_all ops db).sessions
unfolding run_all
run_all-IsGone who now [] db ne h = h
run_all-IsGone who now (op ∷ ops) db (ne, nes) h =
    run_all-IsGone who now ops (run op db) nes (run-IsGone who now op db ne h)

rotate_gone :
    (who : Who) (env : Env) (fresh : Fresh) (now now' raw : ℕ) (f : Found) (db : Db)
    → IsGone who now db.sessions
    → now ≤ now'
    → find_token env raw db ≡ some f
    → who f.session.id f.session.user_id ≡ true
    → is_ok (rotate env fresh now' raw db).0 ≡ false
unfolding check_token
rotate_gone who env fresh now now' raw f db gone le found chosen =
    elim (Bool-cases (is_ok (rotate env fresh now' raw db).0)) [
      | inl good ↦
          let r = rotate-Rotation env fresh now' raw db _ _ refl good in
          let same : f ≡ r.found = some-injective f r.found (sym found ∙ r.was_found) in
          let (_, there) = find_token-found env raw db f found in
          let over =
            find_where-All
              (λ s. who s.id s.user_id ≡ true → (s.is_revoked || leb s.expires_at now) ≡ true) _
              db.sessions f.session gone there chosen in
          let alive : check_token now' f ≡ live = ap (check_token now') same ∙ r.was_live in
          absurd (ground arith)
      | inr bad ↦ bad
    ]

-- A session of the user other than the current one.
abbrev pub other_of : ℕ → Option ℕ → Who
other_of user current id user_id = user_id == user && not (is_same current id)

gone_row :
    (user_id : ℕ) (current : Option ℕ) (now : ℕ) (s : Session)
    → other_of user_id current
        (updated (is_other_of user_id current now) (as_revoked_session now) s).id
        (updated (is_other_of user_id current now) (as_revoked_session now) s).user_id
      ≡ true
    → ((updated (is_other_of user_id current now) (as_revoked_session now) s).is_revoked
        || leb
            (updated (is_other_of user_id current now) (as_revoked_session now) s).expires_at
            now)
      ≡ true
gone_row user_id current now s = elim (Bool-cases (is_other_of user_id current now s)) [
  | inl e ↦ rw e (λ _. refl)
  | inr e ↦ rw e (λ same. ground arith)
]

revoke_all-sessions :
    (user_id : ℕ) (current : Option ℕ) (now : ℕ) (db : Db)
    → (revoke_all user_id current now db).1.sessions
      ≡ update_where (is_other_of user_id current now) (as_revoked_session now) db.sessions
unfolding revoke_all
revoke_all-sessions user_id current now db =
    elim (Bool-cases (ltb 0 (count_where (is_other_of user_id current now) db.sessions))) [
      | inl e ↦ rw e
      | inr e ↦ rw e
    ]

current_kept :
    (user_id current now : ℕ) (ss : List Session)
    → find_where
        (λ s. s.id == current)
        (update_where (is_other_of user_id (some current) now) (as_revoked_session now) ss)
      ≡ find_where (λ s. s.id == current) ss
current_kept user_id current now [] = refl
current_kept user_id current now (s ∷ ss) = elim (Bool-cases (s.id == current)) [
  | inl e ↦
      let kept : is_other_of user_id (some current) now s ≡ false = ground arith in rw (kept, e)
  | inr e ↦ elim (Bool-cases (is_other_of user_id (some current) now s)) [
    | inl g ↦ rw (g, e) (current_kept user_id current now ss)
    | inr g ↦ rw (g, e) (current_kept user_id current now ss)
  ]
]

-- After `revokeAll`, no token of a session of that user other than the current one can be rotated at
-- that time or later, whatever other calls write since, if none of them starts such a session; and the
-- current session is what it was.
pub revoke_all-out :
    (user_id current : ℕ) (now : ℕ) (db : Db) (ops : List Op) (env : Env) (fresh : Fresh)
    (raw now' : ℕ) (f : Found)
    → All (StartsNo (other_of user_id (some current))) ops
    → now ≤ now'
    → find_token env raw (run_all ops (revoke_all user_id (some current) now db).1) ≡ some f
    → f.session.user_id ≡ user_id
    → f.session.id ≢ current
    → (is_ok
          (rotate env fresh now' raw (run_all ops (revoke_all user_id (some current) now db).1)).0
        ≡ false)
      × (find_where (λ s. s.id == current) (revoke_all user_id (some current) now db).1.sessions
          ≡ find_where (λ s. s.id == current) db.sessions)
revoke_all-out user_id current now db ops env fresh raw now' f ne le found mine other =
    let who = other_of user_id (some current) in
    let out : IsGone who now (revoke_all user_id (some current) now db).1.sessions =
      rw (revoke_all-sessions user_id (some current) now db) (
        All-updated _ (is_other_of user_id (some current) now) (as_revoked_session now) db.sessions
          (All-every (gone_row user_id (some current) now) db.sessions)) in
    (
      rotate_gone who env fresh now now' raw f _ (run_all-IsGone who now ops _ ne out) le found
          (ground arith),
      rw (revoke_all-sessions user_id (some current) now db)
          (current_kept user_id current now db.sessions),
    )
