-- ===== src/Sessions/LoggedOut.antt =====
-- refresh-token.service.ts: rotations after a logout.
use mathlib.Core.Option.{some-injective}
use learnault_api.Base.{
  ℕ, ◌≡◌, refl, sym, ap, ◌∙◌, Bool, true, false, not, ◌&&◌, some, List, [], ◌∷◌, ◌==◌, Bool-cases,
  inl, inr, arith, map,
}
use learnault_api.Base.Table.{update_where, filter_where, All, All-update, All-append, All-map}
use learnault_api.Base.Rows.{find_where-All}
use learnault_api.Sessions.{session_logged_out, Session, Db, Env, Fresh}
use learnault_api.Sessions.Revoke.{
  issue_session, as_revoked_session, is_in, live_sessions, Found, find_token, revoke_family,
  revoke_found, revoke_sessions, revoke_all_for_user, revoke_by_refresh_token,
}
use learnault_api.Sessions.Rotate.{live, check_token, claim_token, mint_token, rotate}
use learnault_api.Sessions.Steps.{Op, issue, claim, mint, revoke, revoke_user, run, run_all}
use learnault_api.Sessions.Once.{revoke_found-IsRevoked}
use learnault_api.Sessions.Replay.{is_ok, rotate-Rotation, find_token-found}

-- A choice of sessions by their id and user.
abbrev pub Who : Type 0
Who = ℕ → ℕ → Bool

abbrev pub of_session : ℕ → Who
of_session session_id id user_id = id == session_id

abbrev pub of_user : ℕ → Who
of_user user id user_id = user_id == user

-- All chosen sessions are revoked.
abbrev pub IsOut : Who → List Session → Type 0
IsOut who ss = All (λ s. who s.id s.user_id ≡ true → s.is_revoked ≡ true) ss

-- A step that starts a session starts none that is chosen.
abbrev pub StartsNo : Who → Op → Type 0
StartsNo who (issue env fresh user_id now) = who fresh.session_id user_id ≡ false
StartsNo who _ = Unit

run-IsOut :
    (who : Who) (op : Op) (db : Db)
    → StartsNo who op
    → IsOut who db.sessions
    → IsOut who (run op db).sessions
unfolding run issue_session claim_token mint_token revoke_found revoke_family revoke_sessions
run-IsOut who (issue env fresh user_id now) db ne h =
    All-append (λ s. who s.id s.user_id ≡ true → s.is_revoked ≡ true) db.sessions _ h
      ((λ same. cc), tt)
run-IsOut who (mint env fresh now f) db ne h =
    All-update (λ s. who s.id s.user_id ≡ true → s.is_revoked ≡ true) _ _ db.sessions (λ s k e. k) h
run-IsOut who (claim id) db ne h = h
run-IsOut who (revoke action f now) db ne h =
    All-update (λ s. who s.id s.user_id ≡ true → s.is_revoked ≡ true) _ (as_revoked_session now)
      db.sessions (λ s k e same. refl) h
run-IsOut who (revoke_user user_id ids now) db ne h =
    All-update (λ s. who s.id s.user_id ≡ true → s.is_revoked ≡ true) _ (as_revoked_session now)
      db.sessions (λ s k e same. refl) h

pub run_all-IsOut :
    (who : Who) (ops : List Op) (db : Db)
    → All (StartsNo who) ops
    → IsOut who db.sessions
    → IsOut who (run_all ops db).sessions
unfolding run_all
run_all-IsOut who [] db ne h = h
run_all-IsOut who (op ∷ ops) db (ne, nes) h =
    run_all-IsOut who ops (run op db) nes (run-IsOut who op db ne h)

-- No rotation succeeds for a chosen session.
pub rotate-out :
    (who : Who) (env : Env) (fresh : Fresh) (now raw : ℕ) (f : Found) (db : Db)
    → IsOut who db.sessions
    → find_token env raw db ≡ some f
    → who f.session.id f.session.user_id ≡ true
    → is_ok (rotate env fresh now raw db).0 ≡ false
unfolding check_token
rotate-out who env fresh now raw f db out found chosen =
    elim (Bool-cases (is_ok (rotate env fresh now raw db).0)) [
      | inl good ↦
          let r = rotate-Rotation env fresh now raw db _ _ refl good in
          let same : f ≡ r.found = some-injective f r.found (sym found ∙ r.was_found) in
          let (_, there) = find_token-found env raw db f found in
          let gone =
            find_where-All (λ s. who s.id s.user_id ≡ true → s.is_revoked ≡ true) _ db.sessions
              f.session out there chosen in
          let alive : check_token now f ≡ live = ap (check_token now) same ∙ r.was_live in
          absurd (ground arith)
      | inr bad ↦ bad
    ]

-- After a logout by a refresh token that is known, no token of its session can be rotated, whatever
-- other calls write since, if none of them starts a session under the same id.
pub revoke_by_refresh_token-out :
    (env env' : Env) (fresh : Fresh) (raw raw' now now' : ℕ) (f f' : Found) (ops : List Op)
    (db : Db)
    → find_token env raw db ≡ some f
    → All (StartsNo (of_session f.token.session_id)) ops
    → find_token env' raw' (run_all ops (revoke_by_refresh_token env raw now db).1) ≡ some f'
    → f'.session.id ≡ f.token.session_id
    → is_ok (rotate env' fresh now' raw' (run_all ops (revoke_by_refresh_token env raw now db).1)).0
      ≡ false
unfolding revoke_by_refresh_token
revoke_by_refresh_token-out env env' fresh raw raw' now now' f f' ops db found ne found' same =
    let who = of_session f.token.session_id in
    let out : IsOut who (revoke_by_refresh_token env raw now db).1.sessions =
      rw (found, revoke_by_refresh_token)
        (All-map _ _ _ (λ s k e. k (ground arith))
          (revoke_found-IsRevoked session_logged_out f now db).1) in
    rotate-out who env' fresh now' raw' f' _ (run_all-IsOut who ops _ ne out) found' (ground arith)

-- The ids that `revokeAllForUser` reads in a table.
abbrev ids_of : ℕ → List Session → List ℕ
ids_of user_id ss =
    map (λ s. s.id) (filter_where (λ s. s.user_id == user_id && not s.is_revoked) ss)

is_in-here :
    (user_id : ℕ) (s : Session) (ss : List Session)
    → s.user_id ≡ user_id
    → s.is_revoked ≡ false
    → is_in s.id (ids_of user_id (s ∷ ss)) ≡ true
is_in-here user_id s ss mine here =
    let chosen : (s.user_id == user_id && not s.is_revoked) ≡ true = ground arith in
    rw chosen (ground arith)

is_in-there :
    (user_id id : ℕ) (s : Session) (ss : List Session)
    → is_in id (ids_of user_id ss) ≡ true
    → is_in id (ids_of user_id (s ∷ ss)) ≡ true
is_in-there user_id id s ss h = elim (Bool-cases (s.user_id == user_id && not s.is_revoked)) [
  | inl e ↦ rw e (ground arith)
  | inr e ↦ rw e h
]

-- That read gets every session of the user that is not revoked.
live_sessions_complete :
    (user_id : ℕ) (ss : List Session)
    → All
        (λ s. s.user_id ≡ user_id → s.is_revoked ≡ false → is_in s.id (ids_of user_id ss) ≡ true)
        ss
live_sessions_complete user_id [] = tt
live_sessions_complete user_id (s ∷ ss) = (
  is_in-here user_id s ss,
  All-map _ _ ss (λ t k a b. is_in-there user_id t.id s ss (k a b))
      (live_sessions_complete user_id ss),
)

revoked-IsOut :
    (user_id now : ℕ) (ids : List ℕ) (ss : List Session)
    → All (λ s. s.user_id ≡ user_id → s.is_revoked ≡ false → is_in s.id ids ≡ true) ss
    → IsOut
        (of_user user_id)
        (update_where (λ s. is_in s.id ids && not s.is_revoked) (as_revoked_session now) ss)
revoked-IsOut user_id now ids [] h = tt
revoked-IsOut user_id now ids (s ∷ ss) (h, hs) = (
  elim (Bool-cases (is_in s.id ids && not s.is_revoked)) [
    | inl e ↦ rw e (λ _. refl)
    | inr e ↦ rw e (λ mine. elim (Bool-cases s.is_revoked) [
      | inl gone ↦ gone
      | inr here ↦ let listed = h (ground arith) here in ground arith
    ])
  ],
  revoked-IsOut user_id now ids ss hs,
)

none-IsOut :
    (user_id : ℕ) (ss : List Session)
    → All (λ s. s.user_id ≡ user_id → s.is_revoked ≡ false → is_in s.id [] ≡ true) ss
    → IsOut (of_user user_id) ss
none-IsOut user_id ss h =
    All-map _ _ ss
      (λ s k mine. elim (Bool-cases s.is_revoked) [
        | inl gone ↦ gone
        | inr here ↦ let listed : false ≡ true = k (ground arith) here in absurd (cc)
      ])
      h

revoke_all_for_user-of :
    (user_id now : ℕ) (db : Db) (ids : List ℕ)
    → live_sessions user_id db ≡ ids
    → All (λ s. s.user_id ≡ user_id → s.is_revoked ≡ false → is_in s.id ids ≡ true) db.sessions
    → IsOut (of_user user_id) (revoke_all_for_user user_id now db).1.sessions
unfolding revoke_all_for_user revoke_sessions
revoke_all_for_user-of user_id now db [] e h =
    rw (e, revoke_all_for_user) (none-IsOut user_id db.sessions h)
revoke_all_for_user-of user_id now db (id ∷ ids) e h =
    rw (e, revoke_all_for_user) (revoked-IsOut user_id now (id ∷ ids) db.sessions h)

revoke_all_for_user-IsOut :
    (user_id now : ℕ) (db : Db)
    → IsOut (of_user user_id) (revoke_all_for_user user_id now db).1.sessions
revoke_all_for_user-IsOut user_id now db =
    revoke_all_for_user-of user_id now db (live_sessions user_id db) refl
      (live_sessions_complete user_id db.sessions)

-- After a logout everywhere, no token of a session of that user can be rotated, whatever other
-- calls write since, if none of them starts a session for the user.
pub revoke_all_for_user-out :
    (env : Env) (fresh : Fresh) (user_id raw now now' : ℕ) (f : Found) (ops : List Op) (db : Db)
    → All (StartsNo (of_user user_id)) ops
    → find_token env raw (run_all ops (revoke_all_for_user user_id now db).1) ≡ some f
    → f.session.user_id ≡ user_id
    → is_ok (rotate env fresh now' raw (run_all ops (revoke_all_for_user user_id now db).1)).0
      ≡ false
revoke_all_for_user-out env fresh user_id raw now now' f ops db ne found mine =
    let who = of_user user_id in
    rotate-out who env fresh now' raw f _
      (run_all-IsOut who ops _ ne (revoke_all_for_user-IsOut user_id now db)) found (ground arith)
