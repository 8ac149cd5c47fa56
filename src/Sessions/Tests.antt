-- ===== src/Sessions/Tests.antt =====
-- Sessions on concrete inputs, and their theorems applied.
use mathlib.Core.Path.{subst}
use mathlib.Core.Option.{some-injective}
use learnault_api.Base.{
  sym, ◌∙◌, ℕ, ◌+◌, ◌≡◌, ◌≢◌, refl, true, false, none, some, List, [], ◌∷◌, arith,
}
use learnault_api.Sessions.{TokenStatus, RefreshToken, Session, Db, Env, Fresh}
use learnault_api.Sessions.Revoke.{
  Found, find_token, revoke_family, revoke_found, revoke_by_refresh_token, revoke_sessions,
  revoke_all_for_user,
}
use learnault_api.Sessions.Rotate.{
  rotate_ok, reuse, live, check_token, claim_token, mint_token, after_claim, after_read, rotate,
}
use learnault_api.Sessions.Steps.{Op, issue, run_all}
use learnault_api.Sessions.Once.{IsRevoked, rotate_loser}
use learnault_api.Sessions.Replay.{is_ok, rotate_once}
use learnault_api.Base.{◌==◌}
use learnault_api.Base.Table.{find_where}
use learnault_api.Sessions.Revoke.{as_revoked_session}
use learnault_api.Sessions.Manage.{
  is_same, revoke_one, revoke_found_session, revoke_all, list_sessions, to_session_view,
}
use learnault_api.Sessions.Managed.{revoke_one-out, revoke_all-out}
use learnault_api.Sessions.LoggedOut.{revoke_by_refresh_token-out}

abbrev env : Env
env = record {
  hash = λ raw. raw + 1000;
  ttl_ms = 1_000;
  access_token = λ user now. user + now;
  access_ttl_seconds = 900;
}

abbrev token : RefreshToken
token = record {
  id = 1;
  session_id = 2;
  family_id = 3;
  token_hash = 1050;
  status = TokenStatus.active;
  expires_at = 1_100;
}

abbrev session : Session
session = record {
  id = 2;
  user_id = 9;
  token = 109;
  is_revoked = false;
  revoked_at = none;
  expires_at = 1_100;
  last_used_at = none;
}

abbrev db : Db
db = record { sessions = session ∷ []; tokens = token ∷ []; audit = [] }

abbrev found : Found
found = record { token = token; session = session }

abbrev fresh : Fresh
fresh = record { refresh_token = 51; session_id = 12; token_id = 13; family_id = 14 }

abbrev login : Fresh
login = record { refresh_token = 61; session_id = 22; token_id = 23; family_id = 24 }

abbrev rotated_db : Db
rotated_db = record {
  sessions = record session { token = 209; last_used_at = some 200 } ∷ [];
  tokens =
      record token { status = TokenStatus.rotated }
      ∷ record token { id = 13; token_hash = 1051; expires_at = 1_200 }
      ∷ [];
  audit = [];
}

finds : find_token env 50 db ≡ some found
unfolding find_token
finds = refl

rotates : rotate env fresh 200 50 db ≡ (rotate_ok 209 51 900, rotated_db)
unfolding rotate after_read check_token claim_token after_claim mint_token find_token
rotates = refl

is_new : (f : Found) → find_token env 50 db ≡ some f → (n : ℕ) → n ≢ 1 → n ≢ f.token.id
is_new f e n ne = subst (λ (x : Found). n ≢ x.token.id) (some-injective found f (sym finds ∙ e)) ne

-- Whoever logs in meanwhile.
abbrev others : List Op
others = issue env login 9 250 ∷ []

rotate_once_example : is_ok (rotate env login 300 50 (run_all others rotated_db)).0 ≡ false
rotate_once_example =
    rotate_once env fresh login 200 300 50 others db rotated_db (rotate_ok 209 51 900) rotates refl
      (λ f e. is_new f e 13 (ground arith)) (λ f e. (is_new f e 23 (ground arith), tt))

is_live : check_token 200 found ≡ live
unfolding check_token
is_live = refl

rotate_loser_example :
    ((after_read env fresh 200 found (run_all others (claim_token 1 db).1)).0 ≡ reuse)
    × IsRevoked found (after_read env fresh 200 found (run_all others (claim_token 1 db).1)).1
rotate_loser_example = rotate_loser env fresh 200 found others db is_live ((ground arith), tt)

abbrev out_db : Db
out_db = (revoke_by_refresh_token env 50 300 rotated_db).1

finds_rotated :
    find_token env 50 rotated_db
    ≡ some (record {
      token = record token { status = TokenStatus.rotated };
      session = record session { token = 209; last_used_at = some 200 };
    })
unfolding find_token
finds_rotated = refl

finds_new :
    find_token env 51 (run_all [] out_db)
    ≡ some (record {
      token = record token {
        id = 13;
        token_hash = 1051;
        expires_at = 1_200;
        status = TokenStatus.revoked;
      };
      session = record session {
        token = 209;
        last_used_at = some 200;
        is_revoked = true;
        revoked_at = some 300;
      };
    })
unfolding run_all revoke_by_refresh_token revoke_found revoke_family find_token
finds_new = refl

revoke_by_refresh_token-out_example : is_ok (rotate env fresh 400 51 (run_all [] out_db)).0 ≡ false
revoke_by_refresh_token-out_example =
    revoke_by_refresh_token-out env env fresh 50 51 300 400 _ _ [] rotated_db finds_rotated tt
      finds_new refl

abbrev all_out_db : Db
all_out_db = (revoke_all_for_user 9 300 rotated_db).1

finds_gone :
    find_token env 51 (run_all [] all_out_db)
    ≡ some (record {
      token = record token {
        id = 13;
        token_hash = 1051;
        expires_at = 1_200;
        status = TokenStatus.revoked;
      };
      session = record session {
        token = 209;
        last_used_at = some 200;
        is_revoked = true;
        revoked_at = some 300;
      };
    })
unfolding run_all revoke_all_for_user revoke_sessions find_token
finds_gone = refl

-- The user revokes the session from another one, 77, and the token of the first is presented again.
revoke_one-out_example :
    (is_same (some 77) 2 ≡ false)
    × ((s : Session) × (find_where (λ t. t.id == 2) db.sessions ≡ some s) × (s.user_id ≡ 9))
    × (is_ok (rotate env fresh 60 50 (revoke_one 9 2 (some 77) 20 db).1).0 ≡ false)
unfolding revoke_one revoke_found_session run_all find_token
revoke_one-out_example =
    revoke_one-out 9 2 (some 77) 20 db [] env fresh 50 60
      (record { token = token; session = as_revoked_session 20 session }) refl tt refl refl

revoke_all-out_example :
    (is_ok (rotate env fresh 60 50 (revoke_all 9 (some 77) 20 db).1).0 ≡ false)
    × (find_where (λ s. s.id == 77) (revoke_all 9 (some 77) 20 db).1.sessions
        ≡ find_where (λ s. s.id == 77) db.sessions)
unfolding revoke_all run_all find_token
revoke_all-out_example =
    revoke_all-out 9 77 20 db [] env fresh 50 60
      (record { token = token; session = as_revoked_session 20 session }) tt (omega arith) refl refl
      (λ e. absurd (omega arith))

lists_current_first :
    (list_sessions 9
      (some 3)
      1
      10
      20
      (record db { sessions = session ∷ record session { id = 3 } ∷ [] })).0
    ≡ to_session_view (some 3) (record session { id = 3 }) ∷ to_session_view (some 3) session ∷ []
unfolding list_sessions
lists_current_first = refl

-- The current session has the highest id, and is not on the first page.
misses_current :
    (list_sessions 9
      (some 3)
      1
      1
      20
      (record db { sessions = session ∷ record session { id = 3 } ∷ [] })).0
    ≡ to_session_view (some 3) session ∷ []
unfolding list_sessions
misses_current = refl
