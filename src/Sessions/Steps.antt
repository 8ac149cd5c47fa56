-- ===== src/Sessions/Steps.antt =====
-- refresh-token.service.ts: the writes of all calls, each as one step, in any order and interleaving.
use learnault_api.Base.{ℕ, List, [], ◌∷◌}
use learnault_api.Sessions.{AuditAction, Db, Env, Fresh}
use learnault_api.Sessions.Revoke.{Found, issue_session, revoke_found, revoke_sessions}
use learnault_api.Sessions.Rotate.{claim_token, mint_token}

-- A step carries what its call read before, which need not be up to date any more.
pub data Op : Type 0 where
  issue : Env → Fresh → ℕ → ℕ → Op
  claim : ℕ → Op
  mint : Env → Fresh → ℕ → Found → Op
  revoke : AuditAction → Found → ℕ → Op
  revoke_user : ℕ → List ℕ → ℕ → Op

unfoldable pub run : Op → Db → Db
run (issue env fresh user_id now) db = (issue_session env fresh user_id now db).1
run (claim id) db = (claim_token id db).1
run (mint env fresh now f) db = mint_token env fresh now f db
run (revoke action f now) db = revoke_found action f now db
run (revoke_user user_id ids now) db = revoke_sessions user_id ids now db

unfoldable pub run_all : List Op → Db → Db
run_all [] db = db
run_all (op ∷ ops) db = run_all ops (run op db)
