-- ===== src/Sessions/Rotate.antt =====
-- src/services/refresh-token.service.ts: `rotate`.
use learnault_api.Base.{ℕ, ◌+◌, Bool, ◌&&◌, none, some, [], ◌∷◌, ◌++◌, ◌==◌, leb, if◌then◌else◌}
use learnault_api.Base.Table.{update_where, count_where}
use learnault_api.Sessions.{
  TokenStatus, active, RefreshToken, reuse_detected, Db, Env, Fresh, is_active, is_rotated,
  is_revoked_status,
}
use learnault_api.Sessions.Revoke.{Found, find_token, revoke_found}

pub data RotateResult : Type 0 where
  rotate_ok : ℕ → ℕ → ℕ → RotateResult
  invalid reuse revoked expired : RotateResult

-- What the guards of `rotate` decide about the row that was read.
pub data Verdict : Type 0 where
  replayed live : Verdict
  dead : RotateResult → Verdict

unfoldable pub check_token : ℕ → Found → Verdict
check_token now f =
    if is_rotated f.token.status
    then replayed
    else if is_revoked_status f.token.status
    then dead RotateResult.revoked
    else if leb f.token.expires_at now
    then dead expired
    else if f.session.is_revoked
    then dead RotateResult.revoked
    else if leb f.session.expires_at now
    then dead expired
    else live

abbrev pub is_claimable : ℕ → RefreshToken → Bool
is_claimable id t = t.id == id && is_active t.status

abbrev pub as_rotated : RefreshToken → RefreshToken
as_rotated t = record t { status = TokenStatus.rotated }

-- The atomic claim: `claimed.count` and the database.
unfoldable pub claim_token : ℕ → Db → ℕ × Db
claim_token id db = (
  count_where (is_claimable id) db.tokens,
  record db { tokens = update_where (is_claimable id) as_rotated db.tokens },
)

-- The transaction that stores the next token of the family. The session of a token is there, as the
-- foreign key says, so its update does not throw.
unfoldable pub mint_token : Env → Fresh → ℕ → Found → Db → Db
mint_token env fresh now f db =
    let token : RefreshToken = record {
      id = fresh.token_id;
      session_id = f.token.session_id;
      family_id = f.token.family_id;
      token_hash = env.hash fresh.refresh_token;
      status = active;
      expires_at = now + env.ttl_ms;
    } in
    record db {
      tokens = db.tokens ++ token ∷ [];
      sessions =
          update_where (λ s. s.id == f.token.session_id)
            (λ s. record s {
              token = env.access_token f.session.user_id now;
              last_used_at = some now;
            })
            db.sessions;
    }

-- `rotate` after the claim.
unfoldable pub after_claim : Env → Fresh → ℕ → Found → ℕ → Db → RotateResult × Db
unfolding mint_token revoke_found
after_claim env fresh now f count db =
    if count == 0 then (reuse, revoke_found reuse_detected f now db) else (
      rotate_ok (env.access_token f.session.user_id now) fresh.refresh_token env.access_ttl_seconds,
      mint_token env fresh now f db,
    )

-- `rotate` after its read.
unfoldable pub after_read : Env → Fresh → ℕ → Found → Db → RotateResult × Db
unfolding check_token claim_token after_claim
after_read env fresh now f db = elim (check_token now f) [
  | replayed ↦ (reuse, revoke_found reuse_detected f now db)
  | dead r ↦ (r, db)
  | live ↦ let (count, db') = claim_token f.token.id db in after_claim env fresh now f count db'
]

-- `rotate`, with no other call in between.
unfoldable pub rotate : Env → Fresh → ℕ → ℕ → Db → RotateResult × Db
unfolding after_read
rotate env fresh now raw db = elim (find_token env raw db) [
  | none ↦ (invalid, db)
  | some f ↦ after_read env fresh now f db
]
