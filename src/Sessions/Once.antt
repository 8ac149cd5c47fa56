-- ===== src/Sessions/Once.antt =====
-- refresh-token.service.ts: rotations that race for one token.
use learnault_api.Base.{
  ℕ, ◌≡◌, ◌≢◌, refl, true, false, not, ◌&&◌, List, [], ◌∷◌, ◌==◌, Bool-cases, inl, inr, arith,
}
use learnault_api.Base.Table.{update_where, count_where, All, All-update, All-append}
use learnault_api.Sessions.{
  AuditAction, TokenStatus, RefreshToken, Session, Db, Env, Fresh, is_active, is_revoked_status,
  reuse_detected,
}
use learnault_api.Sessions.Revoke.{
  issue_session, as_revoked_token, as_revoked_session, Found, revoke_family, revoke_found,
  revoke_sessions,
}
use learnault_api.Sessions.Rotate.{
  reuse, live, check_token, is_claimable, as_rotated, claim_token, mint_token, after_claim,
  after_read,
}
use learnault_api.Sessions.Steps.{Op, issue, claim, mint, revoke, revoke_user, run, run_all}

-- No row with the id is active.
abbrev pub IsSpent : ℕ → List RefreshToken → Type 0
IsSpent id ts = All (λ t. t.id ≡ id → is_active t.status ≡ false) ts

-- A step that creates a token creates one with another id.
abbrev pub MakesNo : ℕ → Op → Type 0
MakesNo id (issue env fresh user_id now) = fresh.token_id ≢ id
MakesNo id (mint env fresh now f) = fresh.token_id ≢ id
MakesNo id _ = Unit

run-IsSpent :
    (id : ℕ) (op : Op) (db : Db)
    → MakesNo id op
    → IsSpent id db.tokens
    → IsSpent id (run op db).tokens
unfolding run issue_session claim_token mint_token revoke_found revoke_family revoke_sessions
run-IsSpent id (issue env fresh user_id now) db ne h =
    All-append (λ t. t.id ≡ id → is_active t.status ≡ false) db.tokens _ h
      ((λ same. absurd (ne same)), tt)
run-IsSpent id (mint env fresh now f) db ne h =
    All-append (λ t. t.id ≡ id → is_active t.status ≡ false) db.tokens _ h
      ((λ same. absurd (ne same)), tt)
run-IsSpent id (claim id') db ne h =
    All-update (λ t. t.id ≡ id → is_active t.status ≡ false) (is_claimable id') as_rotated db.tokens
      (λ t k e same. refl) h
run-IsSpent id (revoke action f now) db ne h =
    All-update (λ t. t.id ≡ id → is_active t.status ≡ false) _ as_revoked_token db.tokens
      (λ t k e same. refl) h
run-IsSpent id (revoke_user user_id ids now) db ne h =
    All-update (λ t. t.id ≡ id → is_active t.status ≡ false) _ as_revoked_token db.tokens
      (λ t k e same. refl) h

pub run_all-IsSpent :
    (id : ℕ) (ops : List Op) (db : Db)
    → All (MakesNo id) ops
    → IsSpent id db.tokens
    → IsSpent id (run_all ops db).tokens
unfolding run_all
run_all-IsSpent id [] db ne h = h
run_all-IsSpent id (op ∷ ops) db (ne, nes) h =
    run_all-IsSpent id ops (run op db) nes (run-IsSpent id op db ne h)

claimed-IsSpent :
    (id : ℕ) (ts : List RefreshToken) → IsSpent id (update_where (is_claimable id) as_rotated ts)
claimed-IsSpent id [] = tt
claimed-IsSpent id (t ∷ ts) = (
  elim (Bool-cases (is_claimable id t)) [
    | inl e ↦ rw e (λ _. refl)
    | inr e ↦ rw e (λ same. ground arith)
  ],
  claimed-IsSpent id ts,
)

pub claim_token-IsSpent : (id : ℕ) (db : Db) → IsSpent id (claim_token id db).1.tokens
unfolding claim_token
claim_token-IsSpent id db = claimed-IsSpent id db.tokens

IsSpent-count :
    (id : ℕ) (ts : List RefreshToken) → IsSpent id ts → count_where (is_claimable id) ts ≡ 0
IsSpent-count id [] h = refl
IsSpent-count id (t ∷ ts) (h, hs) = elim (Bool-cases (is_claimable id t)) [
  | inl e ↦ let gone = h (ground arith) in absurd (ground arith)
  | inr e ↦ rw e (IsSpent-count id ts hs)
]

-- No row passes the filter that `revokeFamily` updates by.
family-revoked :
    (family_id : ℕ) (ts : List RefreshToken)
    → All
        (λ t. t.family_id ≡ family_id → t.status ≡ TokenStatus.revoked)
        (update_where
          (λ t. t.family_id == family_id && not (is_revoked_status t.status))
          as_revoked_token
          ts)
family-revoked family_id [] = tt
family-revoked family_id (t ∷ ts) = (
  elim (Bool-cases (t.family_id == family_id && not (is_revoked_status t.status))) [
    | inl e ↦ rw e (λ _. refl)
    | inr e ↦ rw e (λ same. ground arith)
  ],
  family-revoked family_id ts,
)

session-revoked :
    (id now : ℕ) (ss : List Session)
    → All
        (λ s. s.id ≡ id → s.is_revoked ≡ true)
        (update_where (λ s. s.id == id && not s.is_revoked) (as_revoked_session now) ss)
session-revoked id now [] = tt
session-revoked id now (s ∷ ss) = (
  elim (Bool-cases (s.id == id && not s.is_revoked)) [
    | inl e ↦ rw e (λ _. refl)
    | inr e ↦ rw e (λ same. ground arith)
  ],
  session-revoked id now ss,
)

-- The session of the token and every token of its family are revoked.
abbrev pub IsRevoked : Found → Db → Type 0
IsRevoked f db =
    All (λ t. t.family_id ≡ f.token.family_id → t.status ≡ TokenStatus.revoked) db.tokens
    × All (λ s. s.id ≡ f.token.session_id → s.is_revoked ≡ true) db.sessions

pub revoke_found-IsRevoked :
    (action : AuditAction) (f : Found) (now : ℕ) (db : Db)
    → IsRevoked f (revoke_found action f now db)
unfolding revoke_found revoke_family
revoke_found-IsRevoked action f now db =
    (family-revoked f.token.family_id db.tokens, session-revoked f.token.session_id now db.sessions)

after_read-lost :
    (env : Env) (fresh : Fresh) (now : ℕ) (f : Found) (db : Db)
    → check_token now f ≡ live
    → (claim_token f.token.id db).0 ≡ 0
    → after_read env fresh now f db
      ≡ (reuse, revoke_found reuse_detected f now (claim_token f.token.id db).1)
unfolding after_read after_claim
after_read-lost env fresh now f db ok_row lost = rw (ok_row, after_read, lost, after_claim) refl

-- Of the calls that read a token while it was live only one wins: after another call's claim,
-- whatever is issued, claimed, minted and revoked in between under other token ids, the call
-- reports reuse and leaves the session and the family revoked.
pub rotate_loser :
    (env : Env) (fresh : Fresh) (now : ℕ) (f : Found) (ops : List Op) (db : Db)
    → check_token now f ≡ live
    → All (MakesNo f.token.id) ops
    → ((after_read env fresh now f (run_all ops (claim_token f.token.id db).1)).0 ≡ reuse)
      × IsRevoked f (after_read env fresh now f (run_all ops (claim_token f.token.id db).1)).1
unfolding claim_token
rotate_loser env fresh now f ops db ok_row ne =
    let db' = run_all ops (claim_token f.token.id db).1 in
    let spent = run_all-IsSpent f.token.id ops _ ne (claim_token-IsSpent f.token.id db) in
    rw (after_read-lost env fresh now f db' ok_row (IsSpent-count f.token.id db'.tokens spent))
      (refl, revoke_found-IsRevoked reuse_detected f now _)
