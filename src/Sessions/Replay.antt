-- ===== src/Sessions/Replay.antt =====
-- refresh-token.service.ts: a rotated token that is presented again.
use mathlib.Core.Path.{subst}
use mathlib.Core.Option.{some-injective}
use learnault_api.Base.{
  ℕ, ◌≡◌, ◌≢◌, refl, sym, ap, ◌∙◌, Bool, true, false, some, List, [], ◌∷◌, ◌++◌, ◌==◌, Option-cases,
  Bool-cases, inl, inr, ◌⊎◌, arith, if◌then◌else◌,
}
use learnault_api.Base.Table.{find_where, update_where, All}
use learnault_api.Base.Rows.{find_where-All, find_where-update_where}
use learnault_api.Sessions.{RefreshToken, Db, Env, Fresh, is_active}
use learnault_api.Sessions.Revoke.{
  issue_session, as_revoked_token, Found, find_token, revoke_family, revoke_found, revoke_sessions,
}
use learnault_api.Sessions.Rotate.{
  RotateResult, rotate_ok, Verdict, live, replayed, dead, check_token, as_rotated, claim_token,
  mint_token, after_claim, after_read, rotate,
}
use learnault_api.Sessions.Steps.{Op, issue, claim, mint, revoke, revoke_user, run, run_all}
use learnault_api.Sessions.Once.{IsSpent, MakesNo, run_all-IsSpent, claim_token-IsSpent}

-- What a successful rotation found and did.
pub record Rotation (env : Env) (fresh : Fresh) (now raw : ℕ) (db db' : Db) : Type 0 where
  pub found : Found
  pub was_found : find_token env raw db ≡ some found
  pub was_live : check_token now found ≡ live
  pub was_claimed : (claim_token found.token.id db).0 ≢ 0
  pub minted : db' ≡ mint_token env fresh now found (claim_token found.token.id db).1

abbrev pub is_ok : RotateResult → Bool
is_ok (rotate_ok _ _ _) = true
is_ok _ = false

Verdict-cases : (v : Verdict) → (v ≡ live) ⊎ ((v ≡ replayed) ⊎ ((r : RotateResult) × (v ≡ dead r)))
Verdict-cases live = inl refl
Verdict-cases replayed = inr (inl refl)
Verdict-cases (dead r) = inr (inr (r, refl))

check_token-dead :
    (now : ℕ) (f : Found) (r : RotateResult) → check_token now f ≡ dead r → is_ok r ≡ false
unfolding check_token
check_token-dead now f r h = ground arith

-- A rotation that hands out tokens found a token that was live, won its claim, and stored the next one.
pub rotate-Rotation :
    (env : Env) (fresh : Fresh) (now raw : ℕ) (db db' : Db) (r : RotateResult)
    → rotate env fresh now raw db ≡ (r, db')
    → is_ok r ≡ true
    → Rotation env fresh now raw db db'
unfolding rotate after_read after_claim
rotate-Rotation env fresh now raw db db' r h good = elim (Option-cases (find_token env raw db)) [
  | inl missing ↦ absurd (ground arith)
  | inr (f, found) ↦ elim (Verdict-cases (check_token now f)) [
    | inl alive ↦ elim (Bool-cases ((claim_token f.token.id db).0 == 0)) [
      | inl lost ↦ absurd (ground arith)
      | inr won ↦ record {
        found = f;
        was_found = found;
        was_live = alive;
        was_claimed = ground arith;
        minted = ground arith;
      }
    ]
    | inr (inl again) ↦ absurd (ground arith)
    | inr (inr (x, no_more)) ↦ let bad = check_token-dead now f x no_more in absurd (ground arith)
  ]
]

pub find_token-found :
    (env : Env) (raw : ℕ) (db : Db) (f : Found)
    → find_token env raw db ≡ some f
    → (find_where (λ t. t.token_hash == env.hash raw) db.tokens ≡ some f.token)
      × (find_where (λ s. s.id == f.token.session_id) db.sessions ≡ some f.session)
unfolding find_token
find_token-found env raw db f h =
    elim (Option-cases (find_where (λ t. t.token_hash == env.hash raw) db.tokens)) [
      | inl e ↦ absurd (ground arith)
      | inr (t, e) ↦ elim (Option-cases (find_where (λ s. s.id == t.session_id) db.sessions)) [
        | inl e' ↦ absurd (ground arith)
        | inr (s, e') ↦ (ground arith, ground arith)
      ]
    ]

live-active : (now : ℕ) (f : Found) → check_token now f ≡ live → is_active f.token.status ≡ true
unfolding check_token
live-active now f h = ground arith

-- The row that is found under a hash has the id.
abbrev Finds : ℕ → ℕ → List RefreshToken → Type 0
Finds hash id ts =
    (t : RefreshToken) × (find_where (λ t. t.token_hash == hash) ts ≡ some t) × (t.id ≡ id)

find_where-append :
    (p : RefreshToken → Bool) (xs ys : List RefreshToken) (t : RefreshToken)
    → find_where p xs ≡ some t
    → find_where p (xs ++ ys) ≡ some t
find_where-append p [] ys t h = absurd (cc)
find_where-append p (x ∷ xs) ys t h = elim (Bool-cases (p x)) [
  | inl e ↦ rw e (rw e at h)
  | inr e ↦ rw e (find_where-append p xs ys t (rw e at h))
]

Finds-append :
    (hash id : ℕ) (xs ys : List RefreshToken) → Finds hash id xs → Finds hash id (xs ++ ys)
Finds-append hash id xs ys (t, h, same) = (t, find_where-append _ xs ys t h, same)

Finds-update :
    (hash id : ℕ) (p : RefreshToken → Bool) (f : RefreshToken → RefreshToken)
    (xs : List RefreshToken)
    → ((t : RefreshToken) → ((f t).token_hash ≡ t.token_hash) × ((f t).id ≡ t.id))
    → Finds hash id xs
    → Finds hash id (update_where p f xs)
Finds-update hash id p f xs keep (t, h, same) =
    let row =
      find_where-update_where (λ t. t.token_hash == hash) p f xs (λ t. ground (arith, keep t)) in
    (
      if p t then f t else t,
      row ∙ rw h refl,
      elim (Bool-cases (p t)) [ inl e ↦ rw e ((keep t).1 ∙ same) | inr e ↦ rw e same ],
    )

run-Finds :
    (hash id : ℕ) (op : Op) (db : Db) → Finds hash id db.tokens → Finds hash id (run op db).tokens
unfolding run issue_session claim_token mint_token revoke_found revoke_family revoke_sessions
run-Finds hash id (issue env fresh user_id now) db h = Finds-append hash id db.tokens _ h
run-Finds hash id (mint env fresh now f) db h = Finds-append hash id db.tokens _ h
run-Finds hash id (claim id') db h =
    Finds-update hash id _ as_rotated db.tokens (λ t. (refl, refl)) h
run-Finds hash id (revoke action f now) db h =
    Finds-update hash id _ as_revoked_token db.tokens (λ t. (refl, refl)) h
run-Finds hash id (revoke_user user_id ids now) db h =
    Finds-update hash id _ as_revoked_token db.tokens (λ t. (refl, refl)) h

run_all-Finds :
    (hash id : ℕ) (ops : List Op) (db : Db)
    → Finds hash id db.tokens
    → Finds hash id (run_all ops db).tokens
unfolding run_all
run_all-Finds hash id [] db h = h
run_all-Finds hash id (op ∷ ops) db h =
    run_all-Finds hash id ops (run op db) (run-Finds hash id op db h)

-- No token is found live under a hash whose row is spent.
spent-not_ok :
    (env : Env) (fresh : Fresh) (now raw id : ℕ) (db : Db)
    → Finds (env.hash raw) id db.tokens
    → IsSpent id db.tokens
    → is_ok (rotate env fresh now raw db).0 ≡ false
spent-not_ok env fresh now raw id db (t, there, same) spent =
    elim (Bool-cases (is_ok (rotate env fresh now raw db).0)) [
      | inl good ↦
          let r = rotate-Rotation env fresh now raw db _ _ refl good in
          let (row, _) = find_token-found env raw db r.found r.was_found in
          let is_t : t ≡ r.found.token = some-injective t r.found.token (sym there ∙ row) in
          let gone =
            find_where-All (λ t. t.id ≡ id → is_active t.status ≡ false) _ db.tokens t spent there
              same in
          let here = live-active now r.found r.was_live in absurd (cc)
      | inr bad ↦ bad
    ]

-- A refresh token works once: after it was rotated, whatever is issued, claimed, minted and revoked
-- since, presenting it again never yields tokens, if all new tokens have other ids than it.
pub rotate_once :
    (env : Env) (fresh fresh' : Fresh) (now now' raw : ℕ) (ops : List Op) (db db' : Db)
    (r : RotateResult)
    → rotate env fresh now raw db ≡ (r, db')
    → is_ok r ≡ true
    → ((f : Found) → find_token env raw db ≡ some f → fresh.token_id ≢ f.token.id)
    → ((f : Found) → find_token env raw db ≡ some f → All (MakesNo f.token.id) ops)
    → is_ok (rotate env fresh' now' raw (run_all ops db')).0 ≡ false
unfolding run
rotate_once env fresh fresh' now now' raw ops db db' r h good new others =
    let t = rotate-Rotation env fresh now raw db db' r h good in
    let id = t.found.token.id in
    let (row, _) = find_token-found env raw db t.found t.was_found in
    let steps = claim id ∷ mint env fresh now t.found ∷ ops in
    let same : run_all steps db ≡ run_all ops db' =
      unfold run_all in ap (run_all ops) (sym t.minted) in
    subst (λ x. is_ok (rotate env fresh' now' raw x).0 ≡ false) same
      (spent-not_ok env fresh' now' raw id (run_all steps db)
        (run_all-Finds (env.hash raw) id steps db (t.found.token, row, refl))
        (unfold run_all in
          run_all-IsSpent id (mint env fresh now t.found ∷ ops) _
            (new t.found t.was_found, others t.found t.was_found) (claim_token-IsSpent id db)))
