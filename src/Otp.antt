-- ===== src/Otp.antt =====
-- src/services/otp.service.ts: one-time codes by SMS. Ids, phones, purposes, codes and hashes are
-- numbers; times are milliseconds. The answer of the SMS provider is only logged, and is left out.
pub mod Calls
pub mod Guesses
pub mod Race
mod Tests
use learnault_api.Base.{
  ℕ, ◌+◌, Bool, true, false, not, ◌&&◌, Option, none, some, List, [], ◌∷◌, ◌++◌, ◌==◌, leb, ltb,
  if◌then◌else◌,
}
use learnault_api.Base.Table.{update_where}

pub data ChallengeStatus : Type 0 where
  pending consumed expired revoked locked : ChallengeStatus

pub record OtpChallenge : Type 0 where
  pub id : ℕ
  pub user_id : ℕ
  pub phone : ℕ
  pub purpose : ℕ
  pub code_hash : ℕ
  pub status : ChallengeStatus
  pub attempts : ℕ
  pub max_attempts : ℕ
  pub expires_at : ℕ
  pub consumed_at : Option ℕ
  pub created_at : ℕ

abbrev pub is_pending : ChallengeStatus → Bool
is_pending pending = true
is_pending _ = false

-- `OTP_EXPIRY_MS`
abbrev pub otp_expiry_ms : ℕ
otp_expiry_ms = 300_000

-- `OTP_MAX_ATTEMPTS`, the default of the column `maxAttempts`.
abbrev pub otp_max_attempts : ℕ
otp_max_attempts = 5

-- `requestChallenge`, with the random code; `hash_code` is SHA-256 of a code and a phone.
unfoldable pub request_challenge :
    (ℕ → ℕ → ℕ) → ℕ → ℕ → ℕ → ℕ → ℕ → ℕ → List OtpChallenge → List OtpChallenge
request_challenge hash_code phone purpose user_id id code now cs =
    update_where (λ c. c.user_id == user_id && (c.purpose == purpose && is_pending c.status))
      (λ c. record c { status = revoked }) cs
    ++ record {
      id = id;
      user_id = user_id;
      phone = phone;
      purpose = purpose;
      code_hash = hash_code code phone;
      status = pending;
      attempts = 0;
      max_attempts = otp_max_attempts;
      expires_at = now + otp_expiry_ms;
      consumed_at = none;
      created_at = now;
    }
      ∷ []

-- `OtpVerifyResult`
pub data OtpVerifyResult : Type 0 where
  verified : ℕ → OtpVerifyResult
  not_found expired locked mismatch : OtpVerifyResult

-- `findFirst` with `orderBy: { createdAt: 'desc' }`; of rows with one time the first is taken.
abbrev pub newer : OtpChallenge → Option OtpChallenge → Option OtpChallenge
newer c none = some c
newer c (some d) = if ltb c.created_at d.created_at then some d else some c

unfoldable pub newest : (OtpChallenge → Bool) → List OtpChallenge → Option OtpChallenge
newest p [] = none
newest p (c ∷ cs) = if p c then newer c (newest p cs) else newest p cs

abbrev pub is_open : ℕ → ℕ → OtpChallenge → Bool
is_open phone purpose c = c.phone == phone && (c.purpose == purpose && is_pending c.status)

-- `expectedUserId && challenge.userId !== expectedUserId`
abbrev pub is_other_user : Option ℕ → OtpChallenge → Bool
is_other_user none c = false
is_other_user (some user_id) c = not (c.user_id == user_id)

-- The read of `verifyChallenge`, with its first guard.
unfoldable pub find_challenge : ℕ → ℕ → Option ℕ → List OtpChallenge → Option OtpChallenge
unfolding newest
find_challenge phone purpose expected cs = elim (newest (is_open phone purpose) cs) [
  | none ↦ none
  | some c ↦ if is_other_user expected c then none else some c
]

abbrev pub update_challenge :
    ℕ → (OtpChallenge → OtpChallenge) → List OtpChallenge → List OtpChallenge
update_challenge id f cs = update_where (λ c. c.id == id) f cs

abbrev pub as_expired : OtpChallenge → OtpChallenge
as_expired c = record c { status = ChallengeStatus.expired }

abbrev pub as_locked : OtpChallenge → OtpChallenge
as_locked c = record c { status = ChallengeStatus.locked }

abbrev pub as_consumed : ℕ → OtpChallenge → OtpChallenge
as_consumed now c = record c { status = consumed; consumed_at = some now }

-- `{ attempts, ...(lockedOut ? { status: 'LOCKED' } : {}) }`
abbrev pub with_attempts : ℕ → Bool → OtpChallenge → OtpChallenge
with_attempts attempts locked_out c = record c {
  attempts = attempts;
  status = if locked_out then ChallengeStatus.locked else c.status;
}

-- `verifyChallenge` on the row `c` that it read, with the hash of the code that was entered.
unfoldable pub check_challenge :
    ℕ → ℕ → OtpChallenge → List OtpChallenge → OtpVerifyResult × List OtpChallenge
check_challenge code_hash now c cs =
    let attempts = c.attempts + 1 in
    let locked_out = leb c.max_attempts attempts in
    if ltb c.expires_at now
    then (OtpVerifyResult.expired, update_challenge c.id as_expired cs)
    else if leb c.max_attempts c.attempts
    then (OtpVerifyResult.locked, update_challenge c.id as_locked cs)
    else if not (code_hash == c.code_hash)
    then (
      if locked_out then OtpVerifyResult.locked else mismatch,
      update_challenge c.id (with_attempts attempts locked_out) cs,
    )
    else (verified c.user_id, update_challenge c.id (as_consumed now) cs)

-- `verifyChallenge`, with no other call between its read and its write.
unfoldable pub verify_challenge :
    (ℕ → ℕ → ℕ) → ℕ → ℕ → ℕ → Option ℕ → ℕ → List OtpChallenge → OtpVerifyResult × List OtpChallenge
unfolding check_challenge
verify_challenge hash_code phone code purpose expected now cs =
    elim (find_challenge phone purpose expected cs) [
      | none ↦ (not_found, cs)
      | some c ↦ check_challenge (hash_code code phone) now c cs
    ]
