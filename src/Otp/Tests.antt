-- ===== src/Otp/Tests.antt =====
-- One-time codes on concrete inputs, and their theorems applied.
use learnault_api.Base.{ℕ, ◌+◌, ◌*◌, ◌≤◌, ◌≡◌, ◌≢◌, refl, none, some, List, [], ◌∷◌, arith}
use learnault_api.Otp.{
  ChallengeStatus, OtpChallenge, request_challenge, verified, newest, find_challenge,
  check_challenge, verify_challenge,
}
use learnault_api.Otp.Guesses.{wrong_guesses_bounded}
use learnault_api.Otp.Calls.{request, verify, run, run_all, wrong_guesses}
use learnault_api.Otp.Race.{verify_challenge_once, overlapping_verifications_both_pass}

abbrev hash_code : ℕ → ℕ → ℕ
hash_code code phone = code * 7 + phone

abbrev challenge : OtpChallenge
challenge = record {
  id = 1;
  user_id = 9;
  phone = 5;
  purpose = 0;
  code_hash = 866_429;
  status = ChallengeStatus.pending;
  attempts = 0;
  max_attempts = 5;
  expires_at = 300_100;
  consumed_at = none;
  created_at = 100;
}

requests :
    request_challenge hash_code 5 0 9 1 123_775 100 []
    ≡ record challenge { code_hash = 866_430 } ∷ []
unfolding request_challenge
requests = refl

abbrev used : List OtpChallenge
used = record challenge { status = ChallengeStatus.consumed; consumed_at = some 200 } ∷ []

finds : find_challenge 5 0 none (challenge ∷ []) ≡ some challenge
unfolding find_challenge newest
finds = refl

verifies :
    verify_challenge (λ code phone. 866_429) 5 123_775 0 none 200 (challenge ∷ [])
    ≡ (verified 9, used)
unfolding verify_challenge check_challenge find_challenge newest
verifies = refl

abbrev next_challenge : OtpChallenge
next_challenge = record challenge { id = 2; expires_at = 300_300; created_at = 300 }

finds_next :
    find_challenge 5 0 none
      (run_all (λ code phone. 866_429) (request 5 0 9 2 123_775 300 ∷ []) used)
    ≡ some next_challenge
unfolding find_challenge newest run_all run request_challenge
finds_next = refl

verify_challenge_once_example : next_challenge.id ≢ challenge.id
verify_challenge_once_example =
    verify_challenge_once (λ code phone. 866_429) 5 123_775 0 200 9 5 0 none none challenge
      next_challenge (request 5 0 9 2 123_775 300 ∷ []) (challenge ∷ []) used finds verifies
      (ground arith, tt) finds_next

wrong_guesses_bounded_example :
    wrong_guesses hash_code 1 (verify 5 3 0 none 200 ∷ verify 5 4 0 none 300 ∷ []) (challenge ∷ [])
      + 0
    ≤ 5
wrong_guesses_bounded_example =
    wrong_guesses_bounded hash_code 1 0 5 (verify 5 3 0 none 200 ∷ verify 5 4 0 none 300 ∷ [])
      (challenge ∷ []) ((λ _. (refl, refl)), tt) (omega arith) (tt, (tt, tt))

passes : (check_challenge 866_429 200 challenge (challenge ∷ [])).0 ≡ verified 9
unfolding check_challenge
passes = refl

overlapping_verifications_both_pass_example :
    (check_challenge 866_429 210 challenge
      (check_challenge 866_429 200 challenge (challenge ∷ [])).1).0
    ≡ verified 9
overlapping_verifications_both_pass_example =
    overlapping_verifications_both_pass 866_429 200 210 challenge (challenge ∷ []) passes
      (omega arith)
