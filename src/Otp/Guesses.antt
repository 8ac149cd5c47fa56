-- ===== src/Otp/Guesses.antt =====
-- otp.service.ts: the attempts at a challenge.
use learnault_api.Base.{
  ℕ, suc, ◌+◌, ◌≤◌, ◌<◌, ◌≡◌, refl, sym, ◌∙◌, Bool, true, false, not, ◌&&◌, Option, none, some,
  List, [], ◌∷◌, ◌==◌, leb, ltb, if◌then◌else◌, Option-cases, Bool-cases, inl, inr, arith,
}
use learnault_api.Base.Table.{update_where, All, All-update, All-append}
use learnault_api.Otp.{
  revoked, OtpChallenge, is_pending, request_challenge, find_challenge, update_challenge,
  as_expired, as_locked, as_consumed, with_attempts, check_challenge, verify_challenge,
}
use learnault_api.Otp.Calls.{
  Op, request, verify, run, accepts_own_code, is_wrong, is_wrong_guess, wrong_guesses, MakesNo,
  HasAttempts, find_challenge-row,
}

abbrev Counted : ℕ → ℕ → ℕ → OtpChallenge → Type 0
Counted id a m c = c.id ≡ id → (c.attempts ≡ a) × (c.max_attempts ≡ m)

-- The challenge's own code passes until the challenge expires or its attempts are used up.
accepted_when :
    (now : ℕ) (c : OtpChallenge) (cs : List OtpChallenge)
    → accepts_own_code now c cs ≡ (not (ltb c.expires_at now) && ltb c.attempts c.max_attempts)
unfolding accepts_own_code check_challenge
accepted_when now c cs = ground arith

-- Two kinds of writes: a wrong guess, and one that leaves the counter alone.
check-wrong :
    (code_hash now : ℕ) (c : OtpChallenge) (cs : List OtpChallenge)
    → is_wrong code_hash now c cs ≡ true
    → (check_challenge code_hash now c cs).1
      ≡ update_challenge c.id
          (with_attempts (c.attempts + 1) (leb c.max_attempts (c.attempts + 1)))
          cs
unfolding check_challenge
check-wrong code_hash now c cs h = let when = accepted_when now c cs in ground arith

check-other :
    (code_hash now : ℕ) (c : OtpChallenge) (cs : List OtpChallenge)
    → is_wrong code_hash now c cs ≡ false
    → (f : OtpChallenge → OtpChallenge) × ((x : OtpChallenge)
        → ((f x).attempts ≡ x.attempts) × ((f x).max_attempts ≡ x.max_attempts) × ((f x).id ≡ x.id))
      × ((check_challenge code_hash now c cs).1 ≡ update_challenge c.id f cs)
unfolding check_challenge
check-other code_hash now c cs h = elim (Bool-cases (ltb c.expires_at now)) [
  | inl late ↦ (as_expired, λ x. (refl, refl, refl), rw (late, check_challenge) refl)
  | inr early ↦ elim (Bool-cases (leb c.max_attempts c.attempts)) [
    | inl full ↦ (as_locked, λ x. (refl, refl, refl), rw (early, full, check_challenge) refl)
    | inr free ↦ elim (Bool-cases (code_hash == c.code_hash)) [
      | inl right ↦
          (as_consumed now, λ x. (refl, refl, refl), rw (early, free, right, check_challenge) refl)
      | inr wrong ↦ let when = accepted_when now c cs in absurd (ground arith)
    ]
  ]
]

guessed :
    (id a m : ℕ) (c : OtpChallenge) (locked_out : Bool) (cs : List OtpChallenge)
    → c.id ≡ id
    → c.attempts ≡ a
    → HasAttempts id a m cs
    → HasAttempts id
        (suc a)
        m
        (update_challenge c.id (with_attempts (c.attempts + 1) locked_out) cs)
guessed id a m c locked_out [] mine row h = tt
guessed id a m c locked_out (x ∷ xs) mine row (h, hs) = (
  elim (Bool-cases (x.id == c.id)) [
    | inl e ↦ rw e (λ same. (omega arith, (h same).1))
    | inr e ↦ rw e (λ same. absurd (ground arith))
  ],
  guessed id a m c locked_out xs mine row hs,
)

-- The counter of a challenge after a verification that read the row `c`.
check-HasAttempts :
    (id a m code_hash now : ℕ) (c : OtpChallenge) (cs : List OtpChallenge)
    → Counted id a m c
    → HasAttempts id a m cs
    → if c.id == id && is_wrong code_hash now c cs
      then (a < m) × HasAttempts id (suc a) m (check_challenge code_hash now c cs).1
      else HasAttempts id a m (check_challenge code_hash now c cs).1
check-HasAttempts id a m code_hash now c cs row h =
    elim (Bool-cases (is_wrong code_hash now c cs)) [
      | inl wrong ↦ elim (Bool-cases (c.id == id)) [
        | inl mine ↦
            let is_row = row (ground arith) in
            let when = accepted_when now c cs in
            rw (check-wrong code_hash now c cs wrong, wrong, mine)
              (ground arith, guessed id a m c _ cs (ground arith) (ground arith) h)
        | inr other ↦
            rw (check-wrong code_hash now c cs wrong, wrong, other)
              (All-update (Counted id a m) (λ x. x.id == c.id) _ cs
                (λ x k e same. absurd (ground arith)) h)
      ]
      | inr right ↦
          let (f, keeps, same) = check-other code_hash now c cs right in
          let none_wrong : (c.id == id && is_wrong code_hash now c cs) ≡ false = ground arith in
          rw (same, none_wrong)
            (All-update (Counted id a m) (λ x. x.id == c.id) f cs
              (λ x k e mine.
                let (attempts, limit, name) = keeps x in
                let (was, most) = k (sym name ∙ mine) in (attempts ∙ was, limit ∙ most))
              h)
    ]

pub request_challenge-All :
    (P : OtpChallenge → Type 0) (hash : ℕ → ℕ → ℕ) (phone purpose user_id id code now : ℕ)
    (cs : List OtpChallenge)
    → ((x : OtpChallenge) → P x → P (record x { status = revoked }))
    → ((x : OtpChallenge) → x.id ≡ id → P x)
    → All P cs
    → All P (request_challenge hash phone purpose user_id id code now cs)
unfolding request_challenge
request_challenge-All P hash phone purpose user_id id code now cs keep new h =
    All-append P
      (update_where (λ c. c.user_id == user_id && (c.purpose == purpose && is_pending c.status))
        (λ c. record c { status = revoked }) cs)
      _ (All-update P _ _ cs (λ x k e. keep x k) h) (new _ refl, tt)

module _ (hash : ℕ → ℕ → ℕ) (phone code purpose now : ℕ) (expected : Option ℕ)
    (cs : List OtpChallenge) where
  pub run-none :
      find_challenge phone purpose expected cs ≡ none
      → run hash (verify phone code purpose expected now) cs ≡ cs
  unfolding run verify_challenge
  run-none e = rw (e, run, verify_challenge) refl

  pub run-some :
      (c : OtpChallenge)
      → find_challenge phone purpose expected cs ≡ some c
      → run hash (verify phone code purpose expected now) cs
        ≡ (check_challenge (hash code phone) now c cs).1
  unfolding run verify_challenge
  run-some c e = rw (e, run, verify_challenge) refl

  wrong-none :
      (id : ℕ)
      → find_challenge phone purpose expected cs ≡ none
      → is_wrong_guess hash id (verify phone code purpose expected now) cs ≡ false
  unfolding is_wrong_guess
  wrong-none id e = rw (e, is_wrong_guess) refl

  wrong-some :
      (id : ℕ) (c : OtpChallenge)
      → find_challenge phone purpose expected cs ≡ some c
      → is_wrong_guess hash id (verify phone code purpose expected now) cs
        ≡ (c.id == id && is_wrong (hash code phone) now c cs)
  unfolding is_wrong_guess
  wrong-some id c e = rw (e, is_wrong_guess) refl

run-HasAttempts :
    (hash : ℕ → ℕ → ℕ) (id a m : ℕ) (op : Op) (cs : List OtpChallenge)
    → MakesNo id op
    → HasAttempts id a m cs
    → if is_wrong_guess hash id op cs
      then (a < m) × HasAttempts id (suc a) m (run hash op cs)
      else HasAttempts id a m (run hash op cs)
unfolding run is_wrong_guess
run-HasAttempts hash id a m (request phone purpose user_id new_id code now) cs ne h =
    request_challenge-All (Counted id a m) hash phone purpose user_id new_id code now cs (λ x k. k)
      (λ x new mine. absurd (ne (sym new ∙ mine))) h
run-HasAttempts hash id a m (verify phone code purpose expected now) cs ne h =
    elim (Option-cases (find_challenge phone purpose expected cs)) [
      | inl missing ↦
          rw
            (
              wrong-none hash phone code purpose now expected cs id missing,
              run-none hash phone code purpose now expected cs missing,
            )
            h
      | inr (c, found) ↦
          rw
            (
              wrong-some hash phone code purpose now expected cs id c found,
              run-some hash phone code purpose now expected cs c found,
            )
            (check-HasAttempts id a m (hash code phone) now c cs
              (find_challenge-row (Counted id a m) phone purpose expected cs c found h).1 h)
    ]

-- However often codes are requested, under other ids, and entered, one call after the other: the wrong
-- codes that are entered at a challenge while its own code would pass are never more than the attempts
-- that it had left.
pub wrong_guesses_bounded :
    (hash : ℕ → ℕ → ℕ) (id a m : ℕ) (ops : List Op) (cs : List OtpChallenge)
    → HasAttempts id a m cs
    → a ≤ m
    → All (MakesNo id) ops
    → wrong_guesses hash id ops cs + a ≤ m
unfolding wrong_guesses
wrong_guesses_bounded hash id a m [] cs h le ne = omega arith
wrong_guesses_bounded hash id a m (op ∷ ops) cs h le (ne, nes) =
    elim (Bool-cases (is_wrong_guess hash id op cs)) [
      | inl wrong ↦
          let (lt, more) = rw wrong at (run-HasAttempts hash id a m op cs ne h) in
          let rest =
            wrong_guesses_bounded hash id (suc a) m ops (run hash op cs) more (omega arith) nes in
          rw (wrong, wrong_guesses) (omega arith)
      | inr other ↦
          let same = rw other at (run-HasAttempts hash id a m op cs ne h) in
          rw (other, wrong_guesses)
            (wrong_guesses_bounded hash id a m ops (run hash op cs) same le nes)
    ]
