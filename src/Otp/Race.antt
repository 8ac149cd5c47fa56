-- ===== src/Otp/Race.antt =====
-- otp.service.ts: how often a challenge is used, by calls in sequence and by calls that overlap.
use mathlib.Core.Option.{some-injective}
use learnault_api.Base.{
  ℕ, ◌+◌, ◌≤◌, ◌<◌, ◌≡◌, ◌≢◌, refl, sym, ap, ◌∙◌, true, false, Option, some, List, [], ◌∷◌, ◌==◌,
  leb, ltb, Option-cases, Bool-cases, inl, inr, arith,
}
use learnault_api.Base.Table.{All, All-update}
use learnault_api.Otp.{
  OtpChallenge, is_pending, verified, is_open, find_challenge, update_challenge, as_expired,
  as_locked, as_consumed, check_challenge, verify_challenge,
}
use learnault_api.Otp.Guesses.{run-none, run-some, request_challenge-All}
use learnault_api.Otp.Calls.{Op, request, verify, run, run_all, MakesNo, find_challenge-row}

-- No row with the id is pending.
abbrev pub IsClosedRow : ℕ → OtpChallenge → Type 0
IsClosedRow id c = c.id ≡ id → is_pending c.status ≡ false

abbrev pub IsClosed : ℕ → List OtpChallenge → Type 0
IsClosed id cs = All (IsClosedRow id) cs

check-IsClosed :
    (id code_hash now : ℕ) (c : OtpChallenge) (cs : List OtpChallenge)
    → IsClosed id cs
    → IsClosed id (check_challenge code_hash now c cs).1
unfolding check_challenge
check-IsClosed id code_hash now c cs h = elim (Bool-cases (ltb c.expires_at now)) [
  | inl late ↦
      rw (late, check_challenge)
        (All-update (IsClosedRow id) _ as_expired cs (λ x k e same. refl) h)
  | inr early ↦ elim (Bool-cases (leb c.max_attempts c.attempts)) [
    | inl full ↦
        rw (early, full, check_challenge)
          (All-update (IsClosedRow id) _ as_locked cs (λ x k e same. refl) h)
    | inr free ↦ elim (Bool-cases (code_hash == c.code_hash)) [
      | inl right ↦
          rw (early, free, right, check_challenge)
            (All-update (IsClosedRow id) _ (as_consumed now) cs (λ x k e same. refl) h)
      | inr wrong ↦
          rw (early, free, wrong, check_challenge)
            (All-update (IsClosedRow id) _ _ cs (λ x k e same. let was = k same in ground arith) h)
    ]
  ]
]

run-IsClosed :
    (hash : ℕ → ℕ → ℕ) (id : ℕ) (op : Op) (cs : List OtpChallenge)
    → MakesNo id op
    → IsClosed id cs
    → IsClosed id (run hash op cs)
unfolding run
run-IsClosed hash id (request phone purpose user_id new_id code now) cs ne h =
    request_challenge-All (IsClosedRow id) hash phone purpose user_id new_id code now cs
      (λ x k mine. refl) (λ x new mine. absurd (ne (sym new ∙ mine))) h
run-IsClosed hash id (verify phone code purpose expected now) cs ne h =
    elim (Option-cases (find_challenge phone purpose expected cs)) [
      | inl missing ↦ rw (run-none hash phone code purpose now expected cs missing) h
      | inr (c, found) ↦
          rw (run-some hash phone code purpose now expected cs c found)
            (check-IsClosed id (hash code phone) now c cs h)
    ]

run_all-IsClosed :
    (hash : ℕ → ℕ → ℕ) (id : ℕ) (ops : List Op) (cs : List OtpChallenge)
    → All (MakesNo id) ops
    → IsClosed id cs
    → IsClosed id (run_all hash ops cs)
unfolding run_all
run_all-IsClosed hash id [] cs ne h = h
run_all-IsClosed hash id (op ∷ ops) cs (ne, nes) h =
    run_all-IsClosed hash id ops (run hash op cs) nes (run-IsClosed hash id op cs ne h)

consumed-IsClosed :
    (id now : ℕ) (cs : List OtpChallenge) → IsClosed id (update_challenge id (as_consumed now) cs)
consumed-IsClosed id now [] = tt
consumed-IsClosed id now (c ∷ cs) = (
  elim (Bool-cases (c.id == id)) [
    | inl e ↦ rw e (λ _. refl)
    | inr e ↦ rw e (λ same. absurd (ground arith))
  ],
  consumed-IsClosed id now cs,
)

All-unit : (cs : List OtpChallenge) → All (λ _. Unit {0}) cs
All-unit [] = tt
All-unit (c ∷ cs) = (tt, All-unit cs)

-- What a verification that succeeds found.
check-verified :
    (code_hash now user_id : ℕ) (c : OtpChallenge) (cs : List OtpChallenge)
    → (check_challenge code_hash now c cs).0 ≡ verified user_id
    → (code_hash ≡ c.code_hash)
      × (now ≤ c.expires_at)
      × (c.attempts < c.max_attempts)
      × (user_id ≡ c.user_id)
      × ((check_challenge code_hash now c cs).1 ≡ update_challenge c.id (as_consumed now) cs)
unfolding check_challenge
check-verified code_hash now user_id c cs h = elim (Bool-cases (ltb c.expires_at now)) [
  | inl late ↦ absurd (ground arith)
  | inr early ↦ elim (Bool-cases (leb c.max_attempts c.attempts)) [
    | inl full ↦ absurd (ground arith)
    | inr free ↦ elim (Bool-cases (code_hash == c.code_hash)) [
      | inl right ↦ (
        ground arith,
        ground arith,
        ground arith,
        ground arith,
        rw (early, free, right, check_challenge) refl,
      )
      | inr wrong ↦ elim (Bool-cases (leb c.max_attempts (c.attempts + 1))) [
        | inl out ↦ absurd (ground arith)
        | inr more ↦ absurd (ground arith)
      ]
    ]
  ]
]

-- What `verifyChallenge` found when it accepts a code: an open challenge for this phone and purpose
-- that holds the hash of the code, is not expired and has attempts left.
pub verify_challenge-found :
    (hash : ℕ → ℕ → ℕ) (phone code purpose now user_id : ℕ) (expected : Option ℕ)
    (cs cs' : List OtpChallenge)
    → verify_challenge hash phone code purpose expected now cs ≡ (verified user_id, cs')
    → (c : OtpChallenge) × (find_challenge phone purpose expected cs ≡ some c)
      × (is_open phone purpose c ≡ true)
      × (hash code phone ≡ c.code_hash)
      × (now ≤ c.expires_at)
      × (c.attempts < c.max_attempts)
      × (user_id ≡ c.user_id)
      × (cs' ≡ update_challenge c.id (as_consumed now) cs)
unfolding verify_challenge
verify_challenge-found hash phone code purpose now user_id expected cs cs' h =
    elim (Option-cases (find_challenge phone purpose expected cs)) [
      | inl missing ↦ absurd (ground arith)
      | inr (c, found) ↦
          let (open_row, _) =
            find_challenge-row (λ _. Unit {0}) phone purpose expected cs c found (All-unit cs) in
          let checked : check_challenge (hash code phone) now c cs ≡ (verified user_id, cs') =
            ground arith in
          let (same, early, free, mine, rows) =
            check-verified (hash code phone) now user_id c cs (ap (λ x. x.0) checked) in
          (c, found, open_row, same, early, free, mine, sym (ap (λ x. x.1) checked) ∙ rows)
    ]

-- A challenge is used once: after its code was accepted, whatever is requested, under other ids,
-- and entered since, one call after the other, `verifyChallenge` never reads that challenge again.
pub verify_challenge_once :
    (hash : ℕ → ℕ → ℕ) (phone code purpose now user_id phone' purpose' : ℕ)
    (expected expected' : Option ℕ) (c c' : OtpChallenge) (ops : List Op)
    (cs cs' : List OtpChallenge)
    → find_challenge phone purpose expected cs ≡ some c
    → verify_challenge hash phone code purpose expected now cs ≡ (verified user_id, cs')
    → All (MakesNo c.id) ops
    → find_challenge phone' purpose' expected' (run_all hash ops cs') ≡ some c'
    → c'.id ≢ c.id
verify_challenge_once hash phone code purpose now user_id phone' purpose' expected expected' c c'
      ops cs cs' found h ne again =
    let (d, found', _, _, _, _, _, rows) =
      verify_challenge-found hash phone code purpose now user_id expected cs cs' h in
    let same : d.id ≡ c.id = ap OtpChallenge.id (some-injective d c (sym found' ∙ found)) in
    let closed : IsClosed c.id cs' = rw (rows, same) (consumed-IsClosed c.id now cs) in
    let (open_row, row) =
      find_challenge-row (IsClosedRow c.id) phone' purpose' expected' (run_all hash ops cs') c'
        again (run_all-IsClosed hash c.id ops cs' ne closed) in
    λ mine. let gone = row mine in absurd (ground arith)

-- If a call that read a challenge accepts its code, a second call that read the same challenge
-- before the first one wrote accepts the code too, where the challenge is not expired.
pub overlapping_verifications_both_pass :
    (code_hash now now' : ℕ) (c : OtpChallenge) (cs : List OtpChallenge)
    → (check_challenge code_hash now c cs).0 ≡ verified c.user_id
    → now' ≤ c.expires_at
    → (check_challenge code_hash now' c (check_challenge code_hash now c cs).1).0
      ≡ verified c.user_id
unfolding check_challenge
overlapping_verifications_both_pass code_hash now now' c cs h le =
    let (same, early, free, _, _) = check-verified code_hash now c.user_id c cs h in ground arith
