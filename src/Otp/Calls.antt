-- ===== src/Otp/Calls.antt =====
-- otp.service.ts: its calls as data, and the challenge that a verification reads.
use mathlib.Core.Path.{subst}
use mathlib.Core.Option.{some-injective}
use learnault_api.Base.{
  ℕ, suc, ◌≡◌, ◌≢◌, Bool, true, false, not, ◌&&◌, Option, none, some, List, [], ◌∷◌, ◌==◌, ltb,
  if◌then◌else◌, Option-cases, Bool-cases, inl, inr, arith,
}
use learnault_api.Base.Table.{All, All-map}
use learnault_api.Otp.{
  OtpVerifyResult, verified, check_challenge, OtpChallenge, request_challenge, newest, is_open,
  find_challenge, verify_challenge,
}

-- The calls of the service, one after the other.
pub data Op : Type 0 where
  request : ℕ → ℕ → ℕ → ℕ → ℕ → ℕ → Op
  verify : ℕ → ℕ → ℕ → Option ℕ → ℕ → Op

unfoldable pub run : (ℕ → ℕ → ℕ) → Op → List OtpChallenge → List OtpChallenge
run hash (request phone purpose user_id id code now) cs =
    request_challenge hash phone purpose user_id id code now cs
run hash (verify phone code purpose expected now) cs =
    (verify_challenge hash phone code purpose expected now cs).1

abbrev is_verified : OtpVerifyResult → Bool
is_verified (verified _) = true
is_verified _ = false

-- The check of a challenge lets its own code pass.
unfoldable pub accepts_own_code : ℕ → OtpChallenge → List OtpChallenge → Bool
accepts_own_code now c cs = is_verified (check_challenge c.code_hash now c cs).0

-- A call whose code is another one, where the challenge's own code would have passed.
abbrev pub is_wrong : ℕ → ℕ → OtpChallenge → List OtpChallenge → Bool
is_wrong code_hash now c cs = accepts_own_code now c cs && not (code_hash == c.code_hash)

unfoldable pub is_wrong_guess : (ℕ → ℕ → ℕ) → ℕ → Op → List OtpChallenge → Bool
is_wrong_guess hash id (request phone purpose user_id new_id code now) cs = false
is_wrong_guess hash id (verify phone code purpose expected now) cs =
    elim (find_challenge phone purpose expected cs) [
      | none ↦ false
      | some c ↦ c.id == id && is_wrong (hash code phone) now c cs
    ]

-- The number of wrong guesses in a run.
unfoldable pub wrong_guesses : (ℕ → ℕ → ℕ) → ℕ → List Op → List OtpChallenge → ℕ
unfolding is_wrong_guess run
wrong_guesses hash id [] cs = 0
wrong_guesses hash id (op ∷ ops) cs =
    let rest = wrong_guesses hash id ops (run hash op cs) in
    if is_wrong_guess hash id op cs then suc rest else rest

unfoldable pub run_all : (ℕ → ℕ → ℕ) → List Op → List OtpChallenge → List OtpChallenge
run_all hash [] cs = cs
run_all hash (op ∷ ops) cs = run_all hash ops (run hash op cs)

-- A request makes a challenge with another id.
abbrev pub MakesNo : ℕ → Op → Type 0
MakesNo id (request phone purpose user_id new_id code now) = new_id ≢ id
MakesNo id (verify phone code purpose expected now) = Unit

-- What is counted of the challenge.
abbrev pub HasAttempts : ℕ → ℕ → ℕ → List OtpChallenge → Type 0
HasAttempts id a m cs = All (λ c. c.id ≡ id → (c.attempts ≡ a) × (c.max_attempts ≡ m)) cs

pub newest-All :
    (P : OtpChallenge → Type 0) (p : OtpChallenge → Bool) (cs : List OtpChallenge)
    (c : OtpChallenge)
    → All (λ c. p c ≡ true → P c) cs
    → newest p cs ≡ some c
    → P c
unfolding newest
newest-All P p [] c h e = absurd (cc)
newest-All P p (x ∷ xs) c (h, hs) e = elim (Bool-cases (p x)) [
  | inl here ↦ elim (Option-cases (newest p xs)) [
    | inl last ↦ subst P (some-injective x c (ground arith)) (h here)
    | inr (d, more) ↦ elim (Bool-cases (ltb x.created_at d.created_at)) [
      | inl older ↦ newest-All P p xs c hs (ground arith)
      | inr newer_row ↦ subst P (some-injective x c (ground arith)) (h here)
    ]
  ]
  | inr other ↦ newest-All P p xs c hs (ground arith)
]

pub find_challenge-newest :
    (phone purpose : ℕ) (expected : Option ℕ) (cs : List OtpChallenge) (c : OtpChallenge)
    → find_challenge phone purpose expected cs ≡ some c
    → newest (is_open phone purpose) cs ≡ some c
unfolding find_challenge
find_challenge-newest phone purpose expected cs c e =
    elim (Option-cases (newest (is_open phone purpose) cs)) [
      | inl none_open ↦ absurd (ground arith)
      | inr (d, found) ↦ ground arith
    ]

-- A challenge that is found is an open row of the table.
pub find_challenge-row :
    (Q : OtpChallenge → Type 0) (phone purpose : ℕ) (expected : Option ℕ) (cs : List OtpChallenge)
    (c : OtpChallenge)
    → find_challenge phone purpose expected cs ≡ some c
    → All Q cs
    → (is_open phone purpose c ≡ true) × Q c
find_challenge-row Q phone purpose expected cs c e h =
    newest-All (λ c. (is_open phone purpose c ≡ true) × Q c) (is_open phone purpose) cs c
      (All-map _ _ cs (λ c q open_row. (open_row, q)) h)
      (find_challenge-newest phone purpose expected cs c e)
