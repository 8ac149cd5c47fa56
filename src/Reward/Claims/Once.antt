-- ===== src/Reward/Claims/Once.antt =====
-- reward.service.ts: claims that follow one another, and claims that overlap.
use mathlib.Core.Path.{subst}
use learnault_api.Base.{
  ℕ, ◌+◌, ◌≡◌, refl, Bool, true, false, ◌&&◌, ◌||◌, none, some, List, [], ◌∷◌, ◌++◌, ◌==◌,
  if◌then◌else◌, arith, Bool-cases, inl, inr,
}
use learnault_api.Base.Result.{ok, throw, ◌>>=◌}
use learnault_api.Base.Inversion.{>>=-ok, ok-injective}
use learnault_api.Base.Table.{count_where}
use learnault_api.Reward.{
  Module, RewardClaim, Transaction, Store, already_claimed, Payment, paid, rejected, Outcome, get,
  put,
}
use learnault_api.Reward.Calculate.{Reward}
use learnault_api.Reward.Withdrawal.{
  start_withdrawal, settle_withdrawal, fail_withdrawal, update_transaction_status,
}
use learnault_api.Reward.Solvency.{
  Step, claim_paid, code_registered, withdrawal_started, withdrawal_settled, Reach, here, next,
}
use learnault_api.Reward.Claims.{
  register_referral_code, has, add, claim_transaction, modules_of, has_already_claimed,
  mark_as_claimed, start_claim, finish_claim, claim_reward,
}

pub get-put :
    {V : Type 0} (j k : ℕ) (v : V) (m : List (ℕ × V))
    → get j (put k v m) ≡ (if j == k then some v else get j m)
get-put j k v [] = refl
get-put j k v ((i, w) ∷ m) = ground (arith, get-put j k v m)

has-append : (x y : ℕ) (ys : List ℕ) → has x (ys ++ y ∷ []) ≡ (x == y || has x ys)
has-append x y [] = refl
has-append x y (z ∷ ys) = ground (arith, has-append x y ys)

has-add : (x y : ℕ) (ys : List ℕ) → has x (add y ys) ≡ (x == y || has x ys)
has-add x y ys = elim (Bool-cases (has y ys)) [
  | inl old ↦ ground arith
  | inr new ↦ rw new (has-append x y ys)
]

-- Marking a module as claimed adds that user and that module to the claims, and nothing else.
pub has_already_claimed-mark_as_claimed :
    (user mod_id u k : ℕ) (s : Store)
    → has_already_claimed user mod_id (mark_as_claimed u k s)
      ≡ (user == u && mod_id == k || has_already_claimed user mod_id s)
unfolding has_already_claimed mark_as_claimed
has_already_claimed-mark_as_claimed user mod_id u k s = ground (
  arith,
  get-put user u (add k (modules_of u s.claimed_rewards)) s.claimed_rewards,
  has-add mod_id k (modules_of u s.claimed_rewards),
)

finished_is_claimed :
    (id now hash : ℕ) (c : RewardClaim) (r : Reward) (s : Store)
    → has_already_claimed c.user_id c.module_id (finish_claim id now hash c r s) ≡ true
unfolding finish_claim has_already_claimed mark_as_claimed
finished_is_claimed id now hash c r s = ground (
  arith,
  get-put c.user_id c.user_id (add c.module_id (modules_of c.user_id s.claimed_rewards))
      s.claimed_rewards,
  has-add c.module_id c.module_id (modules_of c.user_id s.claimed_rewards),
)

claimed_cannot_start :
    (c : RewardClaim) (m : Module) (s : Store)
    → has_already_claimed c.user_id c.module_id s ≡ true
    → start_claim c m s ≡ throw already_claimed
unfolding start_claim
claimed_cannot_start c m s h = rw h

claim_reward_cannot :
    (id now : ℕ) (p : Payment) (c : RewardClaim) (m : Module) (s : Store)
    → has_already_claimed c.user_id c.module_id s ≡ true
    → claim_reward id now p c m s ≡ throw already_claimed
unfolding claim_reward
claim_reward_cannot id now (paid hash) c m s h = rw (claimed_cannot_start c m s h)
claim_reward_cannot id now rejected c m s h = rw (claimed_cannot_start c m s h)

claim_reward_marks :
    (id now : ℕ) (p : Payment) (c : RewardClaim) (m : Module) (s : Store) (r : Reward) (s' : Store)
    → claim_reward id now p c m s ≡ ok (r, s')
    → has_already_claimed c.user_id c.module_id s' ≡ true
unfolding claim_reward
claim_reward_marks id now (paid hash) c m s r s' h =
    let (q, _, last) = >>=-ok (start_claim c m s) _ h in
    let same = ok-injective last in
    subst (λ (x : Reward × Store). has_already_claimed c.user_id c.module_id x.1 ≡ true) same
      (finished_is_claimed id now hash c q s)
claim_reward_marks id now rejected c m s r s' h =
    let (q, _, last) = >>=-ok (start_claim c m s) _ h in cc last

-- No piece of a run takes a module from those that a user has claimed.
finished_still_claimed :
    (user mod_id id now hash : ℕ) (c : RewardClaim) (r : Reward) (s : Store)
    → has_already_claimed user mod_id s ≡ true
    → has_already_claimed user mod_id (finish_claim id now hash c r s) ≡ true
unfolding finish_claim has_already_claimed mark_as_claimed
finished_still_claimed user mod_id id now hash c r s h = ground (
  arith,
  get-put user c.user_id (add c.module_id (modules_of c.user_id s.claimed_rewards))
      s.claimed_rewards,
  has-add mod_id c.module_id (modules_of c.user_id s.claimed_rewards),
)

step_keeps_claims :
    (user mod_id : ℕ) (s s' : Store)
    → Step s s'
    → has_already_claimed user mod_id s ≡ true
    → has_already_claimed user mod_id s' ≡ true
unfolding has_already_claimed register_referral_code start_withdrawal settle_withdrawal
    fail_withdrawal update_transaction_status
step_keeps_claims user mod_id s _ (claim_paid id now hash c m days ref r _ e) h =
    finished_still_claimed user mod_id id now hash c r s h
step_keeps_claims user mod_id s s' (code_registered code u _ _ e) h = ground arith
step_keeps_claims user mod_id s s' (withdrawal_started id now r _ _ e) h = ground arith
step_keeps_claims user mod_id s _ (withdrawal_settled id now (paid hash) t _ e) h = h
step_keeps_claims user mod_id s _ (withdrawal_settled id now rejected t _ e) h = h

run_keeps_claims :
    (user mod_id : ℕ) (s s' : Store)
    → Reach s s'
    → has_already_claimed user mod_id s ≡ true
    → has_already_claimed user mod_id s' ≡ true
run_keeps_claims user mod_id s _ here h = h
run_keeps_claims user mod_id s s' (next {t = t} path step) h =
    step_keeps_claims user mod_id t s' step (run_keeps_claims user mod_id s t path h)

-- Once a claim has been paid, however other claims and withdrawals of any user go on and interleave after
-- it, every later claim of the same module by the same user is refused, whatever its streak, referral
-- code, wallet and payment.
pub claim_reward_once :
    (id now id' now' : ℕ) (p p' : Payment) (c c' : RewardClaim) (m m' : Module) (s s' s'' : Store)
    (r : Reward)
    → claim_reward id now p c m s ≡ ok (r, s')
    → Reach s' s''
    → c'.user_id ≡ c.user_id
    → c'.module_id ≡ c.module_id
    → claim_reward id' now' p' c' m' s'' ≡ throw already_claimed
claim_reward_once id now id' now' p p' c c' m m' s s' s'' r h path u k =
    let marked = claim_reward_marks id now p c m s r s' h in
    claim_reward_cannot id' now' p' c' m' s''
      (rw (u, k) (run_keeps_claims c.user_id c.module_id s' s'' path marked))

-- The transactions that paid a user for a module.
abbrev pub is_payment_for : RewardClaim → Transaction → Bool
is_payment_for c t =
    t.user_id == c.user_id && elim t.module_id [ none ↦ false | some k ↦ k == c.module_id ]

abbrev pub payments_for : RewardClaim → Store → ℕ
payments_for c s = count_where (is_payment_for c) s.transactions

-- A schedule of two calls of `claimReward`: both run up to the payment before either goes on.
pub overlapping_claims : ℕ → ℕ → ℕ → ℕ → ℕ → RewardClaim → Module → Store → Outcome Store
overlapping_claims id id' now hash hash' c m s = do
  first ← start_claim c m s
  second ← start_claim c m s
  ok (finish_claim id' now hash' c second (finish_claim id now hash c first s))

count_where-append :
    (p : Transaction → Bool) (ts : List Transaction) (t : Transaction)
    → count_where p (ts ++ t ∷ []) ≡ count_where p ts + (if p t then 1 else 0)
count_where-append p [] t = ground arith
count_where-append p (x ∷ ts) t = ground (arith, count_where-append p ts t)

payments_for-finish_claim :
    (id now hash : ℕ) (c : RewardClaim) (r : Reward) (s : Store)
    → payments_for c (finish_claim id now hash c r s) ≡ payments_for c s + 1
unfolding finish_claim
payments_for-finish_claim id now hash c r s =
    rw (count_where-append (is_payment_for c) s.transactions (claim_transaction id now hash c r))
      (ground arith)

-- Two overlapping calls for a claim that can start both succeed, and the claim is paid twice.
pub overlapping_claims_pay_twice :
    (id id' now hash hash' : ℕ) (c : RewardClaim) (m : Module) (s : Store) (r : Reward)
    → start_claim c m s ≡ ok r
    → (s' : Store) × (overlapping_claims id id' now hash hash' c m s ≡ ok s')
      × (payments_for c s' ≡ payments_for c s + 2)
unfolding overlapping_claims
overlapping_claims_pay_twice id id' now hash hash' c m s r h =
    let s₁ = finish_claim id now hash c r s in
    (
      finish_claim id' now hash' c r s₁,
      rw h,
      omega (
        arith,
        payments_for-finish_claim id' now hash' c r s₁,
        payments_for-finish_claim id now hash c r s,
      ),
    )
