-- ===== src/Reward/Solvency/Kept.antt =====
-- reward.service.ts: each piece of a run, and the cover of withdrawals.
use mathlib.Core.Path.{subst}
use learnault_api.Base.{
  ℕ, ◌≡◌, refl, ap, ◌≢◌, Bool, true, false, ◌&&◌, Option, none, some, List, [], ◌∷◌, ◌++◌, ◌==◌,
  inl, inr, Bool-cases, if◌then◌else◌, arith,
}
use learnault_api.Base.Int.{ℤ, pos, neg_part, pos_part, ◌+ℤ◌, ◌≤ℤ◌, int_laws}
use learnault_api.Base.Result.{ok}
use learnault_api.Base.Table.{find_where}
use learnault_api.Reward.{
  Module, RewardClaim, WithdrawalRequest, Transaction, TransactionStatus, pending, completed,
  failed, Store, empty_store, Payment, paid, rejected,
}
use learnault_api.Reward.Calculate.{Reward, calculate_reward}
use learnault_api.Reward.Calculate.Bounds.{calculate_reward-IsReward}
use learnault_api.Reward.Claims.{claim_transaction, finish_claim, register_referral_code}
use learnault_api.Reward.Balance.{
  get_balance, is_earning, is_withdrawn, is_held, is_completed, is_pending,
}
use learnault_api.Reward.Balance.Sums.{part, sum_where, sum_where-append, sum_where-update_first}
use learnault_api.Reward.Withdrawal.{
  new_withdrawal, with_status, update_transaction_status, start_withdrawal, settle_withdrawal,
}
use learnault_api.Reward.Solvency.{
  of_user, earned, withdrawn, held, IsSolvent, IsOpen, Step, claim_paid, code_registered,
  withdrawal_started, withdrawal_settled, Reach, here, next,
}
use learnault_api.Reward.Solvency.Exact.{available_of_solvent}

-- A change of the three sums that adds no less to the earnings than to the rest.
keeps_covered :
    (w h e w' h' e' pw ph pe qw qh qe : ℤ)
    → w' +ℤ pw ≡ w +ℤ qw
    → h' +ℤ ph ≡ h +ℤ qh
    → e' +ℤ pe ≡ e +ℤ qe
    → qw +ℤ qh +ℤ pe ≤ℤ pw +ℤ ph +ℤ qe
    → w +ℤ h ≤ℤ e
    → w' +ℤ h' ≤ℤ e'
keeps_covered w h e w' h' e' pw ph pe qw qh qe f g k l c = omega (
  int_laws,
  ap pos_part f,
  ap neg_part f,
  ap pos_part g,
  ap neg_part g,
  ap pos_part k,
  ap neg_part k,
)

claim_parts :
    (mine : Bool) (a : ℤ)
    → pos 0 ≤ℤ a
    → (if mine && false then a else pos 0) +ℤ (if mine && false then a else pos 0) +ℤ pos 0
      ≤ℤ pos 0 +ℤ pos 0 +ℤ (if mine && true then a else pos 0)
claim_parts true a h = omega int_laws
claim_parts false a h = omega int_laws

append_sum :
    (p : Transaction → Bool) (t : Transaction) (ts : List Transaction)
    → sum_where p (ts ++ t ∷ []) +ℤ pos 0 ≡ sum_where p ts +ℤ part p t
append_sum p t ts = rw (sum_where-append p ts t) (omega int_laws)

claim_paid-IsSolvent :
    (id now hash : ℕ) (c : RewardClaim) (m : Module) (days : ℤ) (has_referral : Bool) (r : Reward)
    (s : Store)
    → calculate_reward m days has_referral ≡ ok r
    → IsSolvent s
    → IsSolvent (finish_claim id now hash c r s)
unfolding finish_claim
claim_paid-IsSolvent id now hash c m days has_referral r s e h u =
    let t = claim_transaction id now hash c r in
    let reward = calculate_reward-IsReward m days has_referral r e in
    keeps_covered _ _ _ _ _ _ _ _ _ _ _ _ (append_sum (of_user u is_withdrawn) t s.transactions)
      (append_sum (of_user u is_held) t s.transactions)
      (append_sum (of_user u is_earning) t s.transactions)
      (claim_parts (c.user_id == u) r.total_amount_stroops reward.total_in_range.0) (h u)

start_withdrawal_guards :
    (id now : ℕ) (r : WithdrawalRequest) (s s' : Store)
    → start_withdrawal id now r s ≡ ok s'
    → (r.amount_stroops ≤ℤ (get_balance r.user_id s).available_stroops)
      × (pos 1 ≤ℤ r.amount_stroops)
      × (s'.transactions ≡ s.transactions ++ new_withdrawal id now r ∷ [])
unfolding start_withdrawal
start_withdrawal_guards id now r s s' e = ground arith

started_parts :
    (mine : Bool) (a w h e : ℤ)
    → pos 1 ≤ℤ a
    → (mine ≡ true → a +ℤ w +ℤ h ≤ℤ e)
    → w +ℤ h ≤ℤ e
    → (w +ℤ (if mine && false then a else pos 0)) +ℤ (h +ℤ (if mine && true then a else pos 0))
      ≤ℤ (e +ℤ (if mine && false then a else pos 0))
started_parts true a w h e p f c = let f' = f refl in omega int_laws
started_parts false a w h e p f c = omega int_laws

room_for :
    (id now : ℕ) (r : WithdrawalRequest) (s s' : Store)
    → start_withdrawal id now r s ≡ ok s'
    → IsSolvent s
    → (u : ℕ) → (r.user_id == u) ≡ true
    → r.amount_stroops +ℤ withdrawn u s +ℤ held u s ≤ℤ earned u s
room_for id now r s s' e h u mine =
    let same : r.user_id ≡ u = ground arith in
    let fits =
      rw (available_of_solvent r.user_id s h) at (start_withdrawal_guards id now r s s' e).0 in
    subst (λ v. r.amount_stroops +ℤ withdrawn v s +ℤ held v s ≤ℤ earned v s) same (omega int_laws)

withdrawal_started-IsSolvent :
    (id now : ℕ) (r : WithdrawalRequest) (s s' : Store)
    → start_withdrawal id now r s ≡ ok s'
    → IsSolvent s
    → IsSolvent s'
withdrawal_started-IsSolvent id now r s s' e h u =
    let (fits, positive, list) = start_withdrawal_guards id now r s s' e in
    rw
      (
        list,
        sum_where-append (of_user u is_withdrawn) s.transactions (new_withdrawal id now r),
        sum_where-append (of_user u is_held) s.transactions (new_withdrawal id now r),
        sum_where-append (of_user u is_earning) s.transactions (new_withdrawal id now r),
      )
      (started_parts (r.user_id == u) r.amount_stroops (withdrawn u s) (held u s) (earned u s)
        positive (room_for id now r s s' e h u) (h u))

settled_parts :
    (mine : Bool) (st : TransactionStatus) (a : ℤ)
    → pos 0 ≤ℤ a
    → st ≢ pending
    → (if mine && (is_completed st && true) then a else pos 0)
        +ℤ (if mine && (is_pending st && true) then a else pos 0)
        +ℤ (if mine && false then a else pos 0)
      ≤ℤ (if mine && false then a else pos 0)
        +ℤ (if mine && true then a else pos 0)
        +ℤ (if mine && (is_completed st && false) then a else pos 0)
settled_parts mine pending a h ne = absurd (ne refl)
settled_parts true completed a h ne = omega int_laws
settled_parts false completed a h ne = omega int_laws
settled_parts true failed a h ne = omega int_laws
settled_parts false failed a h ne = omega int_laws

open_parts :
    (u id now : ℕ) (st : TransactionStatus) (hash : Option ℕ) (t : Transaction) (s : Store)
    → IsOpen id t s
    → st ≢ pending
    → let t' = with_status st hash now t in
      part (of_user u is_withdrawn) t'
        +ℤ part (of_user u is_held) t'
        +ℤ part (of_user u is_earning) t
      ≤ℤ part (of_user u is_withdrawn) t
        +ℤ part (of_user u is_held) t
        +ℤ part (of_user u is_earning) t'
open_parts u id now st hash t s o ne =
    rw (o.is_withdrawal, o.is_pending)
      (settled_parts (t.user_id == u) st t.amount_stroops o.positive ne)

status_changed-IsSolvent :
    (id now : ℕ) (st : TransactionStatus) (hash : Option ℕ) (t : Transaction) (s : Store)
    → IsOpen id t s
    → st ≢ pending
    → IsSolvent s
    → IsSolvent (update_transaction_status id st hash now s)
unfolding update_transaction_status
status_changed-IsSolvent id now st hash t s o ne h u =
    let change = λ (p : Transaction → Bool).
      sum_where-update_first p (λ x. x.id == id) (with_status st hash now) t s.transactions
        o.found in
    keeps_covered _ _ _ _ _ _ _ _ _ _ _ _ (change (of_user u is_withdrawn))
      (change (of_user u is_held)) (change (of_user u is_earning))
      (open_parts u id now st hash t s o ne) (h u)

settle_withdrawal-IsSolvent :
    (id now : ℕ) (p : Payment) (t : Transaction) (s : Store)
    → IsOpen id t s
    → IsSolvent s
    → IsSolvent (settle_withdrawal id now p s)
unfolding settle_withdrawal
settle_withdrawal-IsSolvent id now (paid hash) t s o h =
    status_changed-IsSolvent id now completed (some hash) t s o (λ e. cc) h
settle_withdrawal-IsSolvent id now rejected t s o h =
    status_changed-IsSolvent id now failed none t s o (λ e. cc) h

code_registered-IsSolvent :
    (code user : ℕ) (s s' : Store)
    → register_referral_code code user s ≡ ok s'
    → IsSolvent s
    → IsSolvent s'
unfolding register_referral_code
code_registered-IsSolvent code user s s' e h =
    let same : s'.transactions ≡ s.transactions = ground arith in λ u. rw same (h u)

Step-IsSolvent : {s s' : Store} → Step s s' → IsSolvent s → IsSolvent s'
Step-IsSolvent (claim_paid id now hash c m days has_referral r s e) h =
    claim_paid-IsSolvent id now hash c m days has_referral r s e h
Step-IsSolvent (code_registered code user s s' e) h = code_registered-IsSolvent code user s s' e h
Step-IsSolvent (withdrawal_started id now r s s' e) h =
    withdrawal_started-IsSolvent id now r s s' e h
Step-IsSolvent (withdrawal_settled id now p t s o) h = settle_withdrawal-IsSolvent id now p t s o h

-- However claims and withdrawals interleave from the empty store, what a user has withdrawn or has
-- waiting never exceeds what that user has earned.
pub Reach-IsSolvent : {s : Store} → Reach empty_store s → IsSolvent s
Reach-IsSolvent here = λ u. omega int_laws
Reach-IsSolvent (next r st) = Step-IsSolvent st (Reach-IsSolvent r)

find_where-append :
    (k : Transaction → Bool) (ts : List Transaction) (t : Transaction)
    → find_where k ts ≡ none
    → k t ≡ true
    → find_where k (ts ++ t ∷ []) ≡ some t
find_where-append k [] t h e = rw e
find_where-append k (x ∷ ts) t h e = elim (Bool-cases (k x)) [
  | inl found ↦ absurd (ground arith)
  | inr other ↦ rw other (find_where-append k ts t (rw other at h) e)
]

-- A withdrawal that starts under an id that no transaction has is open afterwards.
pub start_withdrawal-IsOpen :
    (id now : ℕ) (r : WithdrawalRequest) (s s' : Store)
    → find_where (λ x. x.id == id) s.transactions ≡ none
    → start_withdrawal id now r s ≡ ok s'
    → IsOpen id (new_withdrawal id now r) s'
start_withdrawal-IsOpen id now r s s' fresh e =
    let (fits, positive, list) = start_withdrawal_guards id now r s s' e in
    record {
      found = rw list (
          find_where-append (λ x. x.id == id) s.transactions (new_withdrawal id now r) fresh
            (ground arith));
      is_withdrawal = refl;
      is_pending = refl;
      positive = omega arith;
    }
