-- ===== src/Reward/Withdrawal.antt =====
-- reward.service.ts: `processWithdrawal`. It waits once, for the payment; `start_withdrawal` is what
-- runs before the wait and `settle_withdrawal` what runs after it.
use learnault_api.Base.{ℕ, Option, none, some, ◌==◌, if◌then◌else◌}
use learnault_api.Base.Int.{ℤ, pos, ltb_ℤ, leb_ℤ}
use learnault_api.Base.Result.{ok, throw, ◌>>◌, throw_if}
use learnault_api.Base.Table.{update_first}
use learnault_api.Money.{stroops_to_xlm_string}
use learnault_api.Reward.{
  WithdrawalRequest, Transaction, TransactionStatus, pending, completed, failed, withdrawal, Store,
  insufficient_balance, not_positive, payment_failed, money, Payment, paid, rejected, Outcome, lift,
  put, remove, record_transaction,
}
use learnault_api.Reward.Balance.{get_balance}

-- The error of an insufficient balance prints both amounts first, which can itself throw.
unfoldable pub insufficient : ℤ → ℤ → Outcome (Unit {0})
insufficient available amount = do
  lift (stroops_to_xlm_string available)
  lift (stroops_to_xlm_string amount)
  throw insufficient_balance

abbrev pub new_withdrawal : ℕ → ℕ → WithdrawalRequest → Transaction
new_withdrawal id now r = record {
  id = id;
  user_id = r.user_id;
  module_id = none;
  amount_stroops = r.amount_stroops;
  type = withdrawal;
  status = pending;
  stellar_tx_hash = none;
  created_at = now;
  completed_at = none;
}

-- `processWithdrawal` up to the payment: the guards, the pending transaction and the note of it.
unfoldable pub start_withdrawal : ℕ → ℕ → WithdrawalRequest → Store → Outcome Store
unfolding insufficient record_transaction
start_withdrawal id now r s =
    let available = (get_balance r.user_id s).available_stroops in
    let s' = record_transaction (new_withdrawal id now r) s in
    do
      if ltb_ℤ available r.amount_stroops then insufficient available r.amount_stroops else ok tt
      throw_if (leb_ℤ r.amount_stroops (pos 0)) not_positive
      ok (record s' { pending_withdrawals = put id r s'.pending_withdrawals })

abbrev finished_at : TransactionStatus → ℕ → Option ℕ → Option ℕ
finished_at completed now old = some now
finished_at _ now old = old

abbrev hash_or : Option ℕ → Option ℕ → Option ℕ
hash_or none old = old
hash_or (some hash) old = some hash

-- The mutation of the transaction that `updateTransactionStatus` finds.
abbrev pub with_status : TransactionStatus → Option ℕ → ℕ → Transaction → Transaction
with_status st hash now t = record t {
  status = st;
  stellar_tx_hash = hash_or hash t.stellar_tx_hash;
  completed_at = finished_at st now t.completed_at;
}

-- `updateTransactionStatus`
unfoldable pub update_transaction_status : ℕ → TransactionStatus → Option ℕ → ℕ → Store → Store
update_transaction_status id st hash now s = record s {
  transactions = update_first (λ t. t.id == id) (with_status st hash now) s.transactions;
}

-- The `catch` block.
unfoldable pub fail_withdrawal : ℕ → ℕ → Store → Store
unfolding update_transaction_status
fail_withdrawal id now s =
    let s' = update_transaction_status id failed none now s in
    record s' { pending_withdrawals = remove id s'.pending_withdrawals }

-- `processWithdrawal` after the payment has ended as it did.
unfoldable pub settle_withdrawal : ℕ → ℕ → Payment → Store → Store
unfolding update_transaction_status fail_withdrawal
settle_withdrawal id now (paid hash) s = update_transaction_status id completed (some hash) now s
settle_withdrawal id now rejected s = fail_withdrawal id now s

-- The payment is made only if the amount can be printed.
abbrev pub payment_of : WithdrawalRequest → Payment → Payment
payment_of r p = elim (stroops_to_xlm_string r.amount_stroops) [ ok _ ↦ p | throw _ ↦ rejected ]

abbrev result_of : WithdrawalRequest → Payment → Outcome ℕ
result_of r p = elim (stroops_to_xlm_string r.amount_stroops) [
  | throw e ↦ throw (money e)
  | ok _ ↦ elim p [ paid hash ↦ ok hash | rejected ↦ throw payment_failed ]
]

-- `processWithdrawal` where nothing else runs during the payment: the result and the store, which
-- is kept when a guard throws.
unfoldable pub process_withdrawal : ℕ → ℕ → Payment → WithdrawalRequest → Store → Outcome ℕ × Store
unfolding start_withdrawal settle_withdrawal
process_withdrawal id now p r s = elim (start_withdrawal id now r s) [
  | ok s' ↦ (result_of r p, settle_withdrawal id now (payment_of r p) s')
  | throw e ↦ (throw e, s)
]
