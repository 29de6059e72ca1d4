-- ===== src/Loans/Disburse.antt =====
-- POST /api/v1/loans/:id/disburse.
use Prim.Native.String.{String}
use coop_lumen_index.Base.{ℕ, not, Option, none, some, ◌==◌, if◌then◌else◌}
use coop_lumen_index.Loans.{
  Loan, LoanEvent, Status, Db, Response, not_found, forbidden, conflict, updated, pending, active,
  disbursed, loan_disbursed,
}
use coop_lumen_index.Loans.Store.{
  Tx, ◌>>=◌, ◌>>◌, pure, transaction, find_loan, update_loan, insert_event, insert_log,
}

pub record DisburseBody : Type 0 where
  pub stellar_tx_hash : Option String
  pub note : Option String

-- `loan.status !== 'pending'`
abbrev pub unless_pending : Status → Option Response
unless_pending pending = none
unless_pending s = some (conflict s)

unfoldable pub disburse_check : ℕ → ℕ → Db → Option Response
disburse_check caller id db = elim (find_loan id db.loans) [
  | none ↦ some not_found
  | some loan ↦
      if not (caller == loan.lender_address) then some forbidden else unless_pending loan.status
]

abbrev pub disbursed_event : DisburseBody → Loan → ℕ → LoanEvent
disbursed_event body loan now = record {
  loan_id = loan.id;
  event_type = disbursed;
  amount = some loan.amount;
  payment_id = none;
  note = body.note;
  created_at = now;
}

-- What the transaction writes for a loan that it has locked.
unfoldable pub disburse_writes : DisburseBody → ℕ → Loan → Tx Response
disburse_writes body now loan = do
  row ← update_loan (record loan { status = active; disbursed_at = some now; updated_at = now })
  insert_event (disbursed_event body loan now)
  insert_log (record {
    community_id = loan.community_id;
    actor_address = loan.lender_address;
    action = loan_disbursed;
    stellar_tx_hash = body.stellar_tx_hash;
    metadata = record {
      loan_id = loan.id;
      amount = some loan.amount;
      asset_code = none;
      fully_repaid = none;
    };
  })
  pure (updated row)

unfoldable pub disburse_tx : ℕ → DisburseBody → ℕ → Tx Response
unfolding disburse_writes
disburse_tx id body now db = elim (find_loan id db.loans) [
  | none ↦ some (not_found, db)
  | some loan ↦ elim (unless_pending loan.status) [
    | some refusal ↦ some (refusal, db)
    | none ↦ disburse_writes body now loan db
  ]
]

unfoldable pub disburse_commit : ℕ → DisburseBody → ℕ → Db → Response × Db
unfolding disburse_tx
disburse_commit id body now db = transaction (disburse_tx id body now) db
