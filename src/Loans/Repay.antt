-- ===== src/Loans/Repay.antt =====
-- POST /api/v1/loans/:id/repay.
use Prim.Native.String.{String}
use coop_lumen_index.Base.{ℕ, Bool, not, Option, none, some, ◌==◌, if◌then◌else◌}
use coop_lumen_index.Base.Int.{ℤ, pos, negsuc}
use coop_lumen_index.Loans.{
  Loan, LoanEvent, LogEntry, Status, Db, Response, invalid, not_found, forbidden, conflict,
  exceeds_outstanding, updated, active, repaid, repayment, closed, loan_repayment, loan_closed,
}
use coop_lumen_index.Loans.Doubles.{Doubles}
use coop_lumen_index.Loans.Store.{
  Tx, ◌>>=◌, ◌>>◌, pure, throw, transaction, find_loan, update_loan, insert_event, insert_log,
}
use coop_lumen_index.Loans.Scoring.{on_time_repayments, total_due, bump_reputation}

-- `amount` in stroops.
pub record RepayBody : Type 0 where
  pub amount : ℕ
  pub payment_id : Option ℕ
  pub note : Option String

-- `loan.status !== 'active'`
abbrev pub unless_active : Status → Option Response
unless_active active = none
unless_active s = some (conflict s)

-- The row with its new `amount_repaid`; the column's CHECK refuses a negative number.
abbrev pub repaid_row : Loan → Bool → ℕ → ℕ → ℕ → Loan
repaid_row loan fully total date now = record loan {
  amount_repaid = total;
  status = if fully then repaid else active;
  closed_at = if fully then some date else none;
  updated_at = now;
}

abbrev pub repayment_event : RepayBody → Loan → ℕ → LoanEvent
repayment_event body loan now = record {
  loan_id = loan.id;
  event_type = repayment;
  amount = some body.amount;
  payment_id = body.payment_id;
  note = body.note;
  created_at = now;
}

abbrev pub repayment_log : RepayBody → Loan → Bool → LogEntry
repayment_log body loan fully = record {
  community_id = loan.community_id;
  actor_address = loan.borrower_address;
  action = loan_repayment;
  stellar_tx_hash = none;
  metadata = record {
    loan_id = loan.id;
    amount = some body.amount;
    asset_code = none;
    fully_repaid = some fully;
  };
}

abbrev pub closed_event : Loan → ℕ → LoanEvent
closed_event loan now = record {
  loan_id = loan.id;
  event_type = closed;
  amount = none;
  payment_id = none;
  note = some "Loan fully repaid";
  created_at = now;
}

module _ (D : Doubles) where
  open D use {Double, of_nat, of_stroops, plus, minus, over, gtb, geb, to_fixed}

  -- 1e-7, the double that a stroop reads as.
  abbrev pub tolerance : Double
  tolerance = of_stroops 1

  unfoldable pub repay_check : ℕ → ℕ → RepayBody → Db → Option Response
  repay_check caller id body db =
      if not (gtb (of_stroops body.amount) (of_nat 0))
      then some invalid
      else elim (find_loan id db.loans) [
        | none ↦ some not_found
        | some loan ↦
            if not (caller == loan.borrower_address)
            then some forbidden
            else unless_active loan.status
      ]

  -- due - amount_repaid
  unfoldable pub outstanding : Loan → Double
  outstanding loan = minus (total_due D loan) (of_stroops loan.amount_repaid)

  -- amount > outstanding + 1e-7
  unfoldable pub exceeds : Loan → ℕ → Bool
  exceeds loan amount = gtb (of_stroops amount) (plus (outstanding loan) tolerance)

  unfoldable pub new_repaid : Loan → ℕ → Double
  new_repaid loan amount = plus (of_stroops loan.amount_repaid) (of_stroops amount)

  -- newRepaid >= due - 1e-7
  unfoldable pub fully_repaid : Loan → ℕ → Bool
  fully_repaid loan amount = geb (new_repaid loan amount) (minus (total_due D loan) tolerance)

  unfoldable pub save_repaid : Loan → Bool → ℤ → ℕ → ℕ → Tx Loan
  save_repaid loan fully (negsuc _) date now = throw
  save_repaid loan fully (pos total) date now = update_loan (repaid_row loan fully total date now)

  unfoldable pub close_writes : Loan → ℕ → Tx (Unit {0})
  close_writes loan now = do
    insert_event (closed_event loan now)
    insert_log (record {
      community_id = loan.community_id;
      actor_address = loan.borrower_address;
      action = loan_closed;
      stellar_tx_hash = none;
      metadata = record {
        loan_id = loan.id;
        amount = none;
        asset_code = none;
        fully_repaid = none;
      };
    })
    bump_reputation D loan.community_id loan.borrower_address on_time_repayments now

  -- What the transaction writes for a loan that it has locked and that the amount does not exceed.
  unfoldable pub repay_writes : RepayBody → ℕ → ℕ → Loan → Tx Response
  unfolding new_repaid fully_repaid save_repaid close_writes
  repay_writes body date now loan = do
    let fully = fully_repaid loan body.amount
    row ← save_repaid loan fully (to_fixed (new_repaid loan body.amount)) date now
    insert_event (repayment_event body loan now)
    insert_log (repayment_log body loan fully)
    if fully then close_writes loan now else pure tt
    pure (updated row)

  unfoldable pub repay_tx : ℕ → RepayBody → ℕ → ℕ → Tx Response
  unfolding repay_writes exceeds outstanding
  repay_tx id body date now db = elim (find_loan id db.loans) [
    | none ↦ some (not_found, db)
    | some loan ↦ elim (unless_active loan.status) [
      | some refusal ↦ some (refusal, db)
      | none ↦
          if exceeds loan body.amount
          then some (exceeds_outstanding (to_fixed (outstanding loan)), db)
          else repay_writes body date now loan db
    ]
  ]

  unfoldable pub repay_commit : ℕ → RepayBody → ℕ → ℕ → Db → Response × Db
  unfolding repay_tx
  repay_commit id body date now db = transaction (repay_tx id body date now) db
