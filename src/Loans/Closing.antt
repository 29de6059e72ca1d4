-- ===== src/Loans/Closing.antt =====
-- POST /api/v1/loans/:id/default and DELETE /api/v1/loans/:id.
use Prim.Native.String.{String}
use coop_lumen_index.Base.{ℕ, not, Option, none, some, ◌&&◌, ◌==◌, if◌then◌else◌}
use coop_lumen_index.Loans.{
  Loan, LoanEvent, Db, Response, not_found, forbidden, updated, cancelled_id, Status, cancelled,
  loan_defaulted, EventType,
}
use coop_lumen_index.Loans.Doubles.{Doubles}
use coop_lumen_index.Loans.Store.{
  Tx, ◌>>=◌, ◌>>◌, pure, transaction, find_loan, update_loan, insert_event, insert_log,
}
use coop_lumen_index.Loans.Scoring.{defaults, bump_reputation}
use coop_lumen_index.Loans.Disburse.{unless_pending}
use coop_lumen_index.Loans.Repay.{unless_active}

unfoldable pub default_check : ℕ → ℕ → Db → Option Response
default_check caller id db = elim (find_loan id db.loans) [
  | none ↦ some not_found
  | some loan ↦
      if not (caller == loan.lender_address) then some forbidden else unless_active loan.status
]

abbrev pub defaulted_event : Option String → Loan → ℕ → LoanEvent
defaulted_event note loan now = record {
  loan_id = loan.id;
  event_type = EventType.defaulted;
  amount = none;
  payment_id = none;
  note = note;
  created_at = now;
}

module _ (D : Doubles) where
  unfoldable pub default_writes : Option String → ℕ → Loan → Tx Response
  default_writes note now loan = do
    row ←
        update_loan
          (record loan { status = Status.defaulted; closed_at = some now; updated_at = now })
    insert_event (defaulted_event note loan now)
    insert_log (record {
      community_id = loan.community_id;
      actor_address = loan.lender_address;
      action = loan_defaulted;
      stellar_tx_hash = none;
      metadata = record {
        loan_id = loan.id;
        amount = none;
        asset_code = none;
        fully_repaid = none;
      };
    })
    bump_reputation D loan.community_id loan.borrower_address defaults now
    pure (updated row)

  unfoldable pub default_tx : ℕ → Option String → ℕ → Tx Response
  unfolding default_writes
  default_tx id note now db = elim (find_loan id db.loans) [
    | none ↦ some (not_found, db)
    | some loan ↦ elim (unless_active loan.status) [
      | some refusal ↦ some (refusal, db)
      | none ↦ default_writes note now loan db
    ]
  ]

  unfoldable pub default_commit : ℕ → Option String → ℕ → Db → Response × Db
  unfolding default_tx
  default_commit id note now db = transaction (default_tx id note now) db

unfoldable pub cancel_check : ℕ → ℕ → Db → Option Response
cancel_check caller id db = elim (find_loan id db.loans) [
  | none ↦ some not_found
  | some loan ↦
      if not (caller == loan.borrower_address) && not (caller == loan.lender_address)
      then some forbidden
      else none
]

-- UPDATE loans SET status = 'cancelled' WHERE id = $1 AND status = 'pending' RETURNING id: one
-- statement, whose condition is tested again under its own lock.
unfoldable pub cancel_tx : ℕ → ℕ → Tx Response
cancel_tx id now db = elim (find_loan id db.loans) [
  | none ↦ some (not_found, db)
  | some loan ↦ elim (unless_pending loan.status) [
    | some _ ↦ some (not_found, db)
    | none ↦
        (update_loan (record loan { status = cancelled; updated_at = now })
            >> pure (cancelled_id loan.id))
          db
  ]
]

unfoldable pub cancel_commit : ℕ → ℕ → Db → Response × Db
unfolding cancel_tx
cancel_commit id now db = transaction (cancel_tx id now) db
