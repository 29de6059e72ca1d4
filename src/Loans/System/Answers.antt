-- ===== src/Loans/System/Answers.antt =====
-- What a client is answered by the repayment route.
use coop_lumen_index.Base.{ℕ, ◌≡◌, refl, ap, false, none, some, pos}
use coop_lumen_index.Loans.{Loan, Db, active, failed}
use coop_lumen_index.Loans.Doubles.{Doubles}
use coop_lumen_index.Loans.Store.{find_loan, within_ceiling, transaction, update_loan}
use coop_lumen_index.Loans.Repay.{
  RepayBody, unless_active, repaid_row, exceeds, new_repaid, fully_repaid, repay_writes, repay_tx,
  repay_commit, save_repaid,
}

module _ (D : Doubles) (id : ℕ) (body : RepayBody) (date now : ℕ) (db : Db) (loan : Loan)
    (total : ℕ) (found : find_loan id db.loans ≡ some loan) (is_active : loan.status ≡ active)
    (allowed : exceeds D loan body.amount ≡ false)
    (fixed : D.to_fixed (new_repaid D loan body.amount) ≡ pos total) where
  row : Loan
  row = repaid_row loan (fully_repaid D loan body.amount) total date now

  passes_guards : repay_tx D id body date now db ≡ repay_writes D body date now loan db
  unfolding repay_tx
  passes_guards = rw (found, repay_tx) (rw (ap unless_active is_active) (rw allowed refl))

  save_repaid-none :
      within_ceiling row ≡ false
      → save_repaid D loan
          (fully_repaid D loan body.amount)
          (D.to_fixed (new_repaid D loan body.amount))
          date
          now
          db
        ≡ none
  unfolding save_repaid update_loan row
  save_repaid-none above = rw (fixed, save_repaid) (rw (above, update_loan) refl)

  -- A repayment of an active loan that passes the route's own test, and whose new total lies
  -- above the ceiling that the schema computes exactly, is answered with a 500, and nothing is
  -- recorded.
  pub repay_above_ceiling :
      within_ceiling (repaid_row loan (fully_repaid D loan body.amount) total date now) ≡ false
      → repay_commit D id body date now db ≡ (failed, db)
  unfolding repay_commit repay_writes row
  repay_above_ceiling above =
      rw (passes_guards, transaction) (rw (save_repaid-none above, repay_writes) refl)
