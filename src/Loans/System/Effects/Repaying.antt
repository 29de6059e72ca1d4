-- ===== src/Loans/System/Effects/Repaying.antt =====
-- What a repayment writes.
use coop_lumen_index.Base.{
  ℕ, ◌≡◌, refl, Bool, true, false, none, some, [], ◌∷◌, ◌++◌, arith, ℤ, pos, negsuc, pos_part,
  if◌then◌else◌,
}
use coop_lumen_index.Loans.{
  Loan, LoanEvent, EventType, LogEntry, Status, active, loan_repayment, loan_closed, Db,
}
use coop_lumen_index.Loans.Doubles.{Doubles}
use coop_lumen_index.Loans.Store.{replace_loan, within_ceiling, pure}
use coop_lumen_index.Loans.Scoring.{on_time_repayments}
use coop_lumen_index.Loans.Repay.{
  RepayBody, repaid_row, new_repaid, fully_repaid, save_repaid, close_writes, repay_writes,
  repayment_event, closed_event,
}
use coop_lumen_index.Loans.System.Effects.{
  After, event_of, entry_of, IsKept, raised, returned, After-bind, After-map, update_loan-After,
  insert_event-After, insert_log-After, tallied, bump_reputation-After,
}

module _ (D : Doubles) (body : RepayBody) (date now : ℕ) where
  abbrev pub row_after : Loan → Loan
  row_after loan = record loan {
    amount_repaid = pos_part (D.to_fixed (new_repaid D loan body.amount));
    status = if fully_repaid D loan body.amount then Status.repaid else active;
    closed_at = if fully_repaid D loan body.amount then some date else none;
    updated_at = now;
  }

  abbrev pub repayment_of : Loan → LoanEvent
  repayment_of loan =
      event_of loan.id EventType.repayment (some body.amount) body.payment_id body.note now

  abbrev pub closing_of : Loan → LoanEvent
  closing_of loan = event_of loan.id EventType.closed none none (some "Loan fully repaid") now

  abbrev pub audit_of : Loan → LogEntry
  audit_of loan =
      entry_of loan.community_id loan.borrower_address loan_repayment none loan.id
        (some body.amount) none (some (fully_repaid D loan body.amount))

  abbrev pub closing_audit_of : Loan → LogEntry
  closing_audit_of loan =
      entry_of loan.community_id loan.borrower_address loan_closed none loan.id none none none

  pub record Repays (loan : Loan) (db db' : Db) : Type 0 where
    pub fixed :
        D.to_fixed (new_repaid D loan body.amount)
        ≡ pos (pos_part (D.to_fixed (new_repaid D loan body.amount)))
    pub ceiling : within_ceiling (row_after loan) ≡ true
    pub loans : db'.loans ≡ replace_loan (row_after loan) db.loans
    pub events : db'.loan_events ≡ (
        if fully_repaid D loan body.amount
        then (db.loan_events ++ repayment_of loan ∷ []) ++ closing_of loan ∷ []
        else db.loan_events ++ repayment_of loan ∷ [])
    pub audit : db'.transactions_log ≡ (
        if fully_repaid D loan body.amount
        then (db.transactions_log ++ audit_of loan ∷ []) ++ closing_audit_of loan ∷ []
        else db.transactions_log ++ audit_of loan ∷ [])
    pub kept : IsKept db db'
    pub scores : db'.reputation_scores ≡ (
        if fully_repaid D loan body.amount
        then tallied D loan.community_id loan.borrower_address on_time_repayments now
            db.reputation_scores
        else db.reputation_scores)

  save_repaid-After :
      (loan : Loan) (fully : Bool) (z : ℤ) (db : Db)
      → After (save_repaid D loan fully z date now db) λ r db'.
        let row = repaid_row loan fully (pos_part z) date now in
        (r ≡ row)
        × (z ≡ pos (pos_part z))
        × (within_ceiling row ≡ true)
        × (db' ≡ record db { loans = replace_loan row db.loans })
  unfolding save_repaid
  save_repaid-After loan fully (pos total) db =
      After-map (update_loan-After (repaid_row loan fully total date now) db)
        λ r db' h. ground arith
  save_repaid-After loan fully (negsuc n) db = raised refl

  close_writes-After :
      (loan : Loan) (db : Db)
      → After (close_writes D loan now db) λ _ db'.
        (db'.loans ≡ db.loans)
        × IsKept db db'
        × (db'.transactions_log ≡ db.transactions_log ++ closing_audit_of loan ∷ [])
        × (db'.loan_events ≡ db.loan_events ++ closed_event loan now ∷ [])
        × (db'.reputation_scores
            ≡ tallied D loan.community_id loan.borrower_address on_time_repayments now
                db.reputation_scores)
  unfolding close_writes
  close_writes-After loan db =
      After-bind (insert_event-After (closed_event loan now) db) λ _ db₁ e₁.
        After-bind (insert_log-After _ db₁) λ _ db₂ e₂.
          After-map
            (bump_reputation-After D loan.community_id loan.borrower_address on_time_repayments now
              db₂)
            λ _ db₃ e₃. ground arith

  finish-After :
      (loan : Loan) (fully : Bool) (db : Db)
      → After ((if fully then close_writes D loan now else pure tt) db) λ _ db'.
        (db'.loans ≡ db.loans)
        × IsKept db db'
        × (db'.transactions_log ≡ (
            if fully
            then db.transactions_log ++ closing_audit_of loan ∷ []
            else db.transactions_log))
        × (db'.loan_events
            ≡ (if fully then db.loan_events ++ closed_event loan now ∷ [] else db.loan_events))
        × (db'.reputation_scores ≡ (
            if fully
            then tallied D loan.community_id loan.borrower_address on_time_repayments now
                db.reputation_scores
            else db.reputation_scores))
  finish-After loan true db = close_writes-After loan db
  finish-After loan false db = returned tt db refl (refl, (refl, refl), refl, refl, refl)

  pub repay_writes-Repays :
      (loan : Loan) (db : Db)
      → After (repay_writes D body date now loan db) (λ r db'. Repays loan db db')
  unfolding repay_writes
  repay_writes-Repays loan db = After-bind (save_repaid-After loan _ _ db) λ row db₁ e₁.
      After-bind (insert_event-After (repayment_event body loan now) db₁) λ _ db₂ e₂.
        After-bind (insert_log-After _ db₂) λ _ db₃ e₃.
          After-bind (finish-After loan (fully_repaid D loan body.amount) db₃)
            λ _ db₄ e₄. returned _ db₄ refl (ground arith)
