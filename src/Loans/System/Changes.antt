-- ===== src/Loans/System/Changes.antt =====
-- Every transaction of the loan routes writes all that its route promises, or nothing.
use Prim.Native.String.{String}
use coop_lumen_index.Base.{
  ℕ, ◌≡◌, refl, ap, ◌⊎◌, inl, inr, true, false, Option, some, arith, Option-cases, Bool-cases,
}
use coop_lumen_index.Loans.{Loan, Db, Status, pending, active, cancelled, conflict}
use coop_lumen_index.Loans.Doubles.{Doubles}
use coop_lumen_index.Loans.Store.{find_loan, replace_loan, within_ceiling}
use coop_lumen_index.Loans.Create.{CreateBody, create_tx, create_commit}
use coop_lumen_index.Loans.Disburse.{DisburseBody, unless_pending, disburse_tx, disburse_commit}
use coop_lumen_index.Loans.Repay.{RepayBody, unless_active, exceeds, repay_tx, repay_commit}
use coop_lumen_index.Loans.Closing.{default_tx, default_commit, cancel_tx, cancel_commit}
use coop_lumen_index.Loans.System.{
  Request, creates, disburses, repays, marks_default, cancels, Clock, commit,
}
use coop_lumen_index.Loans.System.Effects.{
  After, returned, After-map, After-bind, transaction-After, update_loan-After,
}
use coop_lumen_index.Loans.System.Effects.Repaying.{Repays, repay_writes-Repays}
use coop_lumen_index.Loans.System.Effects.Others.{
  Disburses, disburse_writes-Disburses, Defaults, default_writes-Defaults, Creates,
  create_tx-Creates,
}

abbrev pub cancelled_row : Loan → ℕ → Loan
cancelled_row loan now = record loan { status = cancelled; updated_at = now }

module _ (D : Doubles) where
  -- The specification of one transaction: nothing, or all of what the request asks for on a loan
  -- in the state that the request needs.
  pub data Change (k : Clock) (db db' : Db) : Request → Type 0 where
    unchanged : {r : Request} → db' ≡ db → Change k db db' r
    created :
        (body : CreateBody) → Creates D body k.fresh k.now db db' → Change k db db' (creates body)
    disbursed :
        (id : ℕ) (body : DisburseBody) (loan : Loan)
        → find_loan id db.loans ≡ some loan
        → loan.status ≡ pending
        → Disburses body k.now loan db db'
        → Change k db db' (disburses id body)
    repaid_by :
        (id : ℕ) (body : RepayBody) (loan : Loan)
        → find_loan id db.loans ≡ some loan
        → loan.status ≡ active
        → exceeds D loan body.amount ≡ false
        → Repays D body k.date k.now loan db db'
        → Change k db db' (repays id body)
    defaulted :
        (id : ℕ) (note : Option String) (loan : Loan)
        → find_loan id db.loans ≡ some loan
        → loan.status ≡ active
        → Defaults D note k.now loan db db'
        → Change k db db' (marks_default id note)
    cancels_pending :
        (id : ℕ) (loan : Loan)
        → find_loan id db.loans ≡ some loan
        → loan.status ≡ pending
        → within_ceiling loan ≡ true
        → db' ≡ record db { loans = replace_loan (cancelled_row loan k.now) db.loans }
        → Change k db db' (cancels id)

unless_active_cases : (s : Status) → (unless_active s ≡ some (conflict s)) ⊎ (s ≡ active)
unless_active_cases s = ground arith

unless_pending_cases : (s : Status) → (unless_pending s ≡ some (conflict s)) ⊎ (s ≡ pending)
unless_pending_cases s = ground arith

module _ (D : Doubles) (k : Clock) (db : Db) where
  repay_tx-Change :
      (id : ℕ) (body : RepayBody)
      → After (repay_tx D id body k.date k.now db) (λ _ db'. Change D k db db' (repays id body))
  unfolding repay_tx
  repay_tx-Change id body = elim (Option-cases (find_loan id db.loans)) [
    | inl e ↦ rw (e, repay_tx) (returned _ db refl (unchanged refl))
    | inr (loan, e) ↦ elim (unless_active_cases loan.status) [
      | inl u ↦ rw (e, repay_tx) (rw u (returned _ db refl (unchanged refl)))
      | inr a ↦ elim (Bool-cases (exceeds D loan body.amount)) [
        | inl x ↦
            rw (e, repay_tx) (rw (ap unless_active a) (rw x (returned _ db refl (unchanged refl))))
        | inr x ↦
            rw (e, repay_tx)
              (rw (ap unless_active a) (
                rw x (
                  After-map (repay_writes-Repays D body k.date k.now loan db)
                    λ _ db' h. repaid_by id body loan e a x h)))
      ]
    ]
  ]

  disburse_tx-Change :
      (id : ℕ) (body : DisburseBody)
      → After (disburse_tx id body k.now db) (λ _ db'. Change D k db db' (disburses id body))
  unfolding disburse_tx
  disburse_tx-Change id body = elim (Option-cases (find_loan id db.loans)) [
    | inl e ↦ rw (e, disburse_tx) (returned _ db refl (unchanged refl))
    | inr (loan, e) ↦ elim (unless_pending_cases loan.status) [
      | inl u ↦ rw (e, disburse_tx) (rw u (returned _ db refl (unchanged refl)))
      | inr a ↦
          rw (e, disburse_tx)
            (rw (ap unless_pending a) (
              After-map (disburse_writes-Disburses body k.now loan db)
                λ _ db' h. disbursed id body loan e a h))
    ]
  ]

  default_tx-Change :
      (id : ℕ) (note : Option String)
      → After (default_tx D id note k.now db) (λ _ db'. Change D k db db' (marks_default id note))
  unfolding default_tx
  default_tx-Change id note = elim (Option-cases (find_loan id db.loans)) [
    | inl e ↦ rw (e, default_tx) (returned _ db refl (unchanged refl))
    | inr (loan, e) ↦ elim (unless_active_cases loan.status) [
      | inl u ↦ rw (e, default_tx) (rw u (returned _ db refl (unchanged refl)))
      | inr a ↦
          rw (e, default_tx)
            (rw (ap unless_active a) (
              After-map (default_writes-Defaults D note k.now loan db)
                λ _ db' h. defaulted id note loan e a h))
    ]
  ]

  cancel_tx-Change :
      (id : ℕ) → After (cancel_tx id k.now db) (λ _ db'. Change D k db db' (cancels id))
  unfolding cancel_tx
  cancel_tx-Change id = elim (Option-cases (find_loan id db.loans)) [
    | inl e ↦ rw (e, cancel_tx) (returned _ db refl (unchanged refl))
    | inr (loan, e) ↦ elim (unless_pending_cases loan.status) [
      | inl u ↦ rw (e, cancel_tx) (rw u (returned _ db refl (unchanged refl)))
      | inr a ↦
          rw (e, cancel_tx)
            (rw (ap unless_pending a) (
              After-bind (update_loan-After (cancelled_row loan k.now) db)
                λ row db₁ h. returned _ db₁ refl (cancels_pending id loan e a h.1 h.2)))
    ]
  ]

  create_tx-Change :
      (body : CreateBody)
      → After (create_tx D body k.fresh k.now db) (λ _ db'. Change D k db db' (creates body))
  create_tx-Change body =
      After-map (create_tx-Creates D body k.fresh k.now db) λ _ db' h. created body h

  either_way : {A : Type 0} {B : Type 0} → (A → B) → A ⊎ B → B
  either_way f (inl a) = f a
  either_way f (inr b) = b

  -- The transaction of every loan route either leaves all the tables as they were, or makes
  -- exactly one of five changes in full: a pending loan with its created event, audit entry and
  -- tally; a pending loan made active; a repayment of an active loan within the schema's ceiling
  -- with its events, entries and, if it is full, its tally; an active loan defaulted with its
  -- tally; or a pending loan cancelled.
  pub commit-Change : (r : Request) → Change D k db (commit D r k db).1 r
  unfolding commit create_commit disburse_commit repay_commit default_commit cancel_commit
  commit-Change (creates body) =
      either_way unchanged
        (transaction-After (create_tx D body k.fresh k.now) db (create_tx-Change body))
  commit-Change (disburses id body) =
      either_way unchanged
        (transaction-After (disburse_tx id body k.now) db (disburse_tx-Change id body))
  commit-Change (repays id body) =
      either_way unchanged
        (transaction-After (repay_tx D id body k.date k.now) db (repay_tx-Change id body))
  commit-Change (marks_default id note) =
      either_way unchanged
        (transaction-After (default_tx D id note k.now) db (default_tx-Change id note))
  commit-Change (cancels id) =
      either_way unchanged (transaction-After (cancel_tx id k.now) db (cancel_tx-Change id))
