-- ===== src/Loans/System/Ledger.antt =====
-- On the columns of a loan, its status, and the log of its events.
use coop_lumen_index.Base.{
  ℕ, ◌+◌, ◌<◌, ◌^◌, ◌≡◌, refl, ap, ◌∙◌, Bool, true, false, Option, none, some, List, [], ◌∷◌, ◌++◌,
  arith, ◌==◌, ◌&&◌, if◌then◌else◌, pos_part, All, All-append,
}
use coop_lumen_index.Loans.{
  Loan, LoanEvent, EventType, repayment, Db, Status, pending, active, repaid, cancelled,
}
use coop_lumen_index.Loans.Doubles.{Doubles, AddsStroops}
use coop_lumen_index.Loans.Store.{find_loan, replace_loan, within_ceiling}
use coop_lumen_index.Loans.Rows.{
  find_loan_id, find_loan-append, find_loan-written, All-find, All-replace,
}
use coop_lumen_index.Loans.Create.{CreateBody}
use coop_lumen_index.Loans.Repay.{
  RepayBody, repaid_row, repayment_event, closed_event, fully_repaid, new_repaid,
}
use coop_lumen_index.Loans.System.{Request, repays, Clock, commit}
use coop_lumen_index.Loans.System.Effects.Others.{pending_row}
use coop_lumen_index.Loans.System.Changes.{
  Change, unchanged, created, disbursed, repaid_by, defaulted, cancels_pending, commit-Change,
}

abbrev is_set : Option ℕ → Bool
is_set none = false
is_set (some _) = true

abbrev not_yet_active : Status → Bool
not_yet_active pending = true
not_yet_active cancelled = true
not_yet_active _ = false

abbrev is_closed : Status → Bool
is_closed repaid = true
is_closed Status.defaulted = true
is_closed _ = false

-- A loan has a disbursement time once it was active, a closing time if it is repaid or defaulted,
-- has repaid nothing before it was active, and never more than the ceiling of the schema.
pub record HasColumns (l : Loan) : Type 0 where
  pub disbursed : is_set l.disbursed_at ≡ (if not_yet_active l.status then false else true)
  pub closing : is_set l.closed_at ≡ is_closed l.status
  pub untouched : not_yet_active l.status ≡ true → l.amount_repaid ≡ 0
  pub ceiling : within_ceiling l ≡ true

pending_row-HasColumns :
    (body : CreateBody) (fresh now : ℕ) → HasColumns (pending_row body fresh now)
pending_row-HasColumns body fresh now = ground arith

row_columns :
    {loan : Loan} (fully : Bool) (total date now : ℕ)
    → HasColumns loan
    → loan.status ≡ active
    → within_ceiling (repaid_row loan fully total date now) ≡ true
    → HasColumns (repaid_row loan fully total date now)
row_columns true total date now old s c = ground arith
row_columns false total date now old s c = ground arith

module _ (D : Doubles) where
  Change-HasColumns :
      (r : Request) (k : Clock) (db after : Db)
      → All HasColumns db.loans
      → Change D k db after r
      → All HasColumns after.loans
  Change-HasColumns r k db after h (unchanged e) = rw e h
  Change-HasColumns r k db after h (created body c) =
      rw c.loans
        (All-append HasColumns db.loans _ h (pending_row-HasColumns body k.fresh k.now, tt))
  Change-HasColumns r k db after h (disbursed id body loan e s c) =
      let old = All-find HasColumns id db.loans h e in
      rw c.loans (All-replace HasColumns _ db.loans h (ground arith))
  Change-HasColumns r k db after h (repaid_by id body loan e s _ c) =
      let old = All-find HasColumns id db.loans h e in
      rw c.loans (All-replace HasColumns _ db.loans h (row_columns _ _ _ _ old s c.ceiling))
  Change-HasColumns r k db after h (defaulted id text loan e s c) =
      let old = All-find HasColumns id db.loans h e in
      rw c.loans (All-replace HasColumns _ db.loans h (ground arith))
  Change-HasColumns r k db after h (cancels_pending id loan e s _ c) =
      let old = All-find HasColumns id db.loans h e in
      rw c (All-replace HasColumns _ db.loans h (ground arith))

  -- If it was so before, every request keeps the columns of every loan in agreement with its
  -- status: a disbursement time once it was active, a closing time if it is repaid or defaulted,
  -- nothing repaid before it was active, and never more repaid than the schema's ceiling.
  pub commit-HasColumns :
      (r : Request) (k : Clock) (db : Db)
      → All HasColumns db.loans
      → All HasColumns (commit D r k db).1.loans
  commit-HasColumns r k db h =
      Change-HasColumns r k db (commit D r k db).1 h (commit-Change D k db r)

abbrev pub is_repayment : EventType → Bool
is_repayment repayment = true
is_repayment _ = false

abbrev pub amount_or_zero : Option ℕ → ℕ
amount_or_zero none = 0
amount_or_zero (some n) = n

abbrev pub event_amount : ℕ → LoanEvent → ℕ
event_amount i e =
    if (e.loan_id == i) && is_repayment e.event_type then amount_or_zero e.amount else 0

-- The sum of the repayments that the log holds for a loan.
unfoldable pub logged : ℕ → List LoanEvent → ℕ
logged i [] = 0
logged i (e ∷ es) = event_amount i e + logged i es

logged-append :
    (i : ℕ) (e : LoanEvent) (es : List LoanEvent)
    → logged i (es ++ e ∷ []) ≡ logged i es + event_amount i e
unfolding logged
logged-append i e [] = omega arith
logged-append i e (x ∷ es) = omega (arith, logged-append i e es)

abbrev pub repaid_of : Option Loan → ℕ
repaid_of none = 0
repaid_of (some l) = l.amount_repaid

-- The amount repaid of every loan is the sum of its logged repayments.
abbrev pub IsReconciled : Db → Type 0
IsReconciled db = (i : ℕ) → repaid_of (find_loan i db.loans) ≡ logged i db.loan_events

-- The amounts of a repayment stay where doubles add stroops exactly.
abbrev pub IsSmall : Request → Db → Type 0
IsSmall (repays id body) db = repaid_of (find_loan id db.loans) + body.amount < 2 ^ 50
IsSmall _ db = Unit

module _ (i : ℕ) (db after : Db) where
  repaid_written :
      (id : ℕ) (row old : Loan)
      → find_loan id db.loans ≡ some old
      → row.id ≡ old.id
      → after.loans ≡ replace_loan row db.loans
      → repaid_of (find_loan i after.loans)
        ≡ (if id == i then row.amount_repaid else repaid_of (find_loan i db.loans))
  repaid_written id row old e same p =
      rw (p, find_loan-written i id row old db.loans e same) (ground arith)

  logged_after :
      (e : LoanEvent)
      → after.loan_events ≡ db.loan_events ++ e ∷ []
      → logged i after.loan_events ≡ logged i db.loan_events + event_amount i e
  logged_after e p = rw p (logged-append i e db.loan_events)

module _ (D : Doubles) (exact : AddsStroops D) where
  -- A full repayment logs a second event, which carries no amount.
  logged_repayment :
      (i : ℕ) (body : RepayBody) (loan : Loan) (now : ℕ) (fully : Bool) (es : List LoanEvent)
      → logged i (
          if fully
          then (es ++ repayment_event body loan now ∷ []) ++ closed_event loan now ∷ []
          else es ++ repayment_event body loan now ∷ [])
        ≡ logged i es + (if loan.id == i then body.amount else 0)
  logged_repayment i body loan now true es = ground (
    arith,
    logged-append i (closed_event loan now) (es ++ repayment_event body loan now ∷ []),
    logged-append i (repayment_event body loan now) es,
  )
  logged_repayment i body loan now false es =
      ground (arith, logged-append i (repayment_event body loan now) es)

  Change-IsReconciled :
      (r : Request) (k : Clock) (db after : Db)
      → IsReconciled db
      → IsSmall r db
      → Change D k db after r
      → IsReconciled after
  unfolding new_repaid
  Change-IsReconciled r k db after h small (unchanged e) i = rw e (h i)
  Change-IsReconciled r k db after h small (created body c) i =
      let row = pending_row body k.fresh k.now in
      let found = ap (find_loan i) c.loans ∙ find_loan-append i row db.loans c.new_id in
      let log = logged_after i db after _ c.events in
      ground (arith, found, log, h i, c.new_id, h k.fresh)
  Change-IsReconciled r k db after h small (disbursed id body loan e s c) i =
      let paid = repaid_written i db after id _ loan e refl c.loans in
      let log = logged_after i db after _ c.events in ground (arith, paid, log, h i)
  Change-IsReconciled (repays id body) k db after h small (repaid_by _ _ loan e s _ c) i =
      let small' : loan.amount_repaid + body.amount < 2 ^ 50 = ground arith in
      let paid = repaid_written i db after id _ loan e refl c.loans in
      let log =
        ap (logged i) c.events
        ∙ logged_repayment i body loan k.now (fully_repaid D loan body.amount) db.loan_events in
      let sum = ap pos_part (exact.to_fixed-plus loan.amount_repaid body.amount small') in
      ground (arith, paid, log, sum, h i, find_loan_id id db.loans {l = loan} e)
  Change-IsReconciled r k db after h small (defaulted id text loan e s c) i =
      let paid = repaid_written i db after id _ loan e refl c.loans in
      let log = logged_after i db after _ c.events in ground (arith, paid, log, h i)
  Change-IsReconciled r k db after h small (cancels_pending id loan e s _ c) i =
      let paid = repaid_written i db after id _ loan e refl (ap (λ (d : Db). d.loans) c) in
      ground (arith, paid, ap (λ (d : Db). d.loan_events) c, h i)

  -- Every request keeps the amount repaid of every loan equal to the sum of its logged
  -- repayments, if it was so before, as long as a repayment stays below 2^50 stroops in all and
  -- doubles add such stroops exactly.
  pub commit-IsReconciled :
      (r : Request) (k : Clock) (db : Db)
      → IsReconciled db
      → IsSmall r db
      → IsReconciled (commit D r k db).1
  commit-IsReconciled r k db h small =
      Change-IsReconciled r k db (commit D r k db).1 h small (commit-Change D k db r)
