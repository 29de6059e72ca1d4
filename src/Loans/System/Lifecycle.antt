-- ===== src/Loans/System/Lifecycle.antt =====
-- The life of one loan under all requests: which rows can follow which.
use coop_lumen_index.Base.{
  ℕ, ◌≡◌, refl, ◌∙◌, Bool, true, false, some, List, arith, ◌==◌, if◌then◌else◌,
}
use mathlib.Core.Path.{subst}
use native.Mathlib.Decide.{ℕ_discrete}
use coop_lumen_index.Loans.{Loan, Db, Status, pending, active, repaid, cancelled}
use coop_lumen_index.Loans.Doubles.{Doubles}
use coop_lumen_index.Loans.Store.{find_loan, replace_loan}
use coop_lumen_index.Loans.Rows.{find_loan-written, find_loan-append_old}
use coop_lumen_index.Loans.Repay.{repaid_row}
use coop_lumen_index.Loans.System.{
  Request, Clock, commit, State, Step, admit, run, Reach, here, next,
}
use coop_lumen_index.Loans.System.Changes.{
  Change, unchanged, created, disbursed, repaid_by, defaulted, cancels_pending, cancelled_row,
  commit-Change,
}

-- The row of a loan before and after one transaction.
pub data Moves (l l' : Loan) : Type 0 where
  stays : l' ≡ l → Moves l l'
  activates :
      (now : ℕ)
      → l.status ≡ pending
      → l' ≡ record l { status = active; disbursed_at = some now; updated_at = now }
      → Moves l l'
  is_cancelled : (now : ℕ) → l.status ≡ pending → l' ≡ cancelled_row l now → Moves l l'
  is_repaid :
      (fully : Bool) (total date now : ℕ)
      → l.status ≡ active
      → l' ≡ repaid_row l fully total date now
      → Moves l l'
  defaults :
      (now : ℕ)
      → l.status ≡ active
      → l' ≡ record l { status = Status.defaulted; closed_at = some now; updated_at = now }
      → Moves l l'

-- Writing the row of one loan moves that loan, and leaves the others alone.
module _ (i id : ℕ) (row : Loan) {l old : Loan} (ls : List Loan) (e : find_loan id ls ≡ some old)
    (same : row.id ≡ old.id) (found : find_loan i ls ≡ some l) where
  written : find_loan i (replace_loan row ls) ≡ (if id == i then some row else some l)
  written = find_loan-written i id row old ls e same ∙ rw found refl

  replace-Moves :
      Moves old row → (l' : Loan) × (find_loan i (replace_loan row ls) ≡ some l') × Moves l l'
  replace-Moves m = elim (ℕ_discrete id i) [
    | yes p ↦
        let one : old ≡ l = ground arith in
        (row, written ∙ ground arith, subst (λ x. Moves x row) one m)
    | no p ↦ (l, written ∙ ground arith, stays refl)
  ]

module _ (D : Doubles) where
  Change-Moves :
      (r : Request) (k : Clock) (db after : Db) (i : ℕ) (l : Loan)
      → find_loan i db.loans ≡ some l
      → Change D k db after r
      → (l' : Loan) × (find_loan i after.loans ≡ some l') × Moves l l'
  Change-Moves r k db after i l found (unchanged e) = (l, rw e found, stays refl)
  Change-Moves r k db after i l found (created body c) =
      (l, rw c.loans (find_loan-append_old i _ l db.loans found), stays refl)
  Change-Moves r k db after i l found (disbursed id body loan e s c) =
      rw c.loans (replace-Moves i id _ db.loans e refl found (activates k.now s refl))
  Change-Moves r k db after i l found (repaid_by id body loan e s _ c) =
      rw c.loans (replace-Moves i id _ db.loans e refl found (is_repaid _ _ k.date k.now s refl))
  Change-Moves r k db after i l found (defaulted id text loan e s c) =
      rw c.loans (replace-Moves i id _ db.loans e refl found (defaults k.now s refl))
  Change-Moves r k db after i l found (cancels_pending id loan e s _ c) =
      rw c (replace-Moves i id _ db.loans e refl found (is_cancelled k.now s refl))

  -- Under any request a loan that exists is kept, and its row makes one move of the lifecycle or
  -- none: pending to active or cancelled, active to active, repaid or defaulted.
  pub commit-Moves :
      (r : Request) (k : Clock) (db : Db) (i : ℕ) (l : Loan)
      → find_loan i db.loans ≡ some l
      → (l' : Loan) × (find_loan i (commit D r k db).1.loans ≡ some l') × Moves l l'
  commit-Moves r k db i l found =
      Change-Moves r k db (commit D r k db).1 i l found (commit-Change D k db r)

-- Which statuses can follow a status, in any number of moves.
abbrev pub leads : Status → Status → Bool
leads pending _ = true
leads active pending = false
leads active cancelled = false
leads active _ = true
leads repaid repaid = true
leads repaid _ = false
leads Status.defaulted Status.defaulted = true
leads Status.defaulted _ = false
leads cancelled cancelled = true
leads cancelled _ = false

abbrev pub is_final : Status → Bool
is_final pending = false
is_final active = false
is_final _ = true

pub record Follows (l l' : Loan) : Type 0 where
  pub id : l'.id ≡ l.id
  pub community : l'.community_id ≡ l.community_id
  pub borrower : l'.borrower_address ≡ l.borrower_address
  pub lender : l'.lender_address ≡ l.lender_address
  pub amount : l'.amount ≡ l.amount
  pub rate : l'.interest_rate ≡ l.interest_rate
  pub status : leads l.status l'.status ≡ true
  pub final : is_final l.status ≡ true → l' ≡ l

Follows-refl : (l : Loan) → Follows l l
Follows-refl l = ground arith

Moves-Follows : {l l' : Loan} → Moves l l' → Follows l l'
Moves-Follows {l} {l'} (stays e) = rw e (Follows-refl l)
Moves-Follows (activates now s e) = ground arith
Moves-Follows (is_cancelled now s e) = ground arith
Moves-Follows (is_repaid fully total date now s e) = ground arith
Moves-Follows (defaults now s e) = ground arith

leads_trans : (a b c : Status) → leads a b ≡ true → leads b c ≡ true → leads a c ≡ true
leads_trans a b c p q = ground arith

Follows-trans : {l m n : Loan} → Follows l m → Follows m n → Follows l n
Follows-trans {l} {m} {n} p q = record {
  id = q.id ∙ p.id;
  community = q.community ∙ p.community;
  borrower = q.borrower ∙ p.borrower;
  lender = q.lender ∙ p.lender;
  amount = q.amount ∙ p.amount;
  rate = q.rate ∙ p.rate;
  status = leads_trans l.status m.status n.status p.status q.status;
  final = λ f. let same = p.final f in q.final (rw same f) ∙ same;
}

-- What a later state says of the loan with id `i`, given its row `l` now.
abbrev pub Later : ℕ → Loan → Db → Type 0
Later i l db = (l' : Loan) × (find_loan i db.loans ≡ some l') × Follows l l'

module _ (D : Doubles) where
  pub Step-Later :
      {s t : State} (i : ℕ) (l : Loan)
      → Step D s t
      → find_loan i s.db.loans ≡ some l
      → Later i l t.db
  Step-Later i l (admit c _ e) found = rw e (l, found, Follows-refl l)
  Step-Later {s} i l (run c k before after _ e) found =
      let (l', found', m) = commit-Moves D c.request k s.db i l found in
      rw e (l', found', Moves-Follows m)

  -- However the guards and transactions of concurrent requests interleave, a loan keeps its
  -- parties, its principal and its rate, its status only goes forward, and a repaid, defaulted
  -- or cancelled row never changes again.
  pub Reach-Later :
      {s t : State} (i : ℕ) (l : Loan)
      → find_loan i s.db.loans ≡ some l
      → Reach D s t
      → Later i l t.db
  Reach-Later i l found here = (l, found, Follows-refl l)
  Reach-Later i l found (next {t = m} r st) =
      let (l₁, found₁, f₁) = Reach-Later i l found r in
      let (l₂, found₂, f₂) = Step-Later i l₁ st found₁ in (l₂, found₂, Follows-trans f₁ f₂)
