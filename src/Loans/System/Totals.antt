-- ===== src/Loans/System/Totals.antt =====
-- On the tallies of reputation_scores and the loans table.
use coop_lumen_index.Base.{
  ℕ, ◌+◌, ◌≡◌, refl, ap, ◌∙◌, inl, inr, Bool-cases, Bool, true, false, some, List, [], ◌∷◌, ◌++◌,
  arith, ◌==◌, ◌&&◌, if◌then◌else◌,
}
use coop_lumen_index.Loans.{Loan, Reputation, Db, Status, repaid}
use coop_lumen_index.Loans.Doubles.{Doubles}
use coop_lumen_index.Loans.Store.{find_loan, replace_loan}
use coop_lumen_index.Loans.Rows.{find_loan_id}
use coop_lumen_index.Loans.Scoring.{
  Tally, total_loans, on_time_repayments, defaults, is_row, reputation_of, put_reputation,
}
use coop_lumen_index.Loans.System.{Request, Clock, commit}
use coop_lumen_index.Loans.System.Effects.{tallied}
use coop_lumen_index.Loans.System.Effects.Others.{pending_row}
use coop_lumen_index.Loans.System.Changes.{
  Change, unchanged, created, disbursed, repaid_by, defaulted, cancels_pending, commit-Change,
}

abbrev pub get : Tally → Reputation → ℕ
get total_loans r = r.total_loans
get on_time_repayments r = r.on_time_repayments
get defaults r = r.defaults

-- What the table holds in one column for an address in a community; 0 where it has no row.
abbrev pub tally_of : Tally → ℕ → ℕ → List Reputation → ℕ
tally_of f c a [] = 0
tally_of f c a (r ∷ rs) = if is_row c a r then get f r else tally_of f c a rs

abbrev same_tally : Tally → Tally → Bool
same_tally total_loans total_loans = true
same_tally on_time_repayments on_time_repayments = true
same_tally defaults defaults = true
same_tally _ _ = false

get-reputation_of :
    (f : Tally) (c a now : ℕ) (rs : List Reputation)
    → get f (reputation_of c a now rs) ≡ tally_of f c a rs
get-reputation_of f c a now [] = ground arith
get-reputation_of f c a now (r ∷ rs) = ground (arith, get-reputation_of f c a now rs)

is_row-reputation_of :
    (c a now : ℕ) (rs : List Reputation) → is_row c a (reputation_of c a now rs) ≡ true
is_row-reputation_of c a now [] = ground arith
is_row-reputation_of c a now (r ∷ rs) = ground (arith, is_row-reputation_of c a now rs)

tally_of-put :
    (f : Tally) (c a : ℕ) (row : Reputation) (rs : List Reputation)
    → tally_of f c a (put_reputation row rs)
      ≡ (if is_row c a row then get f row else tally_of f c a rs)
tally_of-put f c a row [] = ground arith
tally_of-put f c a row (r ∷ rs) = ground (arith, tally_of-put f c a row rs)

-- Whether a loan counts in a column.
abbrev pub counts : Tally → Status → Bool
counts total_loans _ = true
counts on_time_repayments repaid = true
counts on_time_repayments _ = false
counts defaults Status.defaulted = true
counts defaults _ = false

abbrev pub weight : Tally → ℕ → ℕ → Loan → ℕ
weight f c a l =
    if (l.community_id == c) && (l.borrower_address == a) && counts f l.status then 1 else 0

-- How many loans of a borrower in a community count in a column.
unfoldable pub counted : Tally → ℕ → ℕ → List Loan → ℕ
counted f c a [] = 0
counted f c a (l ∷ ls) = weight f c a l + counted f c a ls

counted-append :
    (f : Tally) (c a : ℕ) (l : Loan) (ls : List Loan)
    → counted f c a (ls ++ l ∷ []) ≡ counted f c a ls + weight f c a l
unfolding counted
counted-append f c a l [] = omega arith
counted-append f c a l (x ∷ ls) = omega (arith, counted-append f c a l ls)

counted-replace :
    (f : Tally) (c a id : ℕ) (row old : Loan) (ls : List Loan)
    → find_loan id ls ≡ some old
    → row.id ≡ id
    → counted f c a (replace_loan row ls) + weight f c a old ≡ counted f c a ls + weight f c a row
unfolding counted
counted-replace f c a id row old [] e same = cc
counted-replace f c a id row old (x ∷ ls) e same = elim (Bool-cases (x.id == id)) [
  | inl t ↦
      let one : x ≡ old = ground arith in
      let two : (x.id == row.id) ≡ true = ground arith in rw two (rw one (omega arith))
  | inr n ↦
      let rest : find_loan id ls ≡ some old = ground arith in
      let two : (x.id == row.id) ≡ false = ground arith in
      rw two (omega (arith, counted-replace f c a id row old ls rest same))
]

-- Every column of the scores table counts the loans that it names.
abbrev pub IsTallied : Db → Type 0
IsTallied db = (f : Tally) (c a : ℕ) → tally_of f c a db.reputation_scores ≡ counted f c a db.loans

counted-written :
    (f : Tally) (c a id : ℕ) (row old : Loan) (db after : Db)
    → find_loan id db.loans ≡ some old
    → row.id ≡ old.id
    → after.loans ≡ replace_loan row db.loans
    → counted f c a after.loans + weight f c a old ≡ counted f c a db.loans + weight f c a row
counted-written f c a id row old db after e same p =
    rw p (counted-replace f c a id row old db.loans e (same ∙ find_loan_id id db.loans e))

module _ (D : Doubles) where
  tally_of-tallied :
      (f g : Tally) (c a c' a' now : ℕ) (rs : List Reputation)
      → tally_of f c a (tallied D c' a' g now rs)
        ≡ tally_of f c a rs + (if (c' == c) && (a' == a) && same_tally g f then 1 else 0)
  tally_of-tallied f g c a c' a' now rs =
      tally_of-put f c a _ rs
      ∙ ground (
        arith,
        is_row-reputation_of c' a' now rs,
        get-reputation_of total_loans c' a' now rs,
        get-reputation_of on_time_repayments c' a' now rs,
        get-reputation_of defaults c' a' now rs,
      )

  Change-IsTallied :
      (r : Request) (k : Clock) (db after : Db)
      → IsTallied db
      → Change D k db after r
      → IsTallied after
  Change-IsTallied r k db after h (unchanged e) f c a = rw e (h f c a)
  Change-IsTallied r k db after h (created body w) f c a =
      let row = pending_row body k.fresh k.now in
      let score =
        ap (tally_of f c a) w.scores
        ∙ tally_of-tallied f total_loans c a body.community_id body.borrower_address k.now
            db.reputation_scores in
      let rows = ap (counted f c a) w.loans ∙ counted-append f c a row db.loans in
      ground (arith, score, rows, h f c a)
  Change-IsTallied r k db after h (disbursed id body loan e s w) f c a =
      let score = ap (tally_of f c a) w.scores in
      let rows = counted-written f c a id _ loan db after e refl w.loans in
      ground (arith, score, rows, h f c a)
  Change-IsTallied r k db after h (repaid_by id body loan e s _ w) f c a =
      let score =
        tally_of-tallied f on_time_repayments c a loan.community_id loan.borrower_address k.now
          db.reputation_scores in
      let scores = ap (tally_of f c a) w.scores in
      let rows = counted-written f c a id _ loan db after e refl w.loans in
      ground (arith, score, scores, rows, h f c a)
  Change-IsTallied r k db after h (defaulted id text loan e s w) f c a =
      let score =
        ap (tally_of f c a) w.scores
        ∙ tally_of-tallied f defaults c a loan.community_id loan.borrower_address k.now
            db.reputation_scores in
      let rows = counted-written f c a id _ loan db after e refl w.loans in
      ground (arith, score, rows, h f c a)
  Change-IsTallied r k db after h (cancels_pending id loan e s _ w) f c a =
      let scores = ap (λ (d : Db). tally_of f c a d.reputation_scores) w in
      let rows = counted-written f c a id _ loan db after e refl (ap (λ (d : Db). d.loans) w) in
      ground (arith, scores, rows, h f c a)

  -- If it was so before, every request keeps the three counters of every borrower in every
  -- community equal to the numbers of their loans, their repaid loans and their defaulted loans.
  pub commit-IsTallied :
      (r : Request) (k : Clock) (db : Db) → IsTallied db → IsTallied (commit D r k db).1
  commit-IsTallied r k db h = Change-IsTallied r k db (commit D r k db).1 h (commit-Change D k db r)
