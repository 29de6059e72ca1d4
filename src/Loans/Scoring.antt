-- ===== src/Loans/Scoring.antt =====
-- `totalDue`, `withTotals` and `bumpReputation`.
use coop_lumen_index.Base.{
  ℕ, ◌+◌, ◌*◌, Bool, none, some, List, [], ◌∷◌, leb, ◌==◌, if◌then◌else◌, ◌&&◌,
}
use coop_lumen_index.Base.Int.{ℤ, pos, negsuc}
use coop_lumen_index.Loans.{Loan, Reputation}
use coop_lumen_index.Loans.Doubles.{Doubles}
use coop_lumen_index.Loans.Store.{Tx}

-- A loan with the two figures that `withTotals` adds.
pub record LoanWithTotals : Type 0 where
  pub loan : Loan
  pub total_due : ℤ
  pub outstanding : ℤ

pub data Tally : Type 0 where
  total_loans on_time_repayments defaults : Tally

-- The INSERT … ON CONFLICT DO UPDATE: a new row starts at one in the named column.
abbrev pub bump : Tally → Reputation → Reputation
bump total_loans r = record r { total_loans = r.total_loans + 1 }
bump on_time_repayments r = record r { on_time_repayments = r.on_time_repayments + 1 }
bump defaults r = record r { defaults = r.defaults + 1 }

-- A row that has counted nothing; the column default of `score` is 50.00.
abbrev pub blank : ℕ → ℕ → ℕ → Reputation
blank community address now = record {
  stellar_address = address;
  community_id = community;
  score = 5000;
  total_loans = 0;
  on_time_repayments = 0;
  defaults = 0;
  last_calculated_at = now;
}

abbrev pub is_row : ℕ → ℕ → Reputation → Bool
is_row community address r = (r.stellar_address == address) && (r.community_id == community)

-- The row of an address in a community, or a blank one.
abbrev pub reputation_of : ℕ → ℕ → ℕ → List Reputation → Reputation
reputation_of community address now [] = blank community address now
reputation_of community address now (r ∷ rs) =
    if is_row community address r then r else reputation_of community address now rs

-- Writes the row of its address and community, at the end if there is none.
abbrev pub put_reputation : Reputation → List Reputation → List Reputation
put_reputation row [] = row ∷ []
put_reputation row (r ∷ rs) =
    if is_row row.community_id row.stellar_address r then row ∷ rs else r ∷ put_reputation row rs

module _ (D : Doubles) where
  open D use {Double, of_nat, of_stroops, of_hundredths, plus, minus, times, over, round, to_fixed}

  unfoldable pub total_due : Loan → Double
  total_due loan =
      let rate = of_hundredths loan.interest_rate in
      times (of_stroops loan.amount) (plus (of_nat 1) (over rate (of_nat 100)))

  unfoldable pub with_totals : Loan → LoanWithTotals
  unfolding total_due
  with_totals loan =
      let due = total_due loan in
      record {
        loan = loan;
        total_due = to_fixed due;
        outstanding = to_fixed (minus due (of_stroops loan.amount_repaid));
      }

  -- `Math.round(… * 100) / 100` lands on a NUMERIC(5, 2), so the rounded number is the hundredths.
  unfoldable pub score_of : ℕ → ℕ → ℤ
  score_of on_time bad =
      round (times (over (of_nat (100 * (on_time + 1))) (of_nat (on_time + bad + 2))) (of_nat 100))

  -- The second statement, with the CHECK that a score lies between 0 and 100.
  unfoldable pub set_score : Reputation → ℕ → ℤ → Tx (Unit {0})
  set_score row now (negsuc _) db = none
  set_score row now (pos s) db =
      if leb s 10000
      then some (
        tt,
        record db {
          reputation_scores =
              put_reputation (record row { score = s; last_calculated_at = now })
                db.reputation_scores;
        },
      )
      else none

  unfoldable pub bump_reputation : ℕ → ℕ → Tally → ℕ → Tx (Unit {0})
  unfolding score_of set_score
  bump_reputation community address field now db =
      let row = bump field (reputation_of community address now db.reputation_scores) in
      set_score row now (score_of row.on_time_repayments row.defaults) db
