-- ===== src/Loans/System/Examples.antt =====
-- The theorems about the loan routes at concrete tables, with exact decimals for the doubles.
use coop_lumen_index.Base.{
  ℕ, ◌+◌, ◌-◌, ◌*◌, ◌/◌, ◌^◌, ◌≡◌, refl, true, none, some, [], ◌∷◌, arith, pos, leb, ltb, All,
}
use coop_lumen_index.Loans.{Loan, Db, active, failed}
use coop_lumen_index.Loans.Scoring.{total_due, with_totals}
use coop_lumen_index.Loans.Repay.{
  RepayBody, repay_check, outstanding, exceeds, new_repaid, fully_repaid, repay_commit,
}
use coop_lumen_index.Loans.Closing.{default_check}
use coop_lumen_index.Loans.System.{
  Call, Clock, State, repays, marks_default, check, commit, Reach, here, next, admit, run,
}
use coop_lumen_index.Loans.System.Changes.{Change, commit-Change}
use coop_lumen_index.Loans.System.Lifecycle.{Later, Reach-Later}
use coop_lumen_index.Loans.System.Ledger.{
  HasColumns, commit-HasColumns, logged, IsReconciled, commit-IsReconciled,
}
use coop_lumen_index.Loans.System.Totals.{counted, IsTallied, commit-IsTallied}
use coop_lumen_index.Loans.System.Authority.{IsAuthorized, Reach-IsAuthorized}
use coop_lumen_index.Loans.System.Answers.{repay_above_ceiling}
use coop_lumen_index.Loans.Doubles.{Doubles, AddsStroops}

-- Numbers in units of 10^-11.
abbrev unit : ℕ
unit = 10 ^ 11

abbrev exact : Doubles
exact = record {
  Double = ℕ;
  of_nat = λ n. n * unit;
  of_stroops = λ k. k * 10000;
  of_hundredths = λ k. k * 1000000000;
  plus = λ a b. a + b;
  minus = λ a b. a - b;
  times = λ a b. a * b / unit;
  over = λ a b. a * unit / b;
  gtb = λ a b. ltb b a;
  geb = λ a b. leb b a;
  round = λ x. pos ((x + unit / 2) / unit);
  to_fixed = λ x. pos ((x + 5000) / 10000);
}

exact-AddsStroops : AddsStroops exact
exact-AddsStroops = record { to_fixed-plus = λ a b h. ground arith }

-- 10.0000011 at 5 percent: 10.500001155 is due, which the routes show as 10.5000012.
abbrev loan : Loan
loan = record {
  id = 7;
  community_id = 1;
  borrower_address = 20;
  lender_address = 30;
  amount = 100000011;
  amount_repaid = 0;
  interest_rate = 500;
  asset_code = "LUM";
  asset_issuer = none;
  purpose = none;
  status = active;
  due_at = none;
  disbursed_at = some 5;
  closed_at = none;
  created_at = 4;
  updated_at = 5;
}

abbrev tables : Db
tables = record {
  loans = loan ∷ [];
  loan_events = [];
  transactions_log = [];
  reputation_scores =
      record {
        stellar_address = 20;
        community_id = 1;
        score = 5000;
        total_loans = 1;
        on_time_repayments = 0;
        defaults = 0;
        last_calculated_at = 4;
      }
      ∷ [];
  communities = record { id = 1; deleted_at = none } ∷ [];
  payments = [];
}

abbrev paying : ℕ → RepayBody
paying n = record { amount = n; payment_id = none; note = none }

abbrev clock : Clock
clock = record { fresh = 8; date = 9; now = 10 }

-- The figure that the borrower is shown.
shown : (with_totals exact loan).outstanding ≡ pos 105000012
unfolding with_totals
shown = refl

-- Paying it in full fails; paying one stroop less closes the loan.
repay_above_ceiling_example : repay_commit exact 7 (paying 105000012) 9 10 tables ≡ (failed, tables)
unfolding exceeds outstanding new_repaid fully_repaid total_due
repay_above_ceiling_example =
    repay_above_ceiling exact 7 (paying 105000012) 9 10 tables loan 105000012 refl refl refl refl
      refl

one_stroop_less : fully_repaid exact loan 105000011 ≡ true
unfolding fully_repaid new_repaid total_due
one_stroop_less = refl

commit-Change_example :
    Change exact clock tables
      (commit exact (repays 7 (paying 5)) clock tables).1
      (repays 7 (paying 5))
commit-Change_example = commit-Change exact clock tables (repays 7 (paying 5))

commit-HasColumns_example : All HasColumns (commit exact (repays 7 (paying 5)) clock tables).1.loans
commit-HasColumns_example =
    commit-HasColumns exact (repays 7 (paying 5)) clock tables (ground arith)

tables-IsReconciled : IsReconciled tables
unfolding logged
tables-IsReconciled i = ground arith

commit-IsReconciled_example : IsReconciled (commit exact (repays 7 (paying 5)) clock tables).1
commit-IsReconciled_example =
    commit-IsReconciled exact exact-AddsStroops (repays 7 (paying 5)) clock tables
      tables-IsReconciled (omega arith)

tables-IsTallied : IsTallied tables
unfolding counted
tables-IsTallied f c a = ground arith

commit-IsTallied_example : IsTallied (commit exact (repays 7 (paying 5)) clock tables).1
commit-IsTallied_example =
    commit-IsTallied exact (repays 7 (paying 5)) clock tables tables-IsTallied

-- The borrower's repayment and the lender's default are both under way.
abbrev idle : State
idle = record { db = tables; waiting = [] }

abbrev repaying : Call
repaying = record { caller = 20; request = repays 7 (paying 5) }

abbrev defaulting : Call
defaulting = record { caller = 30; request = marks_default 7 none }

abbrev both : State
both = record { db = tables; waiting = defaulting ∷ repaying ∷ [] }

abbrev after_default : State
after_default = record {
  db = (commit exact defaulting.request clock tables).1;
  waiting = repaying ∷ [];
}

abbrev one_waiting : State
one_waiting = record { db = tables; waiting = repaying ∷ [] }

admitted : Reach exact idle both
unfolding check repay_check default_check
admitted =
    let first : Reach exact idle one_waiting = next here (admit repaying refl refl) in
    next first (admit defaulting refl refl)

race : Reach exact idle after_default
race = next admitted (run defaulting clock [] (repaying ∷ []) refl refl)

Reach-Later_example : Later 7 loan after_default.db
Reach-Later_example = Reach-Later exact 7 loan refl race

Reach-IsAuthorized_example : IsAuthorized exact after_default
Reach-IsAuthorized_example = Reach-IsAuthorized exact refl race
