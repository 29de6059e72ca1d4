-- ===== src/Loans/System.antt =====
-- The loan routes as a whole. A handler awaits between its guards and its transaction, and other
-- handlers run meanwhile: a request that has passed its guards waits, and any waiting request may
-- run its transaction next. Transactions are atomic, since each locks the row that it writes.
pub mod Effects
pub mod Changes
pub mod Lifecycle
pub mod Ledger
pub mod Authority
pub mod Totals
pub mod Answers
mod Examples
use Prim.Native.String.{String}
use coop_lumen_index.Base.{ℕ, ◌≡◌, Option, none, List, ◌∷◌, ◌++◌}
use coop_lumen_index.Loans.{Db, Response}
use coop_lumen_index.Loans.Doubles.{Doubles}
use coop_lumen_index.Loans.Create.{CreateBody, create_check, create_commit}
use coop_lumen_index.Loans.Disburse.{DisburseBody, disburse_check, disburse_commit}
use coop_lumen_index.Loans.Repay.{RepayBody, repay_check, repay_commit}
use coop_lumen_index.Loans.Closing.{default_check, default_commit, cancel_check, cancel_commit}

pub data Request : Type 0 where
  creates : CreateBody → Request
  disburses : ℕ → DisburseBody → Request
  repays : ℕ → RepayBody → Request
  marks_default : ℕ → Option String → Request
  cancels : ℕ → Request

-- A request and the address that `requireAuth` has found in its token.
pub record Call : Type 0 where
  pub caller : ℕ
  pub request : Request

-- What the environment gives a transaction: gen_random_uuid(), `new Date()` and NOW().
pub record Clock : Type 0 where
  pub fresh : ℕ
  pub date : ℕ
  pub now : ℕ

pub record State : Type 0 where
  pub db : Db
  pub waiting : List Call

module _ (D : Doubles) where
  -- The guards of a route: an answer, or none if the transaction is to run.
  unfoldable pub check : ℕ → Request → Db → Option Response
  check caller (creates body) db = create_check D caller body db
  check caller (disburses id body) db = disburse_check caller id db
  check caller (repays id body) db = repay_check D caller id body db
  check caller (marks_default id _) db = default_check caller id db
  check caller (cancels id) db = cancel_check caller id db

  unfoldable pub commit : Request → Clock → Db → Response × Db
  commit (creates body) k db = create_commit D body k.fresh k.now db
  commit (disburses id body) k db = disburse_commit id body k.now db
  commit (repays id body) k db = repay_commit D id body k.date k.now db
  commit (marks_default id note) k db = default_commit D id note k.now db
  commit (cancels id) k db = cancel_commit id k.now db

  pub data Step (s t : State) : Type 0 where
    admit :
        (c : Call)
        → check c.caller c.request s.db ≡ none
        → t ≡ record s { waiting = c ∷ s.waiting }
        → Step s t
    run :
        (c : Call) (k : Clock) (before after : List Call)
        → s.waiting ≡ before ++ c ∷ after
        → t ≡ record { db = (commit c.request k s.db).1; waiting = before ++ after }
        → Step s t

  pub data Reach (s : State) : State → Type 0 where
    here : Reach s s
    next : {t u : State} → Reach s t → Step t u → Reach s u
