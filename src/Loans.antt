-- ===== src/Loans.antt =====
-- backend/src/api/routes/loans.ts: the rows that the loan routes read and write, as the files of
-- backend/src/db/migrations declare them. Ids and addresses are only compared, so they are numbers.
-- A NUMERIC(20, 7) is a count of stroops (10^-7), a NUMERIC(6, 2) a count of hundredths.
pub mod Doubles
pub mod Store
pub mod Rows
pub mod Scoring
pub mod Create
pub mod Disburse
pub mod Repay
pub mod Closing
pub mod System
use Prim.Native.String.{String}
use coop_lumen_index.Base.{ℕ, Bool, List, Option}
use coop_lumen_index.Base.Int.{ℤ}

pub data Status : Type 0 where
  pending active repaid defaulted cancelled : Status

pub record Loan : Type 0 where
  pub id : ℕ
  pub community_id : ℕ
  pub borrower_address : ℕ
  pub lender_address : ℕ
  pub amount : ℕ
  pub amount_repaid : ℕ
  pub interest_rate : ℕ
  pub asset_code : String
  pub asset_issuer : Option ℕ
  pub purpose : Option String
  pub status : Status
  pub due_at : Option ℕ
  pub disbursed_at : Option ℕ
  pub closed_at : Option ℕ
  pub created_at : ℕ
  pub updated_at : ℕ

pub data EventType : Type 0 where
  created disbursed repayment closed defaulted : EventType

pub record LoanEvent : Type 0 where
  pub loan_id : ℕ
  pub event_type : EventType
  pub amount : Option ℕ
  pub payment_id : Option ℕ
  pub note : Option String
  pub created_at : ℕ

pub data Action : Type 0 where
  loan_created loan_disbursed loan_repayment loan_closed loan_defaulted : Action

-- The JSON metadata of an audit entry, with the keys that the routes write.
pub record Metadata : Type 0 where
  pub loan_id : ℕ
  pub amount : Option ℕ
  pub asset_code : Option String
  pub fully_repaid : Option Bool

pub record LogEntry : Type 0 where
  pub community_id : ℕ
  pub actor_address : ℕ
  pub action : Action
  pub stellar_tx_hash : Option String
  pub metadata : Metadata

pub record Reputation : Type 0 where
  pub stellar_address : ℕ
  pub community_id : ℕ
  pub score : ℕ
  pub total_loans : ℕ
  pub on_time_repayments : ℕ
  pub defaults : ℕ
  pub last_calculated_at : ℕ

pub record Community : Type 0 where
  pub id : ℕ
  pub deleted_at : Option ℕ

-- `payments` holds the ids of the payments table, which loan_events refers to.
pub record Db : Type 0 where
  pub loans : List Loan
  pub loan_events : List LoanEvent
  pub transactions_log : List LogEntry
  pub reputation_scores : List Reputation
  pub communities : List Community
  pub payments : List ℕ

-- What a route answers: 400, 403, 404, 409, 400, 500, 200, 201 and 200, in this order.
pub data Response : Type 0 where
  invalid forbidden not_found : Response
  conflict : Status → Response
  exceeds_outstanding : ℤ → Response
  failed : Response
  updated inserted : Loan → Response
  cancelled_id : ℕ → Response

abbrev pub status_code : Response → ℕ
status_code invalid = 400
status_code forbidden = 403
status_code not_found = 404
status_code (conflict _) = 409
status_code (exceeds_outstanding _) = 400
status_code failed = 500
status_code (updated _) = 200
status_code (inserted _) = 201
status_code (cancelled_id _) = 200
