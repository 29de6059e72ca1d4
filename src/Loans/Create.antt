-- ===== src/Loans/Create.antt =====
-- POST /api/v1/loans.
use Prim.Native.String.{String}
use coop_lumen_index.Base.{ℕ, Bool, not, Option, none, some, ◌&&◌, leb, ◌==◌, if◌then◌else◌}
use coop_lumen_index.Loans.{
  Loan, LoanEvent, Db, Response, invalid, forbidden, not_found, inserted, pending, created,
  loan_created,
}
use coop_lumen_index.Loans.Doubles.{Doubles}
use coop_lumen_index.Loans.Store.{
  Tx, ◌>>=◌, ◌>>◌, pure, transaction, insert_loan, insert_event, insert_log, find_community,
}
use coop_lumen_index.Loans.Scoring.{total_loans, bump_reputation}

-- The body as `createLoanSchema` parses it: `amount` in stroops, `interest_rate` in the hundredths
-- that its column keeps, and the optional texts trimmed.
pub record CreateBody : Type 0 where
  pub community_id : ℕ
  pub borrower_address : ℕ
  pub lender_address : ℕ
  pub amount : ℕ
  pub asset_code : String
  pub asset_issuer : Option ℕ
  pub purpose : Option String
  pub due_at : Option ℕ
  pub interest_rate : Option ℕ

abbrev pub or_else {ℓ} : {A : Type ℓ} → Option A → A → A
or_else none d = d
or_else (some a) d = a

abbrev pub new_loan : CreateBody → ℕ → ℕ → Loan
new_loan body fresh now = record {
  id = fresh;
  community_id = body.community_id;
  borrower_address = body.borrower_address;
  lender_address = body.lender_address;
  amount = body.amount;
  amount_repaid = 0;
  interest_rate = or_else body.interest_rate 0;
  asset_code = body.asset_code;
  asset_issuer = body.asset_issuer;
  purpose = body.purpose;
  status = pending;
  due_at = body.due_at;
  disbursed_at = none;
  closed_at = none;
  created_at = now;
  updated_at = now;
}

abbrev pub created_event : CreateBody → ℕ → ℕ → LoanEvent
created_event body id now = record {
  loan_id = id;
  event_type = created;
  amount = some body.amount;
  payment_id = none;
  note = body.purpose;
  created_at = now;
}

module _ (D : Doubles) where
  open D use {of_nat, of_stroops, gtb}

  -- The parts of the schema that bound numbers.
  unfoldable pub create_valid : CreateBody → Bool
  create_valid body =
      gtb (of_stroops body.amount) (of_nat 0) && leb (or_else body.interest_rate 0) 100000

  -- The guards before the transaction, at the state of the table when they run.
  unfoldable pub create_check : ℕ → CreateBody → Db → Option Response
  unfolding create_valid
  create_check caller body db =
      if not (create_valid body)
      then some invalid
      else if not (caller == body.borrower_address) && not (caller == body.lender_address)
      then some forbidden
      else elim (find_community body.community_id db.communities) [
        | none ↦ some not_found
        | some _ ↦ none
      ]

  unfoldable pub create_tx : CreateBody → ℕ → ℕ → Tx Response
  create_tx body fresh now = do
    row ← insert_loan (new_loan body fresh now)
    insert_event (created_event body row.id now)
    insert_log (record {
      community_id = body.community_id;
      actor_address = body.lender_address;
      action = loan_created;
      stellar_tx_hash = none;
      metadata = record {
        loan_id = row.id;
        amount = some body.amount;
        asset_code = some body.asset_code;
        fully_repaid = none;
      };
    })
    bump_reputation D body.community_id body.borrower_address total_loans now
    pure (inserted row)

  unfoldable pub create_commit : CreateBody → ℕ → ℕ → Db → Response × Db
  unfolding create_tx
  create_commit body fresh now db = transaction (create_tx body fresh now) db
