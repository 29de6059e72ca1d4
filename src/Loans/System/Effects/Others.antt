-- ===== src/Loans/System/Effects/Others.antt =====
-- What the other routes write.
use Prim.Native.String.{String}
use coop_lumen_index.Base.{
  ℕ, ◌≡◌, refl, inl, inr, true, ◌&&◌, Option, none, some, [], ◌∷◌, ◌++◌, arith, leb, ◌==◌, any,
  Option-cases, Bool-cases,
}
use coop_lumen_index.Loans.{
  Loan, EventType, Db, Status, active, pending, loan_created, loan_disbursed, loan_defaulted,
}
use coop_lumen_index.Loans.Doubles.{Doubles}
use coop_lumen_index.Loans.Store.{
  find_loan, replace_loan, within_ceiling, fits_numeric, insert_loan,
}
use coop_lumen_index.Loans.Scoring.{total_loans, defaults}
use coop_lumen_index.Loans.Create.{CreateBody, new_loan, create_tx}
use coop_lumen_index.Loans.Disburse.{DisburseBody, disbursed_event, disburse_writes}
use coop_lumen_index.Loans.Closing.{defaulted_event, default_writes}
use coop_lumen_index.Loans.System.Effects.{
  After, event_of, entry_of, IsKept, raised, returned, After-bind, update_loan-After,
  insert_event-After, insert_log-After, tallied, bump_reputation-After,
}

pub record Disburses (body : DisburseBody) (now : ℕ) (loan : Loan) (db db' : Db) : Type 0 where
  pub ceiling : within_ceiling loan ≡ true
  pub loans :
      db'.loans
      ≡ replace_loan
          (record loan { status = active; disbursed_at = some now; updated_at = now })
          db.loans
  pub events :
      db'.loan_events
      ≡ db.loan_events
        ++ event_of loan.id EventType.disbursed (some loan.amount) none body.note now ∷ []
  pub audit :
      db'.transactions_log
      ≡ db.transactions_log
        ++ entry_of loan.community_id loan.lender_address loan_disbursed body.stellar_tx_hash
            loan.id
            (some loan.amount)
            none
            none
          ∷ []
  pub kept : IsKept db db'
  pub scores : db'.reputation_scores ≡ db.reputation_scores

pub disburse_writes-Disburses :
    (body : DisburseBody) (now : ℕ) (loan : Loan) (db : Db)
    → After (disburse_writes body now loan db) (λ r db'. Disburses body now loan db db')
unfolding disburse_writes
disburse_writes-Disburses body now loan db = After-bind (update_loan-After _ db) λ row db₁ e₁.
    After-bind (insert_event-After (disbursed_event body loan now) db₁)
      λ _ db₂ e₂. After-bind (insert_log-After _ db₂) λ _ db₃ e₃. returned _ db₃ refl (ground arith)

-- The row that a request asks for.
abbrev pub pending_row : CreateBody → ℕ → ℕ → Loan
pending_row body fresh now = record {
  id = fresh;
  community_id = body.community_id;
  borrower_address = body.borrower_address;
  lender_address = body.lender_address;
  amount = body.amount;
  amount_repaid = 0;
  interest_rate = elim body.interest_rate [ none ↦ 0 | some rate ↦ rate ];
  asset_code = body.asset_code;
  asset_issuer = body.asset_issuer;
  purpose = body.purpose;
  status = pending;
  due_at = body.due_at;
  disbursed_at = none;
  closed_at = none;
  created_at = now;
  updated_at = now;
}

module _ (D : Doubles) where
  pub record Defaults (note : Option String) (now : ℕ) (loan : Loan) (db db' : Db) : Type 0 where
    pub ceiling : within_ceiling loan ≡ true
    pub loans :
        db'.loans
        ≡ replace_loan
            (record loan { status = Status.defaulted; closed_at = some now; updated_at = now })
            db.loans
    pub events :
        db'.loan_events
        ≡ db.loan_events ++ event_of loan.id EventType.defaulted none none note now ∷ []
    pub audit :
        db'.transactions_log
        ≡ db.transactions_log
          ++ entry_of loan.community_id loan.lender_address loan_defaulted none loan.id none none
              none
            ∷ []
    pub kept : IsKept db db'
    pub scores :
        db'.reputation_scores
        ≡ tallied D loan.community_id loan.borrower_address defaults now db.reputation_scores

  pub default_writes-Defaults :
      (note : Option String) (now : ℕ) (loan : Loan) (db : Db)
      → After (default_writes D note now loan db) (λ r db'. Defaults note now loan db db')
  unfolding default_writes
  default_writes-Defaults note now loan db = After-bind (update_loan-After _ db) λ row db₁ e₁.
      After-bind (insert_event-After (defaulted_event note loan now) db₁) λ _ db₂ e₂.
        After-bind (insert_log-After _ db₂) λ _ db₃ e₃.
          After-bind
            (bump_reputation-After D loan.community_id loan.borrower_address defaults now db₃)
            λ _ db₄ e₄. returned _ db₄ refl (ground arith)

  pub record Creates (body : CreateBody) (fresh now : ℕ) (db db' : Db) : Type 0 where
    pub new_id : find_loan fresh db.loans ≡ none
    pub known : any (λ c. c.id == body.community_id) db.communities ≡ true
    pub loans : db'.loans ≡ db.loans ++ pending_row body fresh now ∷ []
    pub events :
        db'.loan_events
        ≡ db.loan_events
          ++ event_of fresh EventType.created (some body.amount) none body.purpose now ∷ []
    pub audit :
        db'.transactions_log
        ≡ db.transactions_log
          ++ entry_of body.community_id body.lender_address loan_created none fresh
              (some body.amount)
              (some body.asset_code)
              none
            ∷ []
    pub kept : IsKept db db'
    pub scores :
        db'.reputation_scores
        ≡ tallied D body.community_id body.borrower_address total_loans now db.reputation_scores

  insert_loan-After :
      (row : Loan) (db : Db)
      → After (insert_loan row db) λ r db'.
        (r ≡ row)
        × (find_loan row.id db.loans ≡ none)
        × (any (λ c. c.id == row.community_id) db.communities ≡ true)
        × (db' ≡ record db { loans = db.loans ++ row ∷ [] })
  unfolding insert_loan
  insert_loan-After row db = elim (Option-cases (find_loan row.id db.loans)) [
    | inr (l, e) ↦ raised (rw (e, insert_loan) refl)
    | inl e ↦
        elim (Bool-cases (
          any (λ c. c.id == row.community_id) db.communities
          && fits_numeric row.amount
          && leb row.interest_rate 100000
          && within_ceiling row)) [
            | inl t ↦
                returned row (record db { loans = db.loans ++ row ∷ [] }) (ground arith)
                  (ground arith)
            | inr f ↦ raised (ground arith)
          ]
  ]

  pub create_tx-Creates :
      (body : CreateBody) (fresh now : ℕ) (db : Db)
      → After (create_tx D body fresh now db) (λ r db'. Creates body fresh now db db')
  unfolding create_tx
  create_tx-Creates body fresh now db =
      After-bind (insert_loan-After (new_loan body fresh now) db) λ row db₁ e₁.
        After-bind (insert_event-After _ db₁) λ _ db₂ e₂.
          After-bind (insert_log-After _ db₂) λ _ db₃ e₃.
            After-bind
              (bump_reputation-After D body.community_id body.borrower_address total_loans now db₃)
              λ _ db₄ e₄. returned _ db₄ refl (ground arith)
