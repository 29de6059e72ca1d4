-- ===== src/Loans/System/Effects.antt =====
-- What each transaction of the loan routes can have done.
pub mod Repaying
pub mod Others
use Prim.Native.String.{String}
use coop_lumen_index.Base.{
  ℕ, ◌≡◌, refl, ◌⊎◌, inl, inr, Bool, true, ◌&&◌, Option, none, some, List, [], ◌∷◌, ◌++◌, arith, ℤ,
  pos, negsuc, pos_part, leb, Bool-cases,
}
use coop_lumen_index.Loans.{Loan, LoanEvent, EventType, Action, LogEntry, Reputation, Db, Response}
use coop_lumen_index.Loans.Doubles.{Doubles}
use coop_lumen_index.Loans.Store.{
  Tx, transaction, replace_loan, within_ceiling, fits_numeric, known_payment, update_loan,
  insert_event, insert_log,
}
use coop_lumen_index.Loans.Scoring.{
  Tally, bump, reputation_of, put_reputation, score_of, set_score, bump_reputation,
}

-- A row of loan_events and an entry of transactions_log, by what they say of a loan.
abbrev pub event_of : ℕ → EventType → Option ℕ → Option ℕ → Option String → ℕ → LoanEvent
event_of loan_id kind amount payment_id note now = record {
  loan_id = loan_id;
  event_type = kind;
  amount = amount;
  payment_id = payment_id;
  note = note;
  created_at = now;
}

abbrev pub entry_of :
    (community actor : ℕ)
    → Action
    → Option String
    → (loan_id : ℕ) → Option ℕ
    → Option String
    → Option Bool
    → LogEntry
entry_of community actor action hash loan_id amount asset_code fully = record {
  community_id = community;
  actor_address = actor;
  action = action;
  stellar_tx_hash = hash;
  metadata = record {
    loan_id = loan_id;
    amount = amount;
    asset_code = asset_code;
    fully_repaid = fully;
  };
}

-- The tables that no loan route writes.
abbrev pub IsKept : Db → Db → Type 0
IsKept db db' = (db'.communities ≡ db.communities) × (db'.payments ≡ db.payments)

-- A run that raised no exception has a result and tables with a property.
pub data After {A : Type 0} (m : Option (A × Db)) (P : A → Db → Type 0) : Type 0 where
  raised : m ≡ none → After m P
  returned : (a : A) (db : Db) → m ≡ some (a, db) → P a db → After m P

-- The rules for a chain of statements and for a weaker property.
pub After-bind :
    {A B : Type 0} {m : Option (A × Db)} {f : A → Db → Option (B × Db)} {Q : A → Db → Type 0}
    {P : B → Db → Type 0}
    → After m Q
    → ((a : A) (db : Db) → Q a db → After (f a db) P)
    → After (elim m [ none ↦ none | some (a, db) ↦ f a db ]) P
After-bind (raised e) k = rw e (raised refl)
After-bind (returned a db e q) k = rw e (k a db q)

pub After-map :
    {A : Type 0} {m : Option (A × Db)} {Q P : A → Db → Type 0}
    → After m Q
    → ((a : A) (db : Db) → Q a db → P a db)
    → After m P
After-map (raised e) k = raised e
After-map (returned a db e q) k = returned a db e (k a db q)

pub transaction-After :
    (m : Tx Response) (db : Db) {P : Response → Db → Type 0}
    → After (m db) P
    → ((transaction m db).1 ≡ db) ⊎ (P (transaction m db).0 (transaction m db).1)
transaction-After m db (raised e) = rw (e, transaction) (inl refl)
transaction-After m db (returned a db' e p) = rw (e, transaction) (inr p)

pub update_loan-After :
    (row : Loan) (db : Db)
    → After (update_loan row db) λ r db'.
      (r ≡ row)
      × (within_ceiling row ≡ true)
      × (db' ≡ record db { loans = replace_loan row db.loans })
unfolding update_loan
update_loan-After row db =
    elim (Bool-cases (within_ceiling row && fits_numeric row.amount_repaid)) [
      | inl e ↦ returned row (record db { loans = replace_loan row db.loans }) (rw e) (ground arith)
      | inr e ↦ raised (rw e)
    ]

pub insert_event-After :
    (e : LoanEvent) (db : Db)
    → After (insert_event e db) λ _ db'. db' ≡ record db { loan_events = db.loan_events ++ e ∷ [] }
unfolding insert_event
insert_event-After e db = elim (Bool-cases (known_payment db.payments e.payment_id)) [
  | inl k ↦ returned tt (record db { loan_events = db.loan_events ++ e ∷ [] }) (rw k) refl
  | inr k ↦ raised (rw k)
]

pub insert_log-After :
    (e : LogEntry) (db : Db)
    → After
        (insert_log e db)
        λ _ db'. db' ≡ record db { transactions_log = db.transactions_log ++ e ∷ [] }
unfolding insert_log
insert_log-After e db = returned tt _ refl refl

module _ (D : Doubles) where
  -- The scores table after one more event of a borrower in a community.
  abbrev pub tallied : ℕ → ℕ → Tally → ℕ → List Reputation → List Reputation
  tallied community address field now rs =
      let row = bump field (reputation_of community address now rs) in
      put_reputation
        (record row {
          score = pos_part (score_of D row.on_time_repayments row.defaults);
          last_calculated_at = now;
        })
        rs

  abbrev scored : Reputation → ℕ → ℤ → Reputation
  scored row now z = record row { score = pos_part z; last_calculated_at = now }

  set_score-After :
      (row : Reputation) (now : ℕ) (z : ℤ) (db : Db)
      → After (set_score D row now z db) λ _ db'.
        db'
        ≡ record db { reputation_scores = put_reputation (scored row now z) db.reputation_scores }
  unfolding set_score
  set_score-After row now (negsuc n) db = raised refl
  set_score-After row now (pos n) db = elim (Bool-cases (leb n 10000)) [
    | inl e ↦ returned tt _ (rw e) refl
    | inr e ↦ raised (rw e)
  ]

  -- `bumpReputation` changes the scores table alone.
  pub bump_reputation-After :
      (community address : ℕ) (field : Tally) (now : ℕ) (db : Db)
      → After (bump_reputation D community address field now db) λ _ db'.
        db'
        ≡ record db { reputation_scores = tallied community address field now db.reputation_scores }
  unfolding bump_reputation
  bump_reputation-After community address field now db =
      let row = bump field (reputation_of community address now db.reputation_scores) in
      set_score-After row now (score_of D row.on_time_repayments row.defaults) db
