-- ===== src/Loans/Store.antt =====
-- The statements that loans.ts sends to PostgreSQL, on the tables of `Db`, and `db.transaction` of
-- backend/src/db/index.ts. `none` is an exception: a violated constraint of the schema.
use coop_lumen_index.Base.{
  ℕ, ◌+◌, ◌*◌, ◌^◌, Bool, true, false, ◌&&◌, Option, none, some, List, [], ◌∷◌, ◌++◌, leb, ltb,
  ◌==◌, if◌then◌else◌, any, find,
}
use coop_lumen_index.Loans.{Loan, LoanEvent, LogEntry, Community, Db, Response, failed}

abbrev pub Tx : Type 0 → Type 0
Tx A = Db → Option (A × Db)

infixl 5 ◌>>=◌ ◌>>◌
abbrev pub ◌>>=◌ : {A B : Type 0} → Tx A → (A → Tx B) → Tx B
◌>>=◌ m f db = elim (m db) [ none ↦ none | some (a, db') ↦ f a db' ]

abbrev pub ◌>>◌ : {A B : Type 0} → Tx A → Tx B → Tx B
m >> k = m >>= λ _. k

abbrev pub pure : {A : Type 0} → A → Tx A
pure a db = some (a, db)

abbrev pub throw : {A : Type 0} → Tx A
throw db = none

-- A constraint of the schema.
abbrev pub require : Bool → Tx (Unit {0})
require c db = if c then some (tt, db) else none

-- `db.transaction`, and the route's `catch` and error handler: an exception rolls back, and the
-- client gets a 500.
abbrev pub transaction : Tx Response → Db → Response × Db
transaction m db = elim (m db) [ none ↦ (failed, db) | some (r, db') ↦ (r, db') ]

-- SELECT * FROM loans WHERE id = $1
abbrev pub find_loan : ℕ → List Loan → Option Loan
find_loan i [] = none
find_loan i (l ∷ ls) = if l.id == i then some l else find_loan i ls

abbrev pub replace_loan : Loan → List Loan → List Loan
replace_loan row [] = []
replace_loan row (l ∷ ls) = if l.id == row.id then row ∷ ls else l ∷ replace_loan row ls

-- loans_amount_repaid_check: amount_repaid <= amount * (1 + interest_rate / 100). PostgreSQL
-- computes with exact decimals; the rate is in hundredths of a percent here.
abbrev pub within_ceiling : Loan → Bool
within_ceiling row = leb (row.amount_repaid * 10000) (row.amount * (10000 + row.interest_rate))

-- NUMERIC(20, 7) holds less than 10^13 units.
abbrev pub fits_numeric : ℕ → Bool
fits_numeric n = ltb n (10 ^ 20)

-- UPDATE loans SET … WHERE id = $1 RETURNING *, of the row that SELECT … FOR UPDATE has locked.
unfoldable pub update_loan : Loan → Tx Loan
update_loan row = do
  require (within_ceiling row && fits_numeric row.amount_repaid)
  λ db. some (row, record db { loans = replace_loan row db.loans })

-- INSERT INTO loans: the primary key, the reference to communities and the checks of the columns.
unfoldable pub insert_loan : Loan → Tx Loan
insert_loan row db = elim (find_loan row.id db.loans) [
  | some _ ↦ none
  | none ↦
      if any (λ c. c.id == row.community_id) db.communities
        && fits_numeric row.amount
        && leb row.interest_rate 100000
        && within_ceiling row
      then some (row, record db { loans = db.loans ++ row ∷ [] })
      else none
]

abbrev pub known_payment : List ℕ → Option ℕ → Bool
known_payment payments none = true
known_payment payments (some p) = any (λ q. q == p) payments

-- INSERT INTO loan_events, with the reference to payments.
unfoldable pub insert_event : LoanEvent → Tx (Unit {0})
insert_event e db =
    if known_payment db.payments e.payment_id
    then some (tt, record db { loan_events = db.loan_events ++ e ∷ [] })
    else none

-- INSERT INTO transactions_log
unfoldable pub insert_log : LogEntry → Tx (Unit {0})
insert_log e db = some (tt, record db { transactions_log = db.transactions_log ++ e ∷ [] })

-- SELECT id FROM communities WHERE id = $1 AND deleted_at IS NULL
abbrev is_live : Option ℕ → Bool
is_live none = true
is_live (some _) = false

abbrev pub find_community : ℕ → List Community → Option Community
find_community i cs = find (λ c. (c.id == i) && is_live c.deleted_at) cs
