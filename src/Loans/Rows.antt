-- ===== src/Loans/Rows.antt =====
-- Reading the loans table after a row was written.
use mathlib.Core.Path.{subst}
use coop_lumen_index.Base.{
  ℕ, ◌≡◌, refl, ◌∙◌, inl, inr, none, some, List, [], ◌∷◌, ◌++◌, arith, ◌==◌, if◌then◌else◌,
  Bool-cases, All,
}
use coop_lumen_index.Loans.{Loan}
use coop_lumen_index.Loans.Store.{find_loan, replace_loan}

pub find_loan_id : (i : ℕ) (ls : List Loan) {l : Loan} → find_loan i ls ≡ some l → l.id ≡ i
find_loan_id i [] e = ground arith
find_loan_id i (x ∷ ls) {l} e = ground (arith, find_loan_id i ls {l = l})

pub find_loan-replace :
    (i : ℕ) (row l : Loan) (ls : List Loan)
    → find_loan row.id ls ≡ some l
    → find_loan i (replace_loan row ls) ≡ (if row.id == i then some row else find_loan i ls)
find_loan-replace i row l [] e = ground arith
find_loan-replace i row l (x ∷ ls) e = ground (arith, find_loan-replace i row l ls)

pub find_loan-append :
    (i : ℕ) (row : Loan) (ls : List Loan)
    → find_loan row.id ls ≡ none
    → find_loan i (ls ++ row ∷ []) ≡ (if row.id == i then some row else find_loan i ls)
find_loan-append i row [] e = refl
find_loan-append i row (x ∷ ls) e = ground (arith, find_loan-append i row ls)

pub find_loan-append_old :
    (i : ℕ) (row l : Loan) (ls : List Loan)
    → find_loan i ls ≡ some l
    → find_loan i (ls ++ row ∷ []) ≡ some l
find_loan-append_old i row l [] e = ground arith
find_loan-append_old i row l (x ∷ ls) e = ground (arith, find_loan-append_old i row l ls)

module _ {ℓ} (P : Loan → Type ℓ) where
  pub All-find : (i : ℕ) (ls : List Loan) {l : Loan} → All P ls → find_loan i ls ≡ some l → P l
  All-find i [] h e = cc
  All-find i (x ∷ ls) {l} h e = elim (Bool-cases (x.id == i)) [
    | inl t ↦ let same : x ≡ l = ground arith in subst P same h.0
    | inr f ↦ let rest : find_loan i ls ≡ some l = ground arith in All-find i ls h.1 rest
  ]

  pub All-replace : (row : Loan) (ls : List Loan) → All P ls → P row → All P (replace_loan row ls)
  All-replace row [] h p = tt
  All-replace row (x ∷ ls) h p = elim (Bool-cases (x.id == row.id)) [
    | inl t ↦ rw t (p, h.1)
    | inr f ↦ rw f (h.0, All-replace row ls h.1 p)
  ]

-- The table after an UPDATE of the row that was found under `id`.
pub find_loan-written :
    (i id : ℕ) (row old : Loan) (ls : List Loan)
    → find_loan id ls ≡ some old
    → row.id ≡ old.id
    → find_loan i (replace_loan row ls) ≡ (if id == i then some row else find_loan i ls)
find_loan-written i id row old ls e same =
    let own : row.id ≡ id = same ∙ find_loan_id id ls e in
    let here : find_loan row.id ls ≡ some old = rw own e in
    find_loan-replace i row old ls here ∙ rw own refl
