-- ===== src/Loans/System/Authority.antt =====
-- On who may run which transaction. The guards read the loan before the transaction does.
use mathlib.Core.Path.{subst}
use coop_lumen_index.Base.{
  ℕ, ◌≡◌, sym, ◌∙◌, ◌⊎◌, inl, inr, ◌≢◌, ap, none, some, List, [], ◌∷◌, ◌++◌, arith, All,
  Option-cases,
}
use coop_lumen_index.Loans.{Loan, Db}
use coop_lumen_index.Loans.Doubles.{Doubles}
use coop_lumen_index.Loans.Store.{find_loan}
use coop_lumen_index.Loans.Create.{create_check}
use coop_lumen_index.Loans.Disburse.{disburse_check}
use coop_lumen_index.Loans.Repay.{repay_check}
use coop_lumen_index.Loans.Closing.{default_check, cancel_check}
use coop_lumen_index.Loans.System.{
  Request, creates, disburses, repays, marks_default, cancels, Call, State, check, Step, admit, run,
  Reach, here, next,
}
use coop_lumen_index.Loans.System.Lifecycle.{Follows, Step-Later}

abbrev pub OnLoan : ℕ → Db → (Loan → Type 0) → Type 0
OnLoan id db P = (l : Loan) × (find_loan id db.loans ≡ some l) × P l

-- The address is a party that the request may act for.
abbrev pub Party : ℕ → Request → Db → Type 0
Party a (creates body) db = (a ≡ body.borrower_address) ⊎ (a ≡ body.lender_address)
Party a (disburses id _) db = OnLoan id db λ l. a ≡ l.lender_address
Party a (repays id _) db = OnLoan id db λ l. a ≡ l.borrower_address
Party a (marks_default id _) db = OnLoan id db λ l. a ≡ l.lender_address
Party a (cancels id) db = OnLoan id db λ l. (a ≡ l.borrower_address) ⊎ (a ≡ l.lender_address)

module _ (D : Doubles) where
  on_found :
      (id : ℕ) (db : Db) (P : Loan → Type 0)
      → find_loan id db.loans ≢ none
      → ((l : Loan) → find_loan id db.loans ≡ some l → P l)
      → OnLoan id db P
  on_found id db P h k = elim (Option-cases (find_loan id db.loans)) [
    | inl e ↦ absurd (h e)
    | inr (l, e) ↦ (l, e, k l e)
  ]

  check_sound : (a : ℕ) (r : Request) (db : Db) → check D a r db ≡ none → Party a r db
  unfolding check create_check disburse_check repay_check default_check cancel_check
  check_sound a (creates body) db h = ground arith
  check_sound a (disburses id _) db h = on_found id db _ (ground arith) λ l e. ground arith
  check_sound a (repays id body) db h = on_found id db _ (ground arith) λ l e. ground arith
  check_sound a (marks_default id _) db h = on_found id db _ (ground arith) λ l e. ground arith
  check_sound a (cancels id) db h = on_found id db _ (ground arith) λ l e. ground arith

  keeps :
      {s t : State} (id : ℕ) (P : Loan → Type 0)
      → ((l l' : Loan) → Follows l l' → P l → P l')
      → Step D s t
      → OnLoan id s.db P
      → OnLoan id t.db P
  keeps id P mono st (l, e, p) = let (l', e', f) = Step-Later D id l st e in (l', e', mono l l' f p)

  Step-Party : {s t : State} (a : ℕ) (r : Request) → Step D s t → Party a r s.db → Party a r t.db
  Step-Party a (creates body) st p = p
  Step-Party a (disburses id _) st p = keeps id _ (λ l l' f p. p ∙ sym f.lender) st p
  Step-Party a (repays id _) st p = keeps id _ (λ l l' f p. p ∙ sym f.borrower) st p
  Step-Party a (marks_default id _) st p = keeps id _ (λ l l' f p. p ∙ sym f.lender) st p
  Step-Party a (cancels id) st p =
      keeps id _ (λ l l' f p. ground (arith, f.borrower, f.lender)) st p

  abbrev pub IsAuthorized : State → Type 0
  IsAuthorized s = All (λ (c : Call). Party c.caller c.request s.db) s.waiting

  All-Step :
      {s t : State} (cs : List Call)
      → Step D s t
      → All (λ (c : Call). Party c.caller c.request s.db) cs
      → All (λ (c : Call). Party c.caller c.request t.db) cs
  All-Step [] st h = tt
  All-Step (c ∷ cs) st (p, h) = (Step-Party c.caller c.request st p, All-Step cs st h)

  All-drop {ℓ} :
      (P : Call → Type ℓ) (before : List Call) (c : Call) (after : List Call)
      → All P (before ++ c ∷ after)
      → All P (before ++ after)
  All-drop P [] c after h = h.1
  All-drop P (b ∷ before) c after h = (h.0, All-drop P before c after h.1)

  Step-IsAuthorized : {s t : State} → Step D s t → IsAuthorized s → IsAuthorized t
  Step-IsAuthorized {s} (admit c passed e) h = rw e (check_sound c.caller c.request s.db passed, h)
  Step-IsAuthorized {s} {t} (run c k before after w e) h =
      let later = All-Step s.waiting (run c k before after w e) h in
      let P : Call → Type 0 = λ x. Party x.caller x.request t.db in
      let rest = All-drop P before c after (subst (All P) w later) in
      subst (All P) (sym (ap (λ (u : State). u.waiting) e)) rest

  -- From any tables with no request under way, and however requests interleave, each request
  -- whose transaction is still to run comes from a party of the loan as it then stands: the
  -- borrower for a repayment, the lender for a disbursement or a default, either for a
  -- cancellation or a new loan.
  pub Reach-IsAuthorized : {s t : State} → s.waiting ≡ [] → Reach D s t → IsAuthorized t
  Reach-IsAuthorized {s} e here = rw e tt
  Reach-IsAuthorized e (next r st) = Step-IsAuthorized st (Reach-IsAuthorized e r)
