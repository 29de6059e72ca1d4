-- ===== src/Stellar/Blame.antt =====
-- backend/src/contracts/batchPayments.ts: `attributeFailure`, less the texts of its message.
use coop_lumen_index.Base.{
  ℕ, zero, suc, ◌≡◌, refl, ap, Bool, true, false, not, Option, none, some, List, [], ◌∷◌, ◌++◌,
  length, all, arith, if◌then◌else◌,
}
use coop_lumen_index.Stellar.Batch.{BatchPaymentEntry}

pub data OperationCode : Type 0 where
  op_success empty_code : OperationCode
  other_code : ℕ → OperationCode

-- `code !== 'op_success' && code !== ''`
abbrev pub is_failure : OperationCode → Bool
is_failure op_success = false
is_failure empty_code = false
is_failure (other_code _) = true

abbrev pub next_index : Option ℕ → Option ℕ
next_index none = none
next_index (some n) = some (suc n)

-- `operations.findIndex`, none for -1.
unfoldable pub find_failure : List OperationCode → Option ℕ
find_failure [] = none
find_failure (code ∷ codes) =
    let rest = find_failure codes in if is_failure code then some 0 else next_index rest

-- `payments[index]`
abbrev pub entry_at : ℕ → List BatchPaymentEntry → Option BatchPaymentEntry
entry_at n [] = none
entry_at zero (e ∷ es) = some e
entry_at (suc n) (e ∷ es) = entry_at n es

abbrev pub blamed : ℕ → Option BatchPaymentEntry → Option (ℕ × BatchPaymentEntry)
blamed n none = none
blamed n (some e) = some (suc n, e)

-- The payment that the new message names, by its position from 1; none leaves the error as it is.
unfoldable pub attribute_failure :
    Option (List OperationCode) → List BatchPaymentEntry → Option (ℕ × BatchPaymentEntry)
unfolding find_failure
attribute_failure none payments = none
attribute_failure (some codes) payments = elim (find_failure codes) [
  | none ↦ none
  | some n ↦ blamed n (entry_at n payments)
]

find_failure-append :
    (before after : List OperationCode) (code : OperationCode)
    → all (λ c. not (is_failure c)) before ≡ true
    → is_failure code ≡ true
    → find_failure (before ++ code ∷ after) ≡ some (length before)
unfolding find_failure
find_failure-append [] after code h k = ground arith
find_failure-append (c ∷ before) after code h k =
    let rest = find_failure-append before after code (ground arith) k in ground arith

entry_at-append :
    (before after : List BatchPaymentEntry) (e : BatchPaymentEntry)
    → entry_at (length before) (before ++ e ∷ after) ≡ some e
entry_at-append [] after e = refl
entry_at-append (x ∷ before) after e = entry_at-append before after e

-- When the operations before one all went through and that one failed, the new message names the
-- payment of that operation, by its position from 1.
pub attribute_failure_first :
    (codes codes' : List OperationCode) (code : OperationCode)
    (paid unpaid : List BatchPaymentEntry) (entry : BatchPaymentEntry)
    → all (λ c. not (is_failure c)) codes ≡ true
    → is_failure code ≡ true
    → length paid ≡ length codes
    → attribute_failure (some (codes ++ code ∷ codes')) (paid ++ entry ∷ unpaid)
      ≡ some (suc (length paid), entry)
unfolding attribute_failure
attribute_failure_first codes codes' code paid unpaid entry ok bad same =
    let found = find_failure-append codes codes' code ok bad in
    let there = ap (λ n. entry_at n (paid ++ entry ∷ unpaid)) same in
    let here = entry_at-append paid unpaid entry in ground (arith, found, there, here)
