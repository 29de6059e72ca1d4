-- ===== src/Listings/Export.antt =====
-- backend/src/api/routes/transactions.ts: GET /transactions/export/:communityId. A text is the list of
-- its character codes.
use coop_lumen_index.Base.{
  ℕ, ◌≡◌, refl, ap, ◌∙◌, ◌⊎◌, inl, inr, Bool, true, false, not, Option, none, some, List, [], ◌∷◌,
  ◌++◌, map, all, arith, if◌then◌else◌, ◌==◌,
}
use coop_lumen_index.Communities.{Community}
use coop_lumen_index.Communities.Store.{live_community}

-- What the code reads of a transaction; `memo` is none where it is null or missing.
pub record TransactionRecord : Type 0 where
  pub id : List ℕ
  pub created_at : List ℕ
  pub source_account : List ℕ
  pub fee_charged : List ℕ
  pub successful : Bool
  pub has_memo : Bool
  pub memo : Option (List ℕ)

pub data ExportAnswer (E : Type 0) : Type 0 where
  csv : List ℕ → ExportAnswer E
  export_no_community : ExportAnswer E
  horizon_refused : E → ExportAnswer E

abbrev pub comma : ℕ
comma = 44

abbrev pub newline : ℕ
newline = 10

-- `csvRows.join('\n')`
abbrev pub join_lines : List (List ℕ) → List ℕ
join_lines [] = []
join_lines (row ∷ []) = row
join_lines (row ∷ next ∷ rows) = row ++ newline ∷ join_lines (next ∷ rows)

-- `tx.memo_type !== 'none' ? String(tx.memo ?? '') : ''`
abbrev pub memo_text : TransactionRecord → List ℕ
memo_text tx = if tx.has_memo then elim tx.memo [ none ↦ [] | some text ↦ text ] else []

abbrev pub true_text : List ℕ
true_text = b't' ∷ b'r' ∷ b'u' ∷ b'e' ∷ []

abbrev pub false_text : List ℕ
false_text = b'f' ∷ b'a' ∷ b'l' ∷ b's' ∷ b'e' ∷ []

-- `stringify` is JSON.stringify of a text; `header` the names of the columns.
module _ (stringify : List ℕ → List ℕ) (header : List ℕ) where
  unfoldable pub csv_row : TransactionRecord → List ℕ
  csv_row tx =
      stringify tx.id
      ++ (comma
          ∷ (stringify tx.created_at
              ++ (comma
                  ∷ (stringify tx.source_account
                      ++ (comma
                          ∷ (stringify tx.fee_charged
                              ++ (comma
                                  ∷ ((if tx.successful then true_text else false_text)
                                      ++ (comma ∷ stringify (memo_text tx))))))))))

  unfoldable pub csv_content : List TransactionRecord → List ℕ
  unfolding csv_row
  csv_content records = join_lines (header ∷ map csv_row records)

  -- `history` is the answer of getTransactionHistory, for an account and a number of records.
  unfoldable pub export_transactions :
      {E : Type 0} → (ℕ → ℕ → E ⊎ List TransactionRecord) → List Community → ℕ → ExportAnswer E
  unfolding csv_content
  export_transactions history communities id = elim (live_community id communities) [
    | none ↦ export_no_community
    | some community ↦ elim (history community.issuer_public_key 200) [
      | inl e ↦ horizon_refused e
      | inr records ↦ csv (csv_content records)
    ]
  ]

-- The lines of a text, from what stands before the next line break.
abbrev add_front : ℕ → List (List ℕ) → List (List ℕ)
add_front c [] = (c ∷ []) ∷ []
add_front c (line ∷ lines_of) = (c ∷ line) ∷ lines_of

abbrev pub lines_of : List ℕ → List (List ℕ)
lines_of [] = [] ∷ []
lines_of (c ∷ cs) = let rest = lines_of cs in if c == newline then [] ∷ rest else add_front c rest

-- A text on one line.
abbrev pub is_line : List ℕ → Bool
is_line = all λ c. not (c == newline)

lines_of-line : (row : List ℕ) → is_line row ≡ true → lines_of row ≡ row ∷ []
lines_of-line [] h = refl
lines_of-line (c ∷ cs) h = let rest = lines_of-line cs (ground arith) in ground arith

lines_of-append :
    (row rest : List ℕ)
    → is_line row ≡ true
    → lines_of (row ++ newline ∷ rest) ≡ row ∷ lines_of rest
lines_of-append [] rest h = refl
lines_of-append (c ∷ cs) rest h = let later = lines_of-append cs rest (ground arith) in ground arith

lines_of-join_lines :
    (row : List ℕ) (rows : List (List ℕ))
    → all is_line (row ∷ rows) ≡ true
    → lines_of (join_lines (row ∷ rows)) ≡ row ∷ rows
lines_of-join_lines row [] h = lines_of-line row (ground arith)
lines_of-join_lines row (next ∷ rows) h =
    lines_of-append row (join_lines (next ∷ rows)) (ground arith)
    ∙ ap (λ ls. row ∷ ls) (lines_of-join_lines next rows (ground arith))

is_line-append :
    (xs ys : List ℕ) → is_line xs ≡ true → is_line ys ≡ true → is_line (xs ++ ys) ≡ true
is_line-append [] ys h k = k
is_line-append (c ∷ cs) ys h k = let rest = is_line-append cs ys (ground arith) k in ground arith

field-line :
    (text rest : List ℕ)
    → is_line text ≡ true
    → is_line rest ≡ true
    → is_line (text ++ comma ∷ rest) ≡ true
field-line text rest h k = is_line-append text (comma ∷ rest) h k

flag_line : (b : Bool) → is_line (if b then true_text else false_text) ≡ true
flag_line true = refl
flag_line false = refl

module _ (stringify : List ℕ → List ℕ) (header : List ℕ) where
  module _ (law : (text : List ℕ) → is_line (stringify text) ≡ true) where
    csv_row-line : (tx : TransactionRecord) → is_line (csv_row stringify header tx) ≡ true
    unfolding csv_row
    csv_row-line tx = field-line (stringify tx.id) _ (law tx.id) (
        field-line (stringify tx.created_at) _ (law tx.created_at) (
          field-line (stringify tx.source_account) _ (law tx.source_account) (
            field-line (stringify tx.fee_charged) _ (law tx.fee_charged) (
              field-line (if tx.successful then true_text else false_text)
                (stringify (memo_text tx)) (flag_line tx.successful) (law (memo_text tx))))))

    rows-lines_of :
        (records : List TransactionRecord)
        → all is_line (map (csv_row stringify header) records) ≡ true
    rows-lines_of [] = refl
    rows-lines_of (tx ∷ records) =
        let here = csv_row-line tx in let rest = rows-lines_of records in ground arith

    -- The file has the line of the columns and one line for each transaction, in order, where
    -- JSON.stringify writes no line break: whatever a memo holds, it stays on its transaction's line.
    pub csv_content-lines_of :
        (records : List TransactionRecord)
        → is_line header ≡ true
        → lines_of (csv_content stringify header records)
          ≡ header ∷ map (csv_row stringify header) records
    unfolding csv_content
    csv_content-lines_of records h =
        let rest = rows-lines_of records in lines_of-join_lines header _ (ground arith)
