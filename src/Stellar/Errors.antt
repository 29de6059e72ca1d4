-- ===== src/Stellar/Errors.antt =====
-- backend/src/contracts/errors.ts: `toStellarError` and what it reads of an error that was thrown.
pub mod Tables
pub mod Mapped
pub mod Rejected
mod Examples
use Prim.Native.String.{String, ◌++◌ as ◌<>◌}
use text.Mathlib.Text.{◌==◌ as ◌=?◌}
use coop_lumen_index.Base.{
  ℕ, Bool, true, false, ◌&&◌, ◌||◌, not, Option, none, some, List, [], ◌∷◌, find, if◌then◌else◌,
  ◌==◌,
}
use coop_lumen_index.Stellar.Errors.Tables.{transaction_details, operation_details}

-- A value in the JSON body of an answer: a text, or something else or nothing.
pub data Field : Type 0 where
  a_text : String → Field
  no_text : Field

-- `extras.result_codes` as Horizon sent them; `operations` is none if it is no array.
pub record RawCodes : Type 0 where
  pub transaction : Field
  pub operations : Option (List Field)

pub record HorizonErrorResponse : Type 0 where
  pub status : Option ℕ
  pub status_text : Option String
  pub result_codes : Option RawCodes
  pub detail : Field
  pub title : Field

pub record HorizonResultCodes : Type 0 where
  pub transaction : Option String
  pub operations : Option (List String)

pub record StellarError : Type 0 where
  pub message : String
  pub status : ℕ
  pub result_codes : Option HorizonResultCodes
  pub response : Option HorizonErrorResponse

-- What is thrown: a StellarError, an error with a response, or another with its text.
pub data Thrown : Type 0 where
  stellar_error : StellarError → Thrown
  horizon_error : HorizonErrorResponse → Thrown
  other_error : String → Thrown

-- `TABLE[code]`
abbrev pub message_of : String → List (String × String) → Option String
message_of code [] = none
message_of code ((c, message) ∷ rows) =
    let rest = message_of code rows in if c =? code then some message else rest

abbrev pub text_of : Field → Option String
text_of (a_text s) = some s
text_of no_text = none

-- `codes.operations.filter` with a test for texts.
abbrev pub texts_of : List Field → List String
texts_of [] = []
texts_of (a_text s ∷ fields) = s ∷ texts_of fields
texts_of (no_text ∷ fields) = texts_of fields

-- `value && { … }`: an empty text is left out.
abbrev pub nonempty : Option String → Option String
nonempty none = none
nonempty (some s) = if s =? "" then none else some s

abbrev pub codes_of : Option String → Option (List String) → Option HorizonResultCodes
codes_of none none = none
codes_of transaction (some operations) =
    some record { transaction = nonempty transaction; operations = some operations }
codes_of (some transaction) none =
    some record { transaction = nonempty (some transaction); operations = none }

abbrev pub operations_of : Option (List Field) → Option (List String)
operations_of none = none
operations_of (some fields) = some (texts_of fields)

unfoldable pub extract_result_codes : Option RawCodes → Option HorizonResultCodes
extract_result_codes none = none
extract_result_codes (some raw) = codes_of (text_of raw.transaction) (operations_of raw.operations)

abbrev pub is_failed : String → Bool
is_failed code = not (code =? "op_success") && not (code =? "")

unfoldable pub first_failed_operation : Option (List String) → Option String
first_failed_operation none = none
first_failed_operation (some operations) = find is_failed operations

abbrev pub or_else : Option String → String → String
or_else none default = default
or_else (some s) default = s

abbrev pub with_code : String → String → String
with_code detail code = detail <> " (" <> code <> ")"

abbrev pub describe_transaction : Option String → Option String
describe_transaction none = none
describe_transaction (some code) =
    if code =? "tx_success"
    then none
    else some (
        with_code (or_else (message_of code transaction_details) "the transaction was rejected")
          code)

unfoldable pub describe_result_codes : HorizonResultCodes → Option String
describe_result_codes codes = elim (first_failed_operation codes.operations) [
  | some code ↦ some (
      with_code
        (or_else (message_of code operation_details) "the operation was rejected by the network")
        code)
  | none ↦ describe_transaction codes.transaction
]

unfoldable pub map_status : Option ℕ → ℕ
map_status none = 502
map_status (some status) =
    if (status == 400) || (status == 404) || (status == 429) then status else 502

abbrev pub is_status : ℕ → Option ℕ → Bool
is_status n none = false
is_status n (some status) = status == n

abbrev pub detail_of : Option HorizonResultCodes → Option String
detail_of none = none
detail_of (some codes) = describe_result_codes codes

module _ (to_lower : String → String) where
  abbrev pub summary_of : HorizonErrorResponse → String
  summary_of response = elim (text_of response.detail) [
    | some detail ↦ detail
    | none ↦ elim (text_of response.title) [
      | some title ↦ to_lower title
      | none ↦ or_else response.status_text "Horizon returned an error"
    ]
  ]

  abbrev pub failure_of : HorizonErrorResponse → Option HorizonResultCodes → String → StellarError
  failure_of response codes message = record {
    message = message;
    status = map_status response.status;
    result_codes = codes;
    response = some response;
  }

  abbrev pub of_response : HorizonErrorResponse → String → StellarError
  of_response response action =
      if is_status 404 response.status
      then failure_of response none (
          action
          <> " failed: the account was not found on this Stellar network. Fund the account before using it.")
      else if is_status 429 response.status
      then failure_of response none
          (action <> " failed: Horizon rate limit exceeded. Retry after a short delay.")
      else elim (detail_of (extract_result_codes response.result_codes)) [
        | some detail ↦
            failure_of response (extract_result_codes response.result_codes)
              (action <> " failed: " <> detail)
        | none ↦
            failure_of response (extract_result_codes response.result_codes)
              (action <> " failed: " <> summary_of response)
      ]

  unfoldable pub to_stellar_error : Thrown → String → StellarError
  to_stellar_error (stellar_error e) action = e
  to_stellar_error (horizon_error response) action = of_response response action
  to_stellar_error (other_error message) action = record {
    message = action <> " failed: " <> message;
    status = 502;
    result_codes = none;
    response = none;
  }
