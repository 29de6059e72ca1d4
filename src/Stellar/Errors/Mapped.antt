-- ===== src/Stellar/Errors/Mapped.antt =====
-- backend/src/api/utils/horizonError.ts: `mapHorizonError`.
use Prim.Native.String.{String, ◌++◌ as ◌<>◌}
use text.Mathlib.Text.{◌==◌ as ◌=?◌}
use coop_lumen_index.Base.{ℕ, Option, none, some, List, [], ◌∷◌, if◌then◌else◌}
use coop_lumen_index.Stellar.Errors.{
  Field, a_text, no_text, RawCodes, HorizonErrorResponse, Thrown, stellar_error, horizon_error,
  other_error, message_of, text_of, is_status,
}
use coop_lumen_index.Stellar.Errors.Tables.{operation_messages, transaction_messages}

pub record InsufficientBalanceDetails : Type 0 where
  pub required_xlm : Option String
  pub current_balance : Option String

pub record MappedError : Type 0 where
  pub status : ℕ
  pub message : String
  pub code : Option String
  pub details : Option InsufficientBalanceDetails

abbrev pub mapped : ℕ → String → MappedError
mapped status message = record { status = status; message = message; code = none; details = none }

-- `resultCodes.operations[0]` and its message.
abbrev pub first_operation_message : Option (List Field) → Option String
first_operation_message none = none
first_operation_message (some []) = none
first_operation_message (some (no_text ∷ fields)) = none
first_operation_message (some (a_text code ∷ fields)) = message_of code operation_messages

abbrev pub map_transaction : Field → Option InsufficientBalanceDetails → Option MappedError
map_transaction no_text details = none
map_transaction (a_text code) details = elim (message_of code transaction_messages) [
  | none ↦ none
  | some message ↦
      if code =? "tx_insufficient_balance"
      then some record {
        status = 402;
        message = message;
        code = some "INSUFFICIENT_BALANCE";
        details = details;
      }
      else some (mapped 422 message)
]

unfoldable pub map_codes : Option RawCodes → Option InsufficientBalanceDetails → Option MappedError
map_codes none details = none
map_codes (some codes) details = elim (first_operation_message codes.operations) [
  | some message ↦ some (mapped 422 message)
  | none ↦ map_transaction codes.transaction details
]

abbrev pub fallback : Option String → MappedError
fallback none = mapped 502 "Stellar network error. Please try again later."
fallback (some detail) =
    if detail =? ""
    then mapped 502 "Stellar network error. Please try again later."
    else mapped 502 ("Stellar network error: " <> detail)

-- `detail ?? title`
abbrev pub detail_or_title : HorizonErrorResponse → Option String
detail_or_title response = elim (text_of response.detail) [
  | some detail ↦ some detail
  | none ↦ text_of response.title
]

unfoldable pub map_horizon_error : Thrown → Option InsufficientBalanceDetails → MappedError
map_horizon_error (stellar_error e) details = mapped e.status e.message
map_horizon_error (other_error message) details = fallback none
map_horizon_error (horizon_error response) details =
    elim (map_codes response.result_codes details) [
      | some answer ↦ answer
      | none ↦
          if is_status 404 response.status
          then mapped 404 "Stellar account or asset not found."
          else fallback (detail_or_title response)
    ]
