-- ===== src/TokenRoutes.antt =====
-- backend/src/api/routes/tokens.ts: the submission of a signed transaction and the airdrop, and what
-- backend/src/api/middleware/errorHandler.ts does with an error that a route passes on.
pub mod Submit
pub mod Airdrop
mod Examples
use Prim.Native.String.{String}
use coop_lumen_index.Base.{ℕ, Bool, true, false, not, Option, none, some, if◌then◌else◌, ◌==◌}
use coop_lumen_index.Stellar.Errors.{
  HorizonErrorResponse, StellarError, Thrown, stellar_error, horizon_error, other_error,
}
use coop_lumen_index.Stellar.Errors.Mapped.{MappedError, map_horizon_error}

-- An answer with an error: its status and its text.
pub record ErrorAnswer : Type 0 where
  pub status : ℕ
  pub error : String

-- The fields of an error that errorHandler looks at; 0 is no status.
pub record AppError : Type 0 where
  pub status : ℕ
  pub status_code : ℕ
  pub is_not_found_error : Bool
  pub response_status : ℕ
  pub message : String

abbrev pub not_zero : ℕ → Bool
not_zero n = not (n == 0)

unfoldable pub resolve_status : AppError → ℕ
resolve_status err =
    if not_zero err.status
    then err.status
    else if not_zero err.status_code
    then err.status_code
    else if err.is_not_found_error
    then 404
    else if not_zero err.response_status
    then err.response_status
    else 500

unfoldable pub error_handler : AppError → ErrorAnswer
error_handler err =
    let status = resolve_status err in
    record {
      status = status;
      error = if status == 500 then "Internal server error" else err.message;
    }

-- `(err as { response?: unknown }).response`
abbrev pub has_response : Thrown → Bool
has_response (horizon_error response) = true
has_response (other_error message) = false
has_response (stellar_error e) = elim e.response [ none ↦ false | some _ ↦ true ]

-- What `next(err)` hands to errorHandler, of an error without a response.
abbrev pub app_error : Thrown → AppError
app_error (stellar_error e) = record {
  status = e.status;
  status_code = 0;
  is_not_found_error = false;
  response_status = 0;
  message = e.message;
}
app_error (horizon_error response) = record {
  status = 0;
  status_code = 0;
  is_not_found_error = false;
  response_status = elim response.status [ none ↦ 0 | some n ↦ n ];
  message = "";
}
app_error (other_error message) = record {
  status = 0;
  status_code = 0;
  is_not_found_error = false;
  response_status = 0;
  message = message;
}

abbrev pub mapped_answer : MappedError → ErrorAnswer
mapped_answer mapped = record { status = mapped.status; error = mapped.message }

-- The `catch` of the routes that build a transaction.
unfoldable pub build_failed : Thrown → ErrorAnswer
build_failed err =
    if has_response err
    then mapped_answer (map_horizon_error err none)
    else error_handler (app_error err)
