-- ===== src/Stellar/Errors/Rejected.antt =====
-- What a client learns of a rejected submission, by errors.ts and by horizonError.ts.
use Prim.Native.String.{String, ◌++◌ as ◌<>◌}
use coop_lumen_index.Base.{
  ◌≡◌, refl, ap, inl, inr, true, not, Option, some, List, [], ◌∷◌, ◌++◌, map, arith, all, find,
  Bool-cases, Option-cases,
}
use coop_lumen_index.Stellar.Errors.{
  a_text, RawCodes, HorizonErrorResponse, stellar_error, horizon_error, message_of, texts_of,
  is_status, is_failed, with_code, or_else, first_failed_operation, describe_result_codes,
  map_status, to_stellar_error, extract_result_codes, detail_of,
}
use coop_lumen_index.Stellar.Errors.Tables.{operation_details, transaction_messages}
use coop_lumen_index.Stellar.Errors.Mapped.{
  MappedError, first_operation_message, mapped, InsufficientBalanceDetails, map_horizon_error,
  map_codes,
}

texts_of-map : (codes : List String) → texts_of (map a_text codes) ≡ codes
texts_of-map [] = refl
texts_of-map (c ∷ codes) = ap (λ xs. c ∷ xs) (texts_of-map codes)

find_failed :
    (before after : List String) (code : String)
    → all (λ c. not (is_failed c)) before ≡ true
    → is_failed code ≡ true
    → find is_failed (before ++ code ∷ after) ≡ some code
find_failed [] after code h k = ground arith
find_failed (c ∷ before) after code h k = let rest = find_failed before after code in ground arith

module _ (to_lower : String → String) where
  -- A submission that Horizon rejected because of an operation.
  abbrev pub rejected :
      HorizonErrorResponse → List String → String → List String → HorizonErrorResponse
  rejected response before code after = record response {
    status = some 400;
    result_codes = some record {
      transaction = a_text "tx_failed";
      operations = some (map a_text (before ++ code ∷ after));
    };
  }

  -- When Horizon rejects a submission because of one operation, the message of the StellarError
  -- says the action, what that operation's code means, if the table has it, and the code, also
  -- where the operations before it went through.
  pub to_stellar_error_names :
      (response : HorizonErrorResponse) (action : String) (before after : List String)
      (code : String)
      → all (λ c. not (is_failed c)) before ≡ true
      → is_failed code ≡ true
      → (to_stellar_error to_lower
          (horizon_error (rejected response before code after))
          action).message
        ≡ action
          <> " failed: "
          <> with_code
              (or_else
                (message_of code operation_details)
                "the operation was rejected by the network")
              code
  unfolding to_stellar_error extract_result_codes describe_result_codes first_failed_operation
  to_stellar_error_names response action before after code h k =
      let texts = texts_of-map (before ++ code ∷ after) in
      let found = find_failed before after code h k in rw (texts, found) refl

  to_stellar_error_status :
      (response : HorizonErrorResponse) (action : String)
      → (to_stellar_error to_lower (horizon_error response) action).status
        ≡ map_status response.status
  unfolding to_stellar_error
  to_stellar_error_status response action =
      let detail = detail_of (extract_result_codes response.result_codes) in
      elim (Bool-cases (is_status 404 response.status)) [
        | inl t ↦ rw (t, to_stellar_error) refl
        | inr f ↦ elim (Bool-cases (is_status 429 response.status)) [
          | inl t ↦ rw (f, t, to_stellar_error) refl
          | inr g ↦ elim (Option-cases detail) [
            | inl e ↦ rw (f, g, e, to_stellar_error) refl
            | inr (d, e) ↦ rw (f, g, e, to_stellar_error) refl
          ]
        ]
      ]

  raw_status :
      (codes : RawCodes) (details : Option InsufficientBalanceDetails)
      → codes.transaction ≡ a_text "tx_failed"
      → (m : MappedError) × (map_codes (some codes) details ≡ some m) × (m.status ≡ 422)
  unfolding map_codes transaction_messages
  raw_status codes details h = elim (Option-cases (first_operation_message codes.operations)) [
    | inl e ↦ (
      mapped 422 "One or more operations in the transaction failed.",
      rw (e, h, map_codes) refl,
      refl,
    )
    | inr (message, e) ↦ (mapped 422 message, rw (e, map_codes) refl, refl)
  ]

  -- A submission that Horizon rejects because of an operation is answered by mapHorizonError
  -- with 422 if the route passes on Horizon's own error, and with 400 if toStellarError has
  -- wrapped it before.
  pub rejected_statuses :
      (response : HorizonErrorResponse) (action : String) (before after : List String)
      (code : String) (details : Option InsufficientBalanceDetails)
      → ((map_horizon_error (horizon_error (rejected response before code after)) details).status
          ≡ 422)
        × ((map_horizon_error
              (stellar_error (
                to_stellar_error to_lower
                  (horizon_error (rejected response before code after))
                  action))
              details).status
            ≡ 400)
  unfolding map_horizon_error to_stellar_error map_status
  rejected_statuses response action before after code details =
      let (m, found, same) =
        raw_status
          (record {
            transaction = a_text "tx_failed";
            operations = some (map a_text (before ++ code ∷ after));
          })
          details refl in
      (
        rw (found, map_horizon_error) same,
        to_stellar_error_status (rejected response before code after) action,
      )
