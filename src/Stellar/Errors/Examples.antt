-- ===== src/Stellar/Errors/Examples.antt =====
-- The theorems about errors at a payment that was rejected behind one that went through.
use Prim.Native.String.{String}
use coop_lumen_index.Base.{◌≡◌, refl, none, [], ◌∷◌}
use coop_lumen_index.Stellar.Errors.{no_text, HorizonErrorResponse, horizon_error}
use coop_lumen_index.Stellar.Errors.Mapped.{map_horizon_error, map_codes}
use coop_lumen_index.Stellar.Errors.Tables.{operation_messages, transaction_messages}
use coop_lumen_index.Stellar.Errors.Rejected.{rejected}

abbrev response : HorizonErrorResponse
response = record {
  status = none;
  status_text = none;
  result_codes = none;
  detail = no_text;
  title = no_text;
}

abbrev same : String → String
same s = s

abbrev no_trust : HorizonErrorResponse
no_trust = rejected same response ("op_success" ∷ []) "op_no_trust" []

-- The raw error's answer does not name the operation.
hidden_operation :
    (map_horizon_error (horizon_error no_trust) none).message
    ≡ "One or more operations in the transaction failed."
unfolding map_horizon_error map_codes operation_messages transaction_messages
hidden_operation = refl
