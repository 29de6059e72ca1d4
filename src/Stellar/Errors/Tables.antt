-- ===== src/Stellar/Errors/Tables.antt =====
-- The message tables of backend/src/contracts/errors.ts and backend/src/api/utils/horizonError.ts.
use Prim.Native.String.{String}
use coop_lumen_index.Base.{List, [], ◌∷◌}

-- TRANSACTION_MESSAGES of errors.ts.
unfoldable pub transaction_details : List (String × String)
transaction_details =
    ("tx_failed", "one or more operations in the transaction failed")
    ∷ ("tx_bad_seq", "the account sequence number was stale; rebuild and retry the transaction")
    ∷ ("tx_bad_auth", "the transaction is missing a required signature")
    ∷ ("tx_bad_auth_extra", "the transaction carries a signature that is not needed")
    ∷ (
      "tx_insufficient_balance",
      "the source account cannot pay the fee and keep its minimum XLM reserve",
    )
    ∷ (
      "tx_insufficient_fee",
      "the fee is below the current network minimum; retry with a higher fee",
    )
    ∷ ("tx_no_source_account", "the source account does not exist on this network")
    ∷ ("tx_too_early", "the transaction time bounds start in the future")
    ∷ ("tx_too_late", "the transaction time bounds have expired; rebuild and resubmit it")
    ∷ ("tx_missing_operation", "the transaction contains no operations")
    ∷ ("tx_internal_error", "Horizon reported an internal error; retry the transaction")
    ∷ ("tx_not_supported", "the network does not support this transaction")
    ∷ []

-- OPERATION_MESSAGES of errors.ts.
unfoldable pub operation_details : List (String × String)
operation_details =
    ("op_underfunded", "the source account does not hold enough of the asset")
    ∷ ("op_no_destination", "the destination account does not exist on this network")
    ∷ ("op_no_trust", "the target account has no trustline for this asset")
    ∷ ("op_not_authorized", "the target account is not authorized to hold this asset")
    ∷ ("op_src_no_trust", "the source account has no trustline for this asset")
    ∷ ("op_src_not_authorized", "the source account is not authorized to send this asset")
    ∷ ("op_line_full", "the destination trustline limit would be exceeded")
    ∷ ("op_no_issuer", "the asset issuer account does not exist on this network")
    ∷ ("op_low_reserve", "the account does not hold enough XLM to meet the minimum reserve")
    ∷ ("op_malformed", "the operation parameters are invalid")
    ∷ ("op_invalid_limit", "the requested trustline limit is below the current balance")
    ∷ ("op_self_not_allowed", "an account cannot create a trustline to its own asset")
    ∷ ("op_no_trust_line", "the target account has no trustline for this asset")
    ∷ (
      "op_cant_revoke", "the issuer cannot revoke authorization because it is not set as revocable",
    )
    ∷ ("op_invalid_state", "the requested flag combination is not valid for this trustline")
    ∷ ("op_immutable_set", "the issuer account is immutable, so its flags cannot be changed")
    ∷ ("op_cross_self", "the operation would trade the account against itself")
    ∷ []

-- OPERATION_MESSAGES of horizonError.ts.
unfoldable pub operation_messages : List (String × String)
operation_messages =
    ("op_bad_auth", "Transaction is missing a required signature for this operation.")
    ∷ ("op_no_account", "The source account for this operation does not exist.")
    ∷ ("op_not_supported", "This operation is not supported by the network.")
    ∷ (
      "op_too_many_subentries",
      "Account has reached the maximum number of subentries (trustlines, offers, signers).",
    )
    ∷ (
      "op_exceeded_work_limit",
      "Operation was rejected because it exceeded the allowed processing limit.",
    )
    ∷ (
      "op_too_many_sponsoring",
      "Account is sponsoring too many reserves to complete this operation.",
    )
    ∷ ("op_malformed", "Operation parameters are malformed.")
    ∷ ("op_underfunded", "Insufficient balance to complete this operation.")
    ∷ ("op_no_trust", "Destination account does not have a trustline for this asset.")
    ∷ ("op_line_full", "Destination account's trustline limit would be exceeded.")
    ∷ ("op_no_destination", "Destination account does not exist.")
    ∷ ("op_no_issuer", "The asset issuer account does not exist.")
    ∷ ("op_src_no_trust", "Source account does not have a trustline for this asset.")
    ∷ ("op_src_not_authorized", "Source account is not authorized to transfer this asset.")
    ∷ ("op_not_authorized", "Account is not authorized to hold or transfer this asset.")
    ∷ ("op_cross_self", "The payment path crosses its own offer.")
    ∷ ("op_too_few_offers", "No path could be found to complete this payment.")
    ∷ ("op_offer_cross_self", "The payment path crosses its own offer.")
    ∷ ("op_invalid_limit", "Trustline limit must be greater than the current balance.")
    ∷ (
      "op_low_reserve",
      "Account does not hold enough XLM to cover the minimum reserve for this operation.",
    )
    ∷ (
      "op_trust_not_required",
      "A trustline is not required for this asset (it is issued by this account).",
    )
    ∷ (
      "op_cant_delete",
      "Trustline cannot be removed while it still holds a balance or has open offers.",
    )
    ∷ ("op_trust_line_missing", "No trustline exists for this asset.")
    ∷ ("op_is_authorized", "Trustline is already authorized.")
    ∷ ("op_deauthorize_not_allowed", "The asset issuer does not allow trustline deauthorization.")
    ∷ ("op_already_exists", "An account already exists at this address.")
    ∷ ("op_immutable_set", "Account settings are immutable and cannot be changed.")
    ∷ (
      "op_has_sub_entries",
      "Account cannot be merged while it still holds trustlines, offers, or data entries.",
    )
    ∷ ("op_seqnum_too_far", "Account's sequence number is too far in the future to merge.")
    ∷ ("op_dest_full", "Destination account has reached the maximum XLM balance it can hold.")
    ∷ ("op_too_many_signers", "Account has reached the maximum number of signers.")
    ∷ ("op_bad_signer", "The signer key or weight provided is invalid.")
    ∷ ("op_invalid_home_domain", "The home domain value is invalid.")
    ∷ (
      "op_auth_revocable_required",
      "This operation requires the issuer's AUTH_REVOCABLE flag to be set.",
    )
    ∷ ("op_sell_no_trust", "Selling asset requires a trustline that does not exist.")
    ∷ ("op_buy_no_trust", "Buying asset requires a trustline that does not exist.")
    ∷ ("op_sell_not_authorized", "Account is not authorized to sell this asset.")
    ∷ ("op_buy_not_authorized", "Account is not authorized to buy this asset.")
    ∷ ("op_offer_not_found", "The referenced offer does not exist.")
    ∷ ("op_not_found", "The referenced claimable balance does not exist.")
    ∷ ("op_cannot_claim", "This account is not permitted to claim this balance.")
    ∷ (
      "op_claimant_count_exceeds_limit", "Too many claimants specified for this claimable balance.",
    )
    ∷ []

-- TRANSACTION_MESSAGES of horizonError.ts.
unfoldable pub transaction_messages : List (String × String)
transaction_messages =
    ("tx_failed", "One or more operations in the transaction failed.")
    ∷ ("tx_too_early", "Transaction submitted before its valid start time.")
    ∷ (
      "tx_too_late", "Transaction submitted after its valid end time; please rebuild and resubmit.",
    )
    ∷ ("tx_missing_operation", "Transaction must contain at least one operation.")
    ∷ ("tx_bad_seq", "Transaction sequence number is stale; please retry.")
    ∷ ("tx_bad_auth", "Transaction is missing a valid signature for the source account.")
    ∷ (
      "tx_insufficient_balance",
      "Account balance is insufficient to cover the transaction and fees.",
    )
    ∷ ("tx_no_source_account", "The source account for this transaction does not exist.")
    ∷ ("tx_insufficient_fee", "Submitted fee is below the network minimum.")
    ∷ ("tx_bad_auth_extra", "Transaction has unused or extraneous signatures.")
    ∷ (
      "tx_internal_error",
      "The Stellar network encountered an internal error processing this transaction.",
    )
    ∷ ("tx_not_supported", "This transaction type is not supported by the network.")
    ∷ ("tx_fee_bump_inner_failed", "The inner transaction of this fee-bump transaction failed.")
    ∷ ("tx_bad_sponsorship", "Reserve sponsorship in this transaction is malformed.")
    ∷ (
      "tx_bad_min_seq_age_or_gap",
      "Transaction does not satisfy the minimum sequence age or ledger gap.",
    )
    ∷ ("tx_malformed", "Transaction envelope is malformed.")
    ∷ []
