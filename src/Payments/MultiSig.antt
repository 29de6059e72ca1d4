-- ===== src/Payments/MultiSig.antt =====
-- backend/src/contracts/transactions.ts: `buildMultiSigPayment`, with the checks of validation.ts.
-- Texts that the code looks into are lists of character codes; keys are numbers, and the signers'
-- keys are ordered by `localeCompare`.
pub mod Reached
use coop_lumen_index.Base.{
  ℕ, ◌+◌, ◌≤◌, ◌<◌, ◌≡◌, refl, ◌⊎◌, inl, inr, Bool, true, false, not, ◌&&◌, ◌||◌, Option, none,
  some, List, [], ◌∷◌, length, all, arith, if◌then◌else◌, ◌==◌, ltb, leb, ℤ, pos, ltb_ℤ, sym, ap,
  ◌∙◌, Option-cases, Sum-cases, Bool-cases,
}
use coop_lumen_index.Stellar.Batch.{is_positive_amount}
use coop_lumen_index.Stellar.Errors.{StellarError, Thrown}
use coop_lumen_index.Payments.Memos.{MemoInput, Memo, MemoError, build_memo}
use coop_lumen_index.Payments.Signers.{Signer, weight_sum, eligible_signers, gather}
use coop_lumen_index.Payments.Signers.Sorting.{Chosen}
use coop_lumen_index.Payments.Signers.Fewest.{IsFewest, gather-IsFewest, unreachable}

-- `timeoutSeconds`: a whole number, or one that is not.
pub data Seconds : Type 0 where
  whole : ℤ → Seconds
  not_whole : Seconds

pub record MultiSigPaymentParams : Type 0 where
  pub source_public_key : ℕ
  pub destination_public_key : ℕ
  pub asset_code : List ℕ
  pub asset_issuer : Option ℕ
  pub amount : List ℕ
  pub memo : Option MemoInput
  pub timeout_seconds : Option Seconds

-- What the code reads of an account.
pub record SourceAccount : Type 0 where
  pub med_threshold : ℕ
  pub signers : List Signer

pub data PaidAsset : Type 0 where
  xlm : PaidAsset
  issued_by : List ℕ → ℕ → PaidAsset

-- What is handed to the TransactionBuilder.
pub record Draft : Type 0 where
  pub source : ℕ
  pub destination : ℕ
  pub asset : PaidAsset
  pub amount : List ℕ
  pub memo : Option Memo
  pub timeout : ℤ

pub record MultiSigPayment : Type 0 where
  pub draft : Draft
  pub required_weight : ℕ
  pub signers : List Signer
  pub available_weight : ℕ
  pub minimum_signatures : ℕ

pub data PaymentError : Type 0 where
  bad_source bad_destination bad_asset_code bad_amount no_issuer bad_issuer : PaymentError
  bad_timeout : PaymentError
  bad_memo : MemoError → PaymentError
  account_refused : StellarError → PaymentError
  below_threshold : (available required : ℕ) → PaymentError

abbrev pub is_alphanumeric : ℕ → Bool
is_alphanumeric c = leb b'A' c && leb c b'Z' || leb b'a' c && leb c b'z' || leb b'0' c && leb c b'9'

-- ASSET_CODE_PATTERN
unfoldable pub is_asset_code : List ℕ → Bool
is_asset_code cs = leb 1 (length cs) && leb (length cs) 12 && all is_alphanumeric cs

-- `assetCode === 'XLM'`
abbrev pub is_xlm : List ℕ → Bool
is_xlm (x ∷ l ∷ m ∷ []) = x == b'X' && l == b'L' && m == b'M'
is_xlm cs = false

-- DEFAULT_TIMEOUT_SECONDS
abbrev pub default_timeout : ℤ
default_timeout = pos 30

-- `Number.isInteger(timeoutSeconds) && timeoutSeconds > 0`
abbrev pub checked_timeout : Option Seconds → PaymentError ⊎ ℤ
checked_timeout none = inr default_timeout
checked_timeout (some not_whole) = inl bad_timeout
checked_timeout (some (whole n)) = if ltb_ℤ (pos 0) n then inr n else inl bad_timeout

-- The SDK's StrKey.isValidEd25519PublicKey, `localeCompare` of two keys at most 0, and loadAccount
-- as `withMappedHorizonError` answers it.
pub record Ledger : Type 0 where
  pub is_public_key : ℕ → Bool
  pub locale_leb : ℕ → ℕ → Bool
  pub load_account : ℕ → StellarError ⊎ SourceAccount

module _ (L : Ledger) where
  open L use {is_public_key, locale_leb, load_account}

  unfoldable pub checked_asset : List ℕ → Option ℕ → PaymentError ⊎ PaidAsset
  checked_asset code issuer = if is_xlm code then inr xlm else elim issuer [
    | none ↦ inl no_issuer
    | some key ↦ if is_public_key key then inr (issued_by code key) else inl bad_issuer
  ]

  -- The checks before the account is loaded, and what is built if they pass.
  unfoldable pub checked_draft : MultiSigPaymentParams → PaymentError ⊎ Draft
  unfolding checked_asset is_asset_code
  checked_draft params =
      if not (is_public_key params.source_public_key)
      then inl bad_source
      else if not (is_public_key params.destination_public_key)
      then inl bad_destination
      else if not (is_asset_code params.asset_code)
      then inl bad_asset_code
      else if not (is_positive_amount params.amount)
      then inl bad_amount
      else elim (build_memo params.memo) [
        | inl e ↦ inl (bad_memo e)
        | inr memo ↦ elim (checked_asset params.asset_code params.asset_issuer) [
          | inl e ↦ inl e
          | inr asset ↦ elim (checked_timeout params.timeout_seconds) [
            | inl e ↦ inl e
            | inr timeout ↦ inr (record {
              source = params.source_public_key;
              destination = params.destination_public_key;
              asset = asset;
              amount = params.amount;
              memo = memo;
              timeout = timeout;
            })
          ]
        ]
      ]

  -- What follows once the account is loaded.
  unfoldable pub governed : Draft → SourceAccount → PaymentError ⊎ MultiSigPayment
  governed draft account =
      let required = account.med_threshold in
      let signers = eligible_signers locale_leb account.signers in
      let available = weight_sum signers in
      if ltb available required
      then inl (below_threshold available required)
      else inr (record {
        draft = draft;
        required_weight = required;
        signers = signers;
        available_weight = available;
        minimum_signatures = gather required signers 0 0;
      })

  unfoldable pub build_multi_sig_payment : MultiSigPaymentParams → PaymentError ⊎ MultiSigPayment
  unfolding checked_draft governed
  build_multi_sig_payment params = elim (checked_draft params) [
    | inl e ↦ inl e
    | inr draft ↦ elim (load_account draft.source) [
      | inl e ↦ inl (account_refused e)
      | inr account ↦ governed draft account
    ]
  ]
