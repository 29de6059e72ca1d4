-- ===== src/Payments/Submit.antt =====
-- backend/src/contracts/transactions.ts: `submitPayment`, `buildUnsignedPayment` and `submitSignedXdr`,
-- and the routes of backend/src/api/routes/transactions.ts that call them or look up a transaction.
pub mod Paid
mod Examples
use Prim.Native.String.{String}
use coop_lumen_index.Base.{ℕ, Bool, ◌⊎◌, inl, inr, Option, none, some, List, [], ◌∷◌, if◌then◌else◌}
use coop_lumen_index.Stellar.Errors.{Thrown, other_error}
use coop_lumen_index.Stellar.Errors.Mapped.{map_horizon_error}
use coop_lumen_index.Stellar.TimeBounds.{
  Input, Options, ResolvedTimeBounds, Refusal, resolve_time_bounds,
}
use coop_lumen_index.TokenRoutes.{ErrorAnswer, mapped_answer}
use coop_lumen_index.Balances.{BalanceRedis, invalidate_balance_cache}
use coop_lumen_index.Payments.Memos.{MemoInput, Memo, MemoError, build_memo}
use coop_lumen_index.Payments.MultiSig.{PaidAsset, xlm, issued_by, is_xlm}

-- What the builders are asked for; `payer` is a public key or, in `submitPayment`, a secret.
pub record PaymentParams : Type 0 where
  pub payer : ℕ
  pub destination_public_key : ℕ
  pub asset_code : List ℕ
  pub asset_issuer : ℕ
  pub amount : List ℕ
  pub memo : Option MemoInput
  pub time_bounds : Input

-- What the TransactionBuilder is given.
pub record Transaction : Type 0 where
  pub account : ℕ
  pub destination : ℕ
  pub asset : PaidAsset
  pub amount : List ℕ
  pub memo : Option Memo
  pub bounds : ResolvedTimeBounds

pub data PaymentFailure : Type 0 where
  bad_secret bad_operation : PaymentFailure
  bad_memo : MemoError → PaymentFailure
  bad_bounds : Refusal → PaymentFailure
  horizon_failed : Thrown → PaymentFailure

-- The Stellar SDK and Horizon: `from_secret` is none if it throws, `operation_fits` false if `new
-- Asset` or `Operation.payment` throws; `load_account` gives the account's key back; `submit` takes a
-- transaction with the key that signed it, and gives its hash; `decode` is `new Transaction`.
pub record PaymentNetwork : Type 1 where
  pub Envelope : Type 0
  pub from_secret : ℕ → Option ℕ
  pub load_account : ℕ → Thrown ⊎ ℕ
  pub operation_fits : ℕ → PaidAsset → List ℕ → Bool
  pub submit : Transaction → ℕ → Thrown ⊎ ℕ
  pub to_xdr : Transaction → ℕ
  pub decode : ℕ → Thrown ⊎ Envelope
  pub submit_envelope : Envelope → Thrown ⊎ ℕ
  pub lookup_hash : ℕ → Thrown ⊎ ℕ
  pub message : PaymentFailure → String

-- `assetCode === 'XLM' ? Asset.native() : new Asset(assetCode, assetIssuer)`
abbrev pub paid_asset : PaymentParams → PaidAsset
paid_asset params =
    if is_xlm params.asset_code then xlm else issued_by params.asset_code params.asset_issuer

module _ (N : PaymentNetwork) where
  open N use {
    Envelope, from_secret, load_account, operation_fits, submit, to_xdr, decode, submit_envelope,
    lookup_hash, message,
  }

  -- From the account that is loaded to the transaction that is built.
  unfoldable pub built_on : PaymentParams → Options → ℕ → PaymentFailure ⊎ Transaction
  built_on params options account =
      if operation_fits params.destination_public_key (paid_asset params) params.amount
      then elim (build_memo params.memo) [
        | inl e ↦ inl (bad_memo e)
        | inr memo ↦ elim (resolve_time_bounds params.time_bounds options) [
          | inl e ↦ inl (bad_bounds e)
          | inr bounds ↦ inr (record {
            account = account;
            destination = params.destination_public_key;
            asset = paid_asset params;
            amount = params.amount;
            memo = memo;
            bounds = bounds;
          })
        ]
      ]
      else inl bad_operation

  -- The transaction of a payment from the account with a key.
  unfoldable pub drafted : PaymentParams → Options → ℕ → PaymentFailure ⊎ Transaction
  unfolding built_on
  drafted params options key = elim (load_account key) [
    | inl e ↦ inl (horizon_failed e)
    | inr account ↦ built_on params options account
  ]

  unfoldable pub build_unsigned_payment : PaymentParams → Options → PaymentFailure ⊎ ℕ
  unfolding drafted
  build_unsigned_payment params options = elim (drafted params options params.payer) [
    | inl e ↦ inl e
    | inr tx ↦ inr (to_xdr tx)
  ]

  module _ (R : BalanceRedis) where
    -- What follows the answer of Horizon: the balances of both accounts are dropped.
    abbrev pub settled : ℕ → ℕ → ℕ → R.Contents → Thrown ⊎ ℕ → (PaymentFailure ⊎ ℕ) × R.Contents
    settled key destination now c (inl e) = (inl (horizon_failed e), c)
    settled key destination now c (inr hash) =
        (inr hash, invalidate_balance_cache R (some key ∷ some destination ∷ []) now c)

    -- With the key of the secret.
    unfoldable pub pay_from :
        PaymentParams → Options → ℕ → ℕ → R.Contents → (PaymentFailure ⊎ ℕ) × R.Contents
    unfolding drafted
    pay_from params options key now c = elim (drafted params options key) [
      | inl e ↦ (inl e, c)
      | inr tx ↦ settled key params.destination_public_key now c (submit tx key)
    ]

    unfoldable pub submit_payment :
        PaymentParams → Options → ℕ → R.Contents → (PaymentFailure ⊎ ℕ) × R.Contents
    unfolding pay_from
    submit_payment params options now c = elim (from_secret params.payer) [
      | none ↦ (inl bad_secret, c)
      | some key ↦ pay_from params options key now c
    ]

  unfoldable pub submit_signed_xdr : ℕ → Thrown ⊎ ℕ
  submit_signed_xdr xdr = elim (decode xdr) [
    | inl e ↦ inl e
    | inr envelope ↦ submit_envelope envelope
  ]

  -- An error as the routes see it.
  abbrev pub thrown_of : PaymentFailure → Thrown
  thrown_of (horizon_failed e) = e
  thrown_of failure = other_error (message failure)

  -- `catch (error) { … mapHorizonError(error) … }`
  abbrev pub or_mapped : {A : Type 0} → Thrown ⊎ A → ErrorAnswer ⊎ A
  or_mapped (inl e) = inl (mapped_answer (map_horizon_error e none))
  or_mapped (inr a) = inr a

  abbrev pub or_thrown : {A : Type 0} → PaymentFailure ⊎ A → Thrown ⊎ A
  or_thrown (inl e) = inl (thrown_of e)
  or_thrown (inr a) = inr a

  -- POST /transactions/unsigned, POST /transactions/submit and GET /transactions/:hash, with parameters
  -- that have passed their schemas.
  unfoldable pub unsigned_route : PaymentParams → Options → ErrorAnswer ⊎ ℕ
  unfolding build_unsigned_payment
  unsigned_route params options = or_mapped (or_thrown (build_unsigned_payment params options))

  unfoldable pub submit_route : ℕ → ErrorAnswer ⊎ ℕ
  unfolding submit_signed_xdr
  submit_route xdr = or_mapped (submit_signed_xdr xdr)

  unfoldable pub transaction_route : ℕ → ErrorAnswer ⊎ ℕ
  transaction_route hash = or_mapped (lookup_hash hash)
