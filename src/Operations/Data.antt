-- ===== src/Operations/Data.antt =====
-- backend/src/contracts/manageData.ts: `manageDatum`.
use coop_lumen_index.Base.{
  ℕ, ◌≤◌, ◌≡◌, ◌⊎◌, inl, inr, Bool, true, false, Option, none, some, List, [], ◌∷◌, ltb,
  if◌then◌else◌, arith, Option-cases,
}
use coop_lumen_index.Stellar.Sequence.{Horizon}
use coop_lumen_index.Stellar.TimeBounds.{Input}
use coop_lumen_index.Balances.{BalanceRedis}
use coop_lumen_index.Payments.Memos.{MemoInput, byte_length, trim}
use coop_lumen_index.Operations.{
  DataValue, text_value, buffer_value, manage_data, OperationFailure, bad_secret, empty_key,
  long_key, long_value, SubmitNetwork, Shared, extras_at, submit_operation,
}
use coop_lumen_index.Operations.Sent.{Ledger, IsSent, submit_operation-IsSent}

-- `value` is none if it is null or undefined.
pub record ManageDatumParams : Type 0 where
  pub account_secret : ℕ
  pub name : List ℕ
  pub value : Option DataValue
  pub memo : Option MemoInput
  pub time_bounds : Input

abbrev pub is_blank : List ℕ → Bool
is_blank [] = true
is_blank (c ∷ cs) = false

-- The bytes of a value.
abbrev pub value_bytes : Option DataValue → ℕ
value_bytes none = 0
value_bytes (some (text_value cs)) = byte_length cs
value_bytes (some (buffer_value buffer length)) = length

-- The checks before the secret is read.
unfoldable pub datum_error : ManageDatumParams → Option OperationFailure
datum_error params =
    if is_blank (trim params.name)
    then some empty_key
    else if ltb 64 (byte_length params.name)
    then some long_key
    else if ltb 64 (value_bytes params.value)
    then some long_value
    else none

module _ (H : Horizon) (N : SubmitNetwork H) (R : BalanceRedis) where
  -- No balance changes, so that none is dropped.
  unfoldable pub manage_datum :
      ManageDatumParams → Shared H N R → (OperationFailure ⊎ ℕ) × Shared H N R
  unfolding datum_error submit_operation
  manage_datum params s = elim (datum_error params) [
    | some e ↦ (inl e, s)
    | none ↦ elim (N.from_secret params.account_secret) [
      | none ↦ (inl bad_secret, s)
      | some account ↦
          submit_operation H N R account (manage_data params.name params.value)
            (extras_at H N params.memo params.time_bounds) [] s
    ]
  ]

  module _ (L : Ledger H N) where
    datum_fits :
        (params : ManageDatumParams)
        → datum_error params ≡ none
        → (is_blank (trim params.name) ≡ false)
          × (byte_length params.name ≤ 64)
          × (value_bytes params.value ≤ 64)
    unfolding datum_error
    datum_fits params h = (ground arith, ground arith, ground arith)

    -- A data entry that is answered with a hash has a name that is not blank and a value, both of at
    -- most 64 bytes, and its change or removal is on the ledger once, by the secret's key.
    pub manage_datum-IsSent :
        (params : ManageDatumParams) (s s' : Shared H N R) (hash : ℕ)
        → manage_datum params s ≡ (inr hash, s')
        → (is_blank (trim params.name) ≡ false)
          × (byte_length params.name ≤ 64)
          × (value_bytes params.value ≤ 64)
          × (account : ℕ) × (N.from_secret params.account_secret ≡ some account)
          × IsSent H N L R 2 account
              (manage_data params.name params.value)
              (extras_at H N params.memo params.time_bounds)
              []
              s
              s'
    unfolding manage_datum
    manage_datum-IsSent params s s' hash h = elim (Option-cases (datum_error params)) [
      | inr (e, failed) ↦ absurd (ground arith)
      | inl fine ↦ elim (Option-cases (N.from_secret params.account_secret)) [
        | inl e ↦ absurd (ground arith)
        | inr (account, e) ↦
            let (named, short, fits) = datum_fits params fine in
            (
              named,
              short,
              fits,
              account,
              e,
              submit_operation-IsSent H N L R account _ _ _ s s' hash (ground arith),
            )
      ]
    ]
