-- ===== src/Operations.antt =====
-- `issueAsset` and `burnAsset` of backend/src/contracts/assets.ts,
-- `establishTrustline` of trustlines.ts and `claim` of claimableBalance.ts: one operation each, in a
-- transaction that is numbered, signed and submitted, and whose accounts then lose their cached
-- balances. Failures are those that `withMappedHorizonError` and `withStellarErrors` are given, and an
-- answer of Horizon is its hash. Keys, secrets and hashes are numbers, texts lists of code points.
pub mod Sent
pub mod Issued
pub mod Direct
pub mod Data
mod Examples
use coop_lumen_index.Base.{
  ℕ, zero, suc, ◌+◌, ◌-◌, ◌/◌, Bool, false, not, ◌==◌, ◌⊎◌, inl, inr, Option, none, some, List, [],
  ◌∷◌, ℤ, pos, ◌+ℤ◌, if◌then◌else◌,
}
use coop_lumen_index.Stellar.Sequence.{Horizon, SubmitError, CacheEntry, with_sequence_retry}
use coop_lumen_index.Stellar.TimeBounds.{
  Input, Options, ResolvedTimeBounds, Refusal, resolve_time_bounds,
}
use coop_lumen_index.Stellar.Retry.{is_retryable, max_attempts}
use coop_lumen_index.Stellar.Batch.{is_positive_amount}
use coop_lumen_index.Balances.{BalanceRedis, invalidate_balance_cache}
use coop_lumen_index.Payments.Memos.{MemoInput, Memo, MemoError, build_memo}
use coop_lumen_index.Payments.MultiSig.{PaidAsset, issued_by, is_asset_code, default_timeout}

pub record TrustlineFlags : Type 0 where
  pub authorized : Option Bool
  pub authorized_to_maintain_liabilities : Option Bool
  pub clawback_enabled : Option Bool

-- A value of a data entry: a text, or a buffer of this many bytes under a number.
pub data DataValue : Type 0 where
  text_value : List ℕ → DataValue
  buffer_value : (buffer length : ℕ) → DataValue

pub data Operation : Type 0 where
  payment : (destination : ℕ) (asset : PaidAsset) (amount : List ℕ) → Operation
  change_trust : (asset : PaidAsset) (limit : Option (List ℕ)) → Operation
  claim_claimable_balance : (balance_id : ℕ) → Operation
  set_trust_line_flags : (trustor : ℕ) (asset : PaidAsset) (flags : TrustlineFlags) → Operation
  manage_data : (name : List ℕ) (value : Option DataValue) → Operation

-- What is submitted: `source` signs it, too.
pub record NumberedTransaction : Type 0 where
  pub source : ℕ
  pub sequence : ℕ
  pub operation : Operation
  pub memo : Option Memo
  pub bounds : ResolvedTimeBounds

pub data OperationFailure : Type 0 where
  bad_secret bad_asset_code bad_public_key bad_amount pays_itself : OperationFailure
  bad_asset bad_operation long_memo own_trustline no_flags empty_key long_key long_value :
      OperationFailure
  bad_memo : MemoError → OperationFailure
  bad_bounds : Refusal → OperationFailure
  submit_failed : SubmitError → OperationFailure

-- The Stellar SDK and Horizon: `from_secret` is none if it throws, `asset_fits` false if `new Asset`
-- throws, `operation_fits` if the operation does; `post` is one call of Horizon's `submitTransaction`,
-- which gives the hash, and `status_of` the status of an error's response, if it has one.
pub record SubmitNetwork (H : Horizon) : Type 0 where
  pub from_secret : ℕ → Option ℕ
  pub is_public_key : ℕ → Bool
  pub asset_fits : PaidAsset → Bool
  pub operation_fits : Operation → Bool
  pub post : NumberedTransaction → H.World → (SubmitError ⊎ ℕ) × H.World
  pub status_of : SubmitError → Option ℕ

pub record IssueAssetParams : Type 0 where
  pub issuer_secret : ℕ
  pub asset_code : List ℕ
  pub distributor_public_key : ℕ
  pub amount : List ℕ
  pub memo : Option MemoInput
  pub time_bounds : Input

pub record BurnAssetParams : Type 0 where
  pub holder_secret : ℕ
  pub asset_code : List ℕ
  pub asset_issuer : ℕ
  pub amount : List ℕ
  pub memo : Option MemoInput
  pub time_bounds : Input

pub record TrustlineParams : Type 0 where
  pub account_secret : ℕ
  pub asset_code : List ℕ
  pub asset_issuer : ℕ
  pub limit : Option (List ℕ)
  pub memo : Option MemoInput
  pub time_bounds : Input

pub record ClaimParams : Type 0 where
  pub balance_id : ℕ
  pub claimant : ℕ
  pub memo : Option MemoInput
  pub time_bounds : Input

-- The memo and the bounds that a transaction gets, or why it is not built.
abbrev pub Extras : Type 0
Extras = OperationFailure ⊎ (Option Memo × ResolvedTimeBounds)

module _ (H : Horizon) (N : SubmitNetwork H) where
  open H use {World, now}
  open N use {from_secret, is_public_key, asset_fits, operation_fits, post, status_of}

  abbrev pub options_at : World → Options
  options_at w = record {
    default_timeout_seconds = default_timeout;
    now_seconds = pos (now w / 1000);
  }

  -- `buildMemo(memo)` and then `resolveTimeBounds(timeBounds)`
  unfoldable pub extras_at : Option MemoInput → Input → World → Extras
  extras_at memo time_bounds w = elim (build_memo memo) [
    | inl e ↦ inl (bad_memo e)
    | inr built ↦ elim (resolve_time_bounds time_bounds (options_at w)) [
      | inl e ↦ inl (bad_bounds e)
      | inr bounds ↦ inr (built, bounds)
    ]
  ]

  -- `StellarService.submitTransaction`, of the attempts of `withRetry` that are left after the next;
  -- the sleeps between them are part of the world that Horizon answers in.
  unfoldable pub submit_attempts : ℕ → NumberedTransaction → World → (SubmitError ⊎ ℕ) × World
  submit_attempts zero tx w = post tx w
  submit_attempts (suc left) tx w =
      let later = submit_attempts left tx (post tx w).1 in
      elim (post tx w).0 [
        | inr hash ↦ post tx w
        | inl e ↦ if is_retryable (status_of e) then later else post tx w
      ]

  unfoldable pub submit_transaction : NumberedTransaction → World → (SubmitError ⊎ ℕ) × World
  unfolding submit_attempts
  submit_transaction = submit_attempts (max_attempts - 1)

  -- An answer of Horizon, as the sequence cache sees it: what the builders throw is passed on, and
  -- never a bad sequence number.
  abbrev pub passed_on :
      (SubmitError ⊎ ℕ) × World → ℕ → (SubmitError ⊎ (OperationFailure ⊎ ℕ)) × ℕ × World
  passed_on (inl e, w) number = (inl e, number, w)
  passed_on (inr hash, w) number = (inr (inr hash), number, w)

  -- The function that `withSequenceRetry` is given: `build` takes the next number.
  unfoldable pub build_and_submit :
      ℕ
      → Operation
      → (World → Extras)
      → ℕ
      → World
      → (SubmitError ⊎ (OperationFailure ⊎ ℕ)) × ℕ × World
  unfolding submit_transaction
  build_and_submit source operation extras number w =
      if not (operation_fits operation)
      then (inr (inl bad_operation), number, w)
      else elim (extras w) [
        | inl e ↦ (inr (inl e), number, w)
        | inr (memo, bounds) ↦
            passed_on
              (submit_transaction
                (record {
                  source = source;
                  sequence = number + 1;
                  operation = operation;
                  memo = memo;
                  bounds = bounds;
                })
                w)
              (number + 1)
      ]

  module _ (R : BalanceRedis) where
    -- The sequence cache, the world, and the cached balances.
    pub record Shared : Type 1 where
      pub sequences : List CacheEntry
      pub world : World
      pub cached : R.Contents

    -- What follows the submission: on success, the keys lose their cached balances.
    abbrev pub settled_for :
        List (Option ℕ)
        → (SubmitError ⊎ (OperationFailure ⊎ ℕ)) × List CacheEntry × World
        → R.Contents
        → (OperationFailure ⊎ ℕ) × Shared
    settled_for keys (inl e, s, w) c =
        (inl (submit_failed e), record { sequences = s; world = w; cached = c })
    settled_for keys (inr (inl e), s, w) c =
        (inl e, record { sequences = s; world = w; cached = c })
    settled_for keys (inr (inr hash), s, w) c = (
      inr hash,
      record { sequences = s; world = w; cached = invalidate_balance_cache R keys (now w) c },
    )

    unfoldable pub submit_operation :
        ℕ
        → Operation
        → (World → Extras)
        → List (Option ℕ)
        → Shared
        → (OperationFailure ⊎ ℕ) × Shared
    unfolding build_and_submit
    submit_operation source operation extras keys s =
        settled_for keys
          (with_sequence_retry H (OperationFailure ⊎ ℕ) source
            (build_and_submit source operation extras) s.sequences s.world)
          s.cached

    -- `parseIssueAssetParams`
    unfoldable pub parse_issue_asset_params : IssueAssetParams → OperationFailure ⊎ ℕ
    parse_issue_asset_params params = elim (from_secret params.issuer_secret) [
      | none ↦ inl bad_secret
      | some issuer ↦
          if not (is_asset_code params.asset_code)
          then inl bad_asset_code
          else if not (is_public_key params.distributor_public_key)
          then inl bad_public_key
          else if not (is_positive_amount params.amount)
          then inl bad_amount
          else if params.distributor_public_key == issuer
          then inl pays_itself
          else inr issuer
    ]

    -- With the issuer's key: the memo and the bounds are resolved once, before anything is loaded.
    unfoldable pub issue_from : IssueAssetParams → ℕ → Shared → (OperationFailure ⊎ ℕ) × Shared
    unfolding submit_operation extras_at
    issue_from params issuer s = elim (extras_at params.memo params.time_bounds s.world) [
      | inl e ↦ (inl e, s)
      | inr extras ↦
          let asset = issued_by params.asset_code issuer in
          let to = params.distributor_public_key in
          if not (asset_fits asset)
          then (inl bad_asset, s)
          else submit_operation issuer (payment to asset params.amount) (λ w. inr extras)
              (some issuer ∷ some to ∷ []) s
    ]

    unfoldable pub issue_asset : IssueAssetParams → Shared → (OperationFailure ⊎ ℕ) × Shared
    unfolding parse_issue_asset_params issue_from
    issue_asset params s = elim (parse_issue_asset_params params) [
      | inl e ↦ (inl e, s)
      | inr issuer ↦ issue_from params issuer s
    ]

    unfoldable pub burn_asset : BurnAssetParams → Shared → (OperationFailure ⊎ ℕ) × Shared
    unfolding submit_operation extras_at
    burn_asset params s = elim (from_secret params.holder_secret) [
      | none ↦ (inl bad_secret, s)
      | some holder ↦
          let asset = issued_by params.asset_code params.asset_issuer in
          if not (asset_fits asset)
          then (inl bad_asset, s)
          else submit_operation holder (payment params.asset_issuer asset params.amount)
              (extras_at params.memo params.time_bounds)
              (some holder ∷ some params.asset_issuer ∷ []) s
    ]

    unfoldable pub establish_trustline : TrustlineParams → Shared → (OperationFailure ⊎ ℕ) × Shared
    unfolding submit_operation extras_at
    establish_trustline params s = elim (from_secret params.account_secret) [
      | none ↦ (inl bad_secret, s)
      | some account ↦
          let asset = issued_by params.asset_code params.asset_issuer in
          if not (asset_fits asset)
          then (inl bad_asset, s)
          else submit_operation account (change_trust asset params.limit)
              (extras_at params.memo params.time_bounds) (some account ∷ []) s
    ]

    -- `claim`, of a keypair by its public key.
    unfoldable pub claim : ClaimParams → Shared → (OperationFailure ⊎ ℕ) × Shared
    unfolding submit_operation extras_at
    claim params s =
        submit_operation params.claimant (claim_claimable_balance params.balance_id)
          (extras_at params.memo params.time_bounds) (some params.claimant ∷ []) s
