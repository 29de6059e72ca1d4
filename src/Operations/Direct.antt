-- ===== src/Operations/Direct.antt =====
-- `distributeAsset` of backend/src/contracts/assets.ts and `setTrustlineFlags` of trustlines.ts with its
-- callers: operations on an account that is loaded each time, past the sequence cache; and
-- `buildUnsignedIssueAsset` and `buildUnsignedTrustline`, which are not submitted.
pub mod Flagged
use coop_lumen_index.Base.{
  ℕ, ◌+◌, ◌/◌, Bool, true, false, not, ◌==◌, ◌⊎◌, inl, inr, Option, none, some, List, [], ◌∷◌,
  filter, pos, if◌then◌else◌,
}
use coop_lumen_index.Stellar.Sequence.{Horizon, SubmitError, CacheEntry}
use coop_lumen_index.Stellar.TimeBounds.{ResolvedTimeBounds}
use coop_lumen_index.Balances.{BalanceRedis}
use coop_lumen_index.Payments.Memos.{MemoInput, Memo, text, build_memo}
use coop_lumen_index.Payments.MultiSig.{PaidAsset, issued_by}
use coop_lumen_index.Operations.{
  Operation, payment, change_trust, set_trust_line_flags, TrustlineFlags, NumberedTransaction,
  OperationFailure, bad_secret, bad_public_key, bad_asset, bad_operation, bad_memo, long_memo,
  own_trustline, no_flags, submit_failed, SubmitNetwork, Extras, build_and_submit, Shared,
  settled_for,
}

pub record DistributeAssetParams : Type 0 where
  pub issuer_secret : ℕ
  pub asset_code : List ℕ
  pub asset_issuer : ℕ
  pub distributor_public_key : ℕ
  pub amount : List ℕ
  pub memo : Option (List ℕ)

pub record SetTrustlineFlagsParams : Type 0 where
  pub issuer_secret : ℕ
  pub trustor_public_key : ℕ
  pub asset_code : List ℕ
  pub flags : TrustlineFlags

pub data FlagName : Type 0 where
  is_authorized maintains_liabilities has_clawback : FlagName

-- FLAG_NAMES
abbrev pub flag_names : List FlagName
flag_names = is_authorized ∷ maintains_liabilities ∷ has_clawback ∷ []

-- `flags[name]`
abbrev pub flag_of : TrustlineFlags → FlagName → Option Bool
flag_of flags is_authorized = flags.authorized
flag_of flags maintains_liabilities = flags.authorized_to_maintain_liabilities
flag_of flags has_clawback = flags.clawback_enabled

abbrev pub is_requested : Option Bool → Bool
is_requested none = false
is_requested (some value) = true

abbrev pub requested_flags : TrustlineFlags → List FlagName
requested_flags flags = filter (λ name. is_requested (flag_of flags name)) flag_names

abbrev pub requests_none : List FlagName → Bool
requests_none [] = true
requests_none (name ∷ names) = false

module _ (H : Horizon) (N : SubmitNetwork H) where
  open H use {World, load, now}
  open N use {from_secret, is_public_key, asset_fits, operation_fits}

  -- `setTimeout(30)`, where 30 is TRUSTLINE_TIMEOUT_SECONDS, too.
  abbrev pub timeout_bounds : World → ResolvedTimeBounds
  timeout_bounds w = record { min_time = pos 0; max_time = pos (now w / 1000 + 30) }

  abbrev pub no_extras : World → Extras
  no_extras w = inr (none, timeout_bounds w)

  -- `Memo.text(memo)` if there is a memo, and why it throws; `fits` is false if it does.
  abbrev pub text_memo : Option (List ℕ) → Option Memo
  text_memo none = none
  text_memo (some []) = none
  text_memo (some (c ∷ cs)) = some (text (c ∷ cs))

  abbrev pub text_error : (List ℕ → Bool) → Option (List ℕ) → Option OperationFailure
  text_error fits (some (c ∷ cs)) = if fits (c ∷ cs) then none else some long_memo
  text_error fits _ = none

  abbrev pub asset_error : PaidAsset → Option OperationFailure
  asset_error asset = if asset_fits asset then none else some bad_asset

  -- From the account that is loaded to the answer of Horizon, past the sequence cache; `error` is what
  -- is thrown before the operation is built.
  unfoldable pub load_and_submit :
      ℕ
      → Option OperationFailure
      → Operation
      → (World → Extras)
      → List CacheEntry
      → World
      → (SubmitError ⊎ (OperationFailure ⊎ ℕ)) × List CacheEntry × World
  unfolding build_and_submit
  load_and_submit source error operation extras cache w = elim (load source w).0 [
    | inl e ↦ (inl e, cache, (load source w).1)
    | inr number ↦
        let w' = (load source w).1 in
        let r = build_and_submit H N source operation extras number w' in
        elim error [ some e ↦ (inr (inl e), cache, w') | none ↦ (r.0, cache, r.2) ]
  ]

  -- A transaction of the source that is left to be signed.
  unfoldable pub unsigned :
      ℕ → PaidAsset → Operation → (World → Extras) → World → OperationFailure ⊎ NumberedTransaction
  unsigned source asset operation extras w = elim (load source w).0 [
    | inl e ↦ inl (submit_failed e)
    | inr number ↦
        if not (asset_fits asset)
        then inl bad_asset
        else if not (operation_fits operation)
        then inl bad_operation
        else elim (extras (load source w).1) [
          | inl e ↦ inl e
          | inr (memo, bounds) ↦ inr (record {
            source = source;
            sequence = number + 1;
            operation = operation;
            memo = memo;
            bounds = bounds;
          })
        ]
  ]

  abbrev pub memo_extras : Option MemoInput → World → Extras
  memo_extras memo w = elim (build_memo memo) [
    | inl e ↦ inl (bad_memo e)
    | inr built ↦ inr (built, timeout_bounds w)
  ]

  unfoldable pub build_unsigned_issue_asset :
      (issuer : ℕ) (asset_code : List ℕ) (distributor : ℕ) (amount : List ℕ)
      → Option MemoInput
      → World
      → OperationFailure ⊎ NumberedTransaction
  unfolding unsigned
  build_unsigned_issue_asset issuer asset_code distributor amount memo w =
      let asset = issued_by asset_code issuer in
      unsigned issuer asset (payment distributor asset amount) (memo_extras memo) w

  unfoldable pub build_unsigned_trustline :
      (account : ℕ) (asset_code : List ℕ) (asset_issuer : ℕ)
      → Option (List ℕ)
      → World
      → OperationFailure ⊎ NumberedTransaction
  unfolding unsigned
  build_unsigned_trustline account asset_code asset_issuer limit w =
      let asset = issued_by asset_code asset_issuer in
      unsigned account asset (change_trust asset limit) no_extras w

  module _ (R : BalanceRedis) where
    unfoldable pub distribute_asset :
        (List ℕ → Bool)
        → DistributeAssetParams
        → Shared H N R
        → (OperationFailure ⊎ ℕ) × Shared H N R
    unfolding load_and_submit
    distribute_asset fits params s = elim (from_secret params.issuer_secret) [
      | none ↦ (inl bad_secret, s)
      | some issuer ↦
          let asset = issued_by params.asset_code params.asset_issuer in
          let to = params.distributor_public_key in
          let error : Option OperationFailure = elim (asset_error asset) [
            | some e ↦ some e
            | none ↦ text_error fits params.memo
          ] in
          settled_for H N R (some issuer ∷ some to ∷ [])
            (load_and_submit issuer error (payment to asset params.amount)
              (λ w. inr (text_memo params.memo, timeout_bounds w)) s.sequences s.world)
            s.cached
    ]

    -- The checks of `setTrustlineFlags`, up to the issuer's key.
    unfoldable pub flags_check : SetTrustlineFlagsParams → OperationFailure ⊎ ℕ
    flags_check params = elim (from_secret params.issuer_secret) [
      | none ↦ inl bad_secret
      | some issuer ↦
          if not (is_public_key params.trustor_public_key)
          then inl bad_public_key
          else if params.trustor_public_key == issuer
          then inl own_trustline
          else if requests_none (requested_flags params.flags)
          then inl no_flags
          else if not (asset_fits (issued_by params.asset_code issuer))
          then inl bad_asset
          else inr issuer
    ]

    unfoldable pub set_trustline_flags :
        SetTrustlineFlagsParams → Shared H N R → (OperationFailure ⊎ ℕ) × Shared H N R
    unfolding flags_check load_and_submit
    set_trustline_flags params s = elim (flags_check params) [
      | inl e ↦ (inl e, s)
      | inr issuer ↦
          let asset = issued_by params.asset_code issuer in
          settled_for H N R (some params.trustor_public_key ∷ [])
            (load_and_submit issuer none
              (set_trust_line_flags params.trustor_public_key asset params.flags) no_extras
              s.sequences s.world)
            s.cached
    ]

    abbrev pub authorize_trustline :
        ℕ → ℕ → List ℕ → Shared H N R → (OperationFailure ⊎ ℕ) × Shared H N R
    authorize_trustline issuer_secret trustor code s =
        set_trustline_flags
          (record {
            issuer_secret = issuer_secret;
            trustor_public_key = trustor;
            asset_code = code;
            flags = record {
              authorized = some true;
              authorized_to_maintain_liabilities = none;
              clawback_enabled = none;
            };
          })
          s

    abbrev pub revoke_trustline_authorization :
        ℕ → ℕ → List ℕ → Bool → Shared H N R → (OperationFailure ⊎ ℕ) × Shared H N R
    revoke_trustline_authorization issuer_secret trustor code keep_liabilities s =
        set_trustline_flags
          (record {
            issuer_secret = issuer_secret;
            trustor_public_key = trustor;
            asset_code = code;
            flags = record {
              authorized = some false;
              authorized_to_maintain_liabilities = some keep_liabilities;
              clawback_enabled = none;
            };
          })
          s
