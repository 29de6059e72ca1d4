-- ===== src/Operations/Issued.antt =====
-- backend/src/contracts/assets.ts: what an issue and a burn put on the ledger.
use coop_lumen_index.Base.{
  ℕ, ◌≡◌, sym, ap, ◌∙◌, ◌⊎◌, inl, inr, Bool, true, false, not, Option, some, [], ◌∷◌, if◌then◌else◌,
  arith, ◌==◌, Bool-cases, Option-cases, Sum-cases,
}
use coop_lumen_index.Stellar.Sequence.{Horizon}
use coop_lumen_index.Payments.Memos.{Memo}
use coop_lumen_index.Stellar.TimeBounds.{ResolvedTimeBounds}
use coop_lumen_index.Balances.{BalanceRedis}
use coop_lumen_index.Payments.MultiSig.{issued_by, is_asset_code}
use coop_lumen_index.Stellar.Batch.{is_positive_amount}
use coop_lumen_index.Operations.{
  payment, OperationFailure, SubmitNetwork, bad_asset_code, bad_public_key, bad_amount, pays_itself,
  Shared, IssueAssetParams, BurnAssetParams, burn_asset, issue_asset, issue_from, extras_at,
  parse_issue_asset_params,
}
use coop_lumen_index.Operations.Sent.{Ledger, IsSent, submit_operation-IsSent}

module _ (H : Horizon) (N : SubmitNetwork H) (L : Ledger H N) where
  open H use {World}

  module _ (R : BalanceRedis) where
    abbrev guarded : (a b c d : Bool) → ℕ → OperationFailure ⊎ ℕ
    guarded a b c d key =
        if not a
        then inl bad_asset_code
        else if not b
        then inl bad_public_key
        else if not c
        then inl bad_amount
        else if d
        then inl pays_itself
        else inr key

    guards :
        (a b c d : Bool) (key issuer : ℕ)
        → guarded a b c d key ≡ inr issuer
        → (a ≡ true) × (b ≡ true) × (c ≡ true) × (d ≡ false) × (key ≡ issuer)
    guards a b c d key issuer h =
        (ground arith, ground arith, ground arith, ground arith, ground arith)

    parsed_issuer :
        (params : IssueAssetParams) (issuer : ℕ)
        → parse_issue_asset_params H N R params ≡ inr issuer
        → (N.from_secret params.issuer_secret ≡ some issuer)
          × (is_asset_code params.asset_code ≡ true)
          × (N.is_public_key params.distributor_public_key ≡ true)
          × (is_positive_amount params.amount ≡ true)
          × (params.distributor_public_key == issuer ≡ false)
    unfolding parse_issue_asset_params
    parsed_issuer params issuer h = elim (Option-cases (N.from_secret params.issuer_secret)) [
      | inl e ↦ absurd (ground arith)
      | inr (key, e) ↦
          let (coded, to_key, positive, to_other, same) =
            guards (is_asset_code params.asset_code) (N.is_public_key params.distributor_public_key)
              (is_positive_amount params.amount) (params.distributor_public_key == key) key issuer
              (rw (e, parse_issue_asset_params) at h) in
          (
            e ∙ ap some same,
            coded,
            to_key,
            positive,
            ap (λ k. params.distributor_public_key == k) (sym same) ∙ to_other,
          )
    ]

    -- The issuer's key, the memo and the bounds of an issue.
    pub record IsIssued (params : IssueAssetParams) (s s' : Shared H N R) : Type 0 where
      pub issuer : ℕ
      pub of_secret : N.from_secret params.issuer_secret ≡ some issuer
      pub coded : is_asset_code params.asset_code ≡ true
      pub to_key : N.is_public_key params.distributor_public_key ≡ true
      pub positive : is_positive_amount params.amount ≡ true
      pub to_other : params.distributor_public_key == issuer ≡ false
      pub given : Option Memo × ResolvedTimeBounds
      pub resolved : extras_at H N params.memo params.time_bounds s.world ≡ inr given
      pub sent :
          IsSent H N L R 2 issuer
            (payment params.distributor_public_key
              (issued_by params.asset_code issuer)
              params.amount)
            (λ w. inr given)
            (some issuer ∷ some params.distributor_public_key ∷ [])
            s
            s'

    -- After an issue of a token that is answered with a hash, a payment is on the ledger of the
    -- positive amount, of the asset of the secret's key under a valid code, from that key to the
    -- distributor, a valid key that is another one, with the memo and the bounds resolved at the
    -- start. At most two transactions were added, though each submission is tried up to four
    -- times, and each is such a payment. The cached balances of both keys are gone if Redis's
    -- deletions succeed and it gives nothing that was not stored or whose time is over. Of
    -- Horizon it is assumed that it may add a transaction whatever it answers, but never twice,
    -- has it after a hash, and adds nothing when an account is loaded.
    pub issue_asset-IsIssued :
        (params : IssueAssetParams) (s s' : Shared H N R) (hash : ℕ)
        → issue_asset H N R params s ≡ (inr hash, s')
        → IsIssued params s s'
    unfolding issue_asset issue_from
    issue_asset-IsIssued params s s' hash h =
        elim (Sum-cases (parse_issue_asset_params H N R params)) [
          | inl (e, p) ↦ absurd (ground arith)
          | inr (issuer, p) ↦
              elim (Sum-cases (extras_at H N params.memo params.time_bounds s.world)) [
                | inl (e, x) ↦ absurd (ground arith)
                | inr (given, x) ↦
                    elim (Bool-cases (N.asset_fits (issued_by params.asset_code issuer))) [
                      | inr bad ↦ absurd (ground arith)
                      | inl fits ↦
                          let checked = parsed_issuer params issuer p in
                          record {
                            issuer = issuer;
                            of_secret = checked.0;
                            coded = checked.1;
                            to_key = checked.2;
                            positive = checked.3;
                            to_other = checked.4;
                            given = given;
                            resolved = x;
                            sent =
                                submit_operation-IsSent H N L R issuer _ (λ w. inr given) _ s s'
                                  hash (ground arith);
                          }
                    ]
              ]
        ]

    -- After a burn that is answered with a hash, a payment of the holder to the issuer is on the
    -- ledger, and at most two such transactions are there more.
    burn_asset-IsSent :
        (params : BurnAssetParams) (s s' : Shared H N R) (hash : ℕ)
        → burn_asset H N R params s ≡ (inr hash, s')
        → (holder : ℕ) × (N.from_secret params.holder_secret ≡ some holder)
          × IsSent H N L R 2 holder
              (payment params.asset_issuer
                (issued_by params.asset_code params.asset_issuer)
                params.amount)
              (extras_at H N params.memo params.time_bounds)
              (some holder ∷ some params.asset_issuer ∷ [])
              s
              s'
    unfolding burn_asset
    burn_asset-IsSent params s s' hash h =
        elim (Option-cases (N.from_secret params.holder_secret)) [
          | inl e ↦ absurd (ground arith)
          | inr (holder, e) ↦
              elim (Bool-cases (N.asset_fits (issued_by params.asset_code params.asset_issuer))) [
                | inr bad ↦ absurd (ground arith)
                | inl fits ↦ (
                  holder,
                  e,
                  submit_operation-IsSent H N L R holder _ _ _ s s' hash (ground arith),
                )
              ]
        ]
