-- ===== src/Operations/Examples.antt =====
-- Runs of `issueAsset`, where a submission is accepted and answered with 503, and of
-- `setTrustlineFlags`.
use coop_lumen_index.Base.{
  ℕ, ◌+◌, ◌≡◌, refl, ◌⊎◌, inl, inr, Bool, true, not, ◌&&◌, any, map, Option, none, some, List, [],
  ◌∷◌, arith, if◌then◌else◌, ◌==◌, Bool-cases, ◌+ℤ◌,
}
use coop_lumen_index.Stellar.Sequence.{
  Horizon, SubmitError, tx_bad_seq, is_bad_sequence_error, with_sequence_retry, with_account,
  load_and_run, retry_after,
}
use coop_lumen_index.Stellar.TimeBounds.{resolve_time_bounds}
use coop_lumen_index.Stellar.Batch.{is_positive_amount}
use coop_lumen_index.Balances.{invalidate_balance_cache}
use coop_lumen_index.Balances.Examples.{small_redis}
use coop_lumen_index.Payments.Memos.{build_memo}
use coop_lumen_index.Payments.MultiSig.{is_asset_code}
use coop_lumen_index.Operations.{
  NumberedTransaction, SubmitNetwork, IssueAssetParams, Shared, issue_asset,
}
use coop_lumen_index.Operations.Direct.{SetTrustlineFlagsParams, set_trustline_flags}
use coop_lumen_index.Operations.Direct.Flagged.{IsFlagged, set_trustline_flags-IsFlagged}
use coop_lumen_index.Operations.Sent.{IsOn, on_top, below, Ledger}
use coop_lumen_index.Operations.Issued.{IsIssued, issue_asset-IsIssued}

-- The number of the one account, and what was accepted.
record SmallLedger : Type 0 where
  number : ℕ
  transactions : List NumberedTransaction

abbrev small_horizon : Horizon
small_horizon = record {
  World = SmallLedger;
  load = λ key w. (inr w.number, w);
  now = λ w. 1000000;
}

abbrev is_used : ℕ → List NumberedTransaction → Bool
is_used sequence = any λ tx. tx.sequence == sequence

abbrev bad_sequence : SubmitError
bad_sequence = record { transaction = some tx_bad_seq }

abbrev too_busy : SubmitError
too_busy = record { transaction = none }

-- A transaction with the next number is accepted; the one with the number 9 is answered with 503 all the
-- same.
abbrev small_post : NumberedTransaction → SmallLedger → (SubmitError ⊎ ℕ) × SmallLedger
small_post tx w =
    if not (is_used tx.sequence w.transactions) && tx.sequence == w.number + 1
    then (
      if tx.sequence == 9 then inl too_busy else inr tx.sequence,
      record { number = tx.sequence; transactions = tx ∷ w.transactions },
    )
    else (inl bad_sequence, w)

abbrev small_status : SubmitError → Option ℕ
small_status error = elim error.transaction [ some _ ↦ some 400 | none ↦ some 503 ]

abbrev small_network : SubmitNetwork small_horizon
small_network = record {
  from_secret = λ secret. some (secret + 1);
  is_public_key = λ key. true;
  asset_fits = λ asset. true;
  operation_fits = λ operation. true;
  post = small_post;
  status_of = small_status;
}

IsOn-used :
    (tx : NumberedTransaction) (ledger : List NumberedTransaction)
    → IsOn tx ledger
    → is_used tx.sequence ledger ≡ true
IsOn-used tx _ on_top = ground arith
IsOn-used tx _ (below rest) = let used = IsOn-used tx _ rest in ground arith

abbrev small_accepts : NumberedTransaction → SmallLedger → Bool
small_accepts tx w = not (is_used tx.sequence w.transactions) && tx.sequence == w.number + 1

small_ledger : Ledger small_horizon small_network
small_ledger = record {
  accepted = λ w. w.transactions;
  load_keeps = λ key w. refl;
  may_add = λ tx w. elim (Bool-cases (small_accepts tx w)) [
    | inl t ↦ inr (rw t refl)
    | inr f ↦ inl (rw f refl)
  ];
  never_twice = λ tx w on. let used = IsOn-used tx w.transactions on in rw used refl;
  answered = λ tx w hash h. elim (Bool-cases (small_accepts tx w)) [
    | inl t ↦ rw t on_top
    | inr f ↦ absurd (ground arith)
  ];
}

abbrev first_issue : IssueAssetParams
first_issue = record {
  issuer_secret = 6;
  asset_code = b'E' ∷ b'C' ∷ b'O' ∷ [];
  distributor_public_key = 3;
  amount = b'5' ∷ [];
  memo = none;
  time_bounds = record { min_time = none; max_time = none };
}

-- The cache and the ledger have 8 as the number of the issuer.
abbrev before_issue : Shared small_horizon small_network small_redis
before_issue = record {
  sequences = record { public_key = 7; account = 8; cached_at = 999990 } ∷ [];
  world = record { number = 8; transactions = [] };
  cached = some (record { key = 3; raw = 42; until = 2000000 });
}

abbrev after_issue : Shared small_horizon small_network small_redis
after_issue = (issue_asset small_horizon small_network small_redis first_issue before_issue).1

first_issued :
    issue_asset small_horizon small_network small_redis first_issue before_issue
    ≡ (inr 10, after_issue)
unfolding issue_asset invalidate_balance_cache build_memo resolve_time_bounds ◌+ℤ◌
    with_sequence_retry with_account load_and_run retry_after is_positive_amount
    is_bad_sequence_error is_asset_code
first_issued = refl

-- The tokens have been issued twice: under 9, where the answer was 503 and then that the number is
-- used, and under 10.
issued_twice : map (λ tx. tx.sequence) after_issue.world.transactions ≡ 10 ∷ 9 ∷ []
unfolding issue_asset build_memo resolve_time_bounds ◌+ℤ◌ with_sequence_retry with_account
    load_and_run retry_after is_positive_amount is_bad_sequence_error is_asset_code
issued_twice = refl

issue_asset-IsIssued_example :
    IsIssued small_horizon small_network small_ledger small_redis first_issue before_issue
      after_issue
issue_asset-IsIssued_example =
    issue_asset-IsIssued small_horizon small_network small_ledger small_redis first_issue
      before_issue after_issue 10 first_issued

-- The account 3 is authorized.
abbrev first_flags : SetTrustlineFlagsParams
first_flags = record {
  issuer_secret = 6;
  trustor_public_key = 3;
  asset_code = b'E' ∷ b'C' ∷ b'O' ∷ [];
  flags = record {
    authorized = some true;
    authorized_to_maintain_liabilities = none;
    clawback_enabled = none;
  };
}

abbrev before_flags : Shared small_horizon small_network small_redis
before_flags = record before_issue { world = record { number = 20; transactions = [] } }

abbrev after_flags : Shared small_horizon small_network small_redis
after_flags =
    (set_trustline_flags small_horizon small_network small_redis first_flags before_flags).1

first_flagged :
    set_trustline_flags small_horizon small_network small_redis first_flags before_flags
    ≡ (inr 21, after_flags)
unfolding set_trustline_flags invalidate_balance_cache
first_flagged = refl

set_trustline_flags-IsFlagged_example :
    IsFlagged small_horizon small_network small_ledger small_redis first_flags before_flags
      after_flags
set_trustline_flags-IsFlagged_example =
    set_trustline_flags-IsFlagged small_horizon small_network small_ledger small_redis first_flags
      before_flags after_flags 21 first_flagged
