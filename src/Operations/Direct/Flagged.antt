-- ===== src/Operations/Direct/Flagged.antt =====
-- backend/src/contracts/trustlines.ts: what `setTrustlineFlags` puts on the ledger.
use mathlib.Core.Path.{subst}
use coop_lumen_index.Base.{
  ℕ, ◌≡◌, sym, ap, ◌∙◌, ◌⊎◌, inl, inr, Bool, true, false, not, ◌==◌, Option, none, some, List, [],
  ◌∷◌, if◌then◌else◌, arith, Option-cases, Sum-cases,
}
use coop_lumen_index.Stellar.Sequence.{Horizon, CacheEntry}
use coop_lumen_index.Balances.{BalanceRedis}
use coop_lumen_index.Payments.MultiSig.{issued_by}
use coop_lumen_index.Operations.{
  Operation, NumberedTransaction, build_and_submit, set_trust_line_flags, OperationFailure,
  bad_public_key, own_trustline, no_flags, bad_asset, SubmitNetwork, Extras, Shared,
}
use coop_lumen_index.Operations.Sent.{
  Ledger, Adds, adds_none, IsSent, Went, job-Went, settled-IsSent,
}
use coop_lumen_index.Operations.Direct.{
  SetTrustlineFlagsParams, requested_flags, requests_none, no_extras, load_and_submit, flags_check,
  set_trustline_flags,
}

abbrev guarded : (a b c d : Bool) → ℕ → OperationFailure ⊎ ℕ
guarded a b c d key =
    if not a
    then inl bad_public_key
    else if b
    then inl own_trustline
    else if c
    then inl no_flags
    else if not d
    then inl bad_asset
    else inr key

guards :
    (a b c d : Bool) (key issuer : ℕ)
    → guarded a b c d key ≡ inr issuer
    → (a ≡ true) × (b ≡ false) × (c ≡ false) × (key ≡ issuer)
guards a b c d key issuer h = (ground arith, ground arith, ground arith, ground arith)

module _ (H : Horizon) (N : SubmitNetwork H) (L : Ledger H N) where
  open H use {World, load}
  open L use {accepted, load_keeps}

  nothing_added :
      {source : ℕ} {operation : Operation} {extras : World → Extras}
      {before after : List NumberedTransaction}
      → after ≡ before
      → Adds H N L source operation extras 1 before after × Unit {0}
  nothing_added e = (subst (Adds H N L _ _ _ 1 _) (sym e) adds_none, tt)

  load_and_submit-Went :
      (source : ℕ) (error : Option OperationFailure) (operation : Operation)
      (extras : World → Extras) (cache : List CacheEntry) (w : World)
      → Went H N L source operation extras 1
          (accepted w)
          (load_and_submit H N source error operation extras cache w).0
          (load_and_submit H N source error operation extras cache w).2
  unfolding load_and_submit
  load_and_submit-Went source error operation extras cache w = elim (Sum-cases (load source w).0) [
    | inl (e, l) ↦ rw (l, load_and_submit) (nothing_added (load_keeps source w))
    | inr (number, l) ↦ elim (Option-cases error) [
      | inr (e, failed) ↦ rw (l, load_and_submit) (rw failed (nothing_added (load_keeps source w)))
      | inl none_failed ↦
          let w' = (load source w).1 in
          let r = build_and_submit H N source operation extras number w' in
          rw (l, load_and_submit)
            (rw none_failed (
              subst (λ before. Went H N L source operation extras 1 before r.0 r.2)
                (load_keeps source w) (job-Went H N L source operation extras number w')))
    ]
  ]

  -- The issuer of the flags: the secret's key, for a valid key that is another one, with a flag to set
  -- or clear.
  pub record IsFlagged (R : BalanceRedis) (params : SetTrustlineFlagsParams) (s s' : Shared H N R)
      : Type 0 where
    pub issuer : ℕ
    pub of_secret : N.from_secret params.issuer_secret ≡ some issuer
    pub to_key : N.is_public_key params.trustor_public_key ≡ true
    pub to_other : params.trustor_public_key == issuer ≡ false
    pub requested : requests_none (requested_flags params.flags) ≡ false
    pub sent :
        IsSent H N L R 1 issuer
          (set_trust_line_flags params.trustor_public_key
            (issued_by params.asset_code issuer)
            params.flags)
          (no_extras H N)
          (some params.trustor_public_key ∷ [])
          s
          s'

  module _ (R : BalanceRedis) where
    checked_issuer :
        (params : SetTrustlineFlagsParams) (issuer : ℕ)
        → flags_check H N R params ≡ inr issuer
        → (N.from_secret params.issuer_secret ≡ some issuer)
          × (N.is_public_key params.trustor_public_key ≡ true)
          × (params.trustor_public_key == issuer ≡ false)
          × (requests_none (requested_flags params.flags) ≡ false)
    unfolding flags_check
    checked_issuer params issuer h = elim (Option-cases (N.from_secret params.issuer_secret)) [
      | inl e ↦ absurd (ground arith)
      | inr (key, e) ↦
          let (to_key, to_other, requested, same) =
            guards (N.is_public_key params.trustor_public_key) (params.trustor_public_key == key)
              (requests_none (requested_flags params.flags))
              (N.asset_fits (issued_by params.asset_code key)) key issuer
              (rw (e, flags_check) at h) in
          (
            e ∙ ap some same,
            to_key,
            subst (λ k. params.trustor_public_key == k ≡ false) same to_other,
            requested,
          )
    ]

    -- After a setting of a trustline's flags that is answered with a hash, one transaction was
    -- added to the ledger at most, though it may have been submitted four times, and one is
    -- there: an operation of the secret's key on the trustline of another account, a valid key,
    -- with at least one flag that is set or cleared. The cached balances of the account are gone
    -- if Redis's deletions succeed and it gives nothing that was not stored or whose time is
    -- over. Of Horizon it is assumed that it may add a transaction whatever it answers, but
    -- never twice, has it after a hash, and adds nothing when an account is loaded.
    pub set_trustline_flags-IsFlagged :
        (params : SetTrustlineFlagsParams) (s s' : Shared H N R) (hash : ℕ)
        → set_trustline_flags H N R params s ≡ (inr hash, s')
        → IsFlagged R params s s'
    unfolding set_trustline_flags
    set_trustline_flags-IsFlagged params s s' hash h = elim (Sum-cases (flags_check H N R params)) [
      | inl (e, p) ↦ absurd (ground arith)
      | inr (issuer, p) ↦
          let (of_secret, to_key, to_other, requested) = checked_issuer params issuer p in
          record {
            issuer = issuer;
            of_secret = of_secret;
            to_key = to_key;
            to_other = to_other;
            requested = requested;
            sent =
                settled-IsSent H N L R 1 issuer _ (no_extras H N) _ s s' hash _
                  (load_and_submit-Went issuer none _ (no_extras H N) s.sequences s.world)
                  (rw (p, set_trustline_flags) at h);
          }
    ]
