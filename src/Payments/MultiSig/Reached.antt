-- ===== src/Payments/MultiSig/Reached.antt =====
-- backend/src/contracts/transactions.ts: the signatures that `buildMultiSigPayment` asks for.
use coop_lumen_index.Base.{
  ℕ, ◌≤◌, ◌<◌, ◌≡◌, refl, ◌⊎◌, inl, inr, Bool, true, false, Option, List, arith, sym, ap, ◌∙◌,
  Sum-cases,
}
use coop_lumen_index.Payments.Signers.{weight_sum, eligible_signers, gather}
use coop_lumen_index.Payments.Signers.Sorting.{Chosen}
use coop_lumen_index.Payments.Signers.Fewest.{IsFewest, gather-IsFewest, unreachable}
use coop_lumen_index.Payments.MultiSig.{
  Ledger, Seconds, MultiSigPaymentParams, SourceAccount, Draft, MultiSigPayment, PaymentError,
  below_threshold, checked_timeout, checked_asset, checked_draft, governed, build_multi_sig_payment,
}

module _ (L : Ledger) where
  open L use {is_public_key, locale_leb, load_account}

  checked_source :
      (params : MultiSigPaymentParams) (draft : Draft)
      → checked_draft L params ≡ inr draft
      → draft.source ≡ params.source_public_key
  unfolding checked_draft
  checked_source params draft h = ground arith

  -- The run up to the account, of a result that only what follows gives.
  abbrev LedgerRun : MultiSigPaymentParams → PaymentError ⊎ MultiSigPayment → Type 0
  LedgerRun params r =
      (draft : Draft) × (account : SourceAccount) × (checked_draft L params ≡ inr draft)
      × (load_account params.source_public_key ≡ inr account)
      × (governed L draft account ≡ r)

  abbrev is_governed : PaymentError ⊎ MultiSigPayment → Bool
  is_governed (inl (below_threshold a r)) = true
  is_governed (inl e) = false
  is_governed (inr payment) = true

  asset_error :
      (code : List ℕ) (issuer : Option ℕ) (e : PaymentError)
      → checked_asset L code issuer ≡ inl e
      → is_governed (inl e) ≡ false
  unfolding checked_asset
  asset_error code issuer e h = ground arith

  timeout_error :
      (t : Option Seconds) (e : PaymentError)
      → checked_timeout t ≡ inl e
      → is_governed (inl e) ≡ false
  timeout_error t e h = ground arith

  early_error :
      (params : MultiSigPaymentParams) (e : PaymentError)
      → checked_draft L params ≡ inl e
      → is_governed (inl e) ≡ false
  unfolding checked_draft
  early_error params e h = ground (
    arith,
    asset_error params.asset_code params.asset_issuer e,
    timeout_error params.timeout_seconds e,
  )

  ledger_run :
      (params : MultiSigPaymentParams) (r : PaymentError ⊎ MultiSigPayment)
      → build_multi_sig_payment L params ≡ r
      → is_governed r ≡ true
      → LedgerRun params r
  unfolding build_multi_sig_payment
  ledger_run params r h g = elim (Sum-cases (checked_draft L params)) [
    | inl (e, c) ↦ let early = early_error params e c in absurd (ground arith)
    | inr (draft, c) ↦ elim (Sum-cases (load_account draft.source)) [
      | inl (e, l) ↦ absurd (ground arith)
      | inr (account, l) ↦ (
        draft,
        account,
        c,
        ap load_account (sym (checked_source params draft c)) ∙ l,
        ground arith,
      )
    ]
  ]

  governed_below :
      (draft : Draft) (account : SourceAccount) (available required : ℕ)
      → governed L draft account ≡ inl (below_threshold available required)
      → weight_sum (eligible_signers locale_leb account.signers) < account.med_threshold
  unfolding governed
  governed_below draft account available required h = ground arith

  governed-IsFewest :
      (draft : Draft) (account : SourceAccount) (payment : MultiSigPayment)
      → governed L draft account ≡ inr payment
      → (payment.required_weight ≡ account.med_threshold)
        × IsFewest account.signers account.med_threshold payment.minimum_signatures
  unfolding governed
  governed-IsFewest draft account payment h =
      let signers = eligible_signers locale_leb account.signers in
      let available : account.med_threshold ≤ weight_sum signers = ground arith in
      let required : account.med_threshold ≡ payment.required_weight = ground arith in
      let minimum : gather account.med_threshold signers 0 0 ≡ payment.minimum_signatures =
        ground arith in
      (
        sym required,
        rw (← minimum) (gather-IsFewest locale_leb account.signers account.med_threshold available),
      )

  -- A payment that buildMultiSigPayment builds asks for the fewest of the account's signers
  -- whose weights reach its medium threshold: as many can reach it, and no fewer can.
  pub build_multi_sig_payment-IsFewest :
      (params : MultiSigPaymentParams) (payment : MultiSigPayment)
      → build_multi_sig_payment L params ≡ inr payment
      → (account : SourceAccount) × (load_account params.source_public_key ≡ inr account)
        × (payment.required_weight ≡ account.med_threshold)
        × IsFewest account.signers account.med_threshold payment.minimum_signatures
  build_multi_sig_payment-IsFewest params payment h =
      let (draft, account, c, l, g) = ledger_run params (inr payment) h refl in
      let (required, fewest) = governed-IsFewest draft account payment g in
      (account, l, required, fewest)

  -- A payment is refused for the threshold only if no choice of the account's signers reaches
  -- it.
  pub build_multi_sig_payment_unreachable :
      (params : MultiSigPaymentParams) (available required : ℕ)
      → build_multi_sig_payment L params ≡ inl (below_threshold available required)
      → (account : SourceAccount) × (load_account params.source_public_key ≡ inr account)
        × ((count total : ℕ) → Chosen account.signers count total → total < account.med_threshold)
  build_multi_sig_payment_unreachable params available required h =
      let (draft, account, c, l, g) = ledger_run params _ h refl in
      (
        account,
        l,
        unreachable locale_leb account.signers account.med_threshold
            (governed_below draft account available required g),
      )
