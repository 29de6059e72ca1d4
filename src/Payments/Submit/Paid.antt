-- ===== src/Payments/Submit/Paid.antt =====
-- backend/src/contracts/transactions.ts: what a payment that is submitted pays, and what it leaves of
-- the cached balances.
use coop_lumen_index.Base.{
  ℕ, ◌≡◌, sym, ap, ◌∙◌, inl, inr, some, [], ◌∷◌, arith, Option-cases, Sum-cases,
}
use coop_lumen_index.Stellar.TimeBounds.{Options, resolve_time_bounds}
use coop_lumen_index.Balances.{BalanceRedis, invalidate_balance_cache}
use coop_lumen_index.Payments.Memos.{build_memo}
use coop_lumen_index.Payments.Submit.{
  PaymentNetwork, PaymentParams, Transaction, paid_asset, built_on, drafted, pay_from,
  submit_payment,
}

-- The transaction pays what was asked, with the memo and the time bounds that were asked.
pub record Asks (params : PaymentParams) (options : Options) (tx : Transaction) : Type 0 where
  pub destination : tx.destination ≡ params.destination_public_key
  pub asset : tx.asset ≡ paid_asset params
  pub amount : tx.amount ≡ params.amount
  pub memo : build_memo params.memo ≡ inr tx.memo
  pub bounds : resolve_time_bounds params.time_bounds options ≡ inr tx.bounds

module _ (N : PaymentNetwork) where
  open N use {from_secret, load_account, submit, decode, to_xdr}

  built_on-Asks :
      (params : PaymentParams) (options : Options) (account : ℕ) (tx : Transaction)
      → built_on N params options account ≡ inr tx
      → Asks params options tx × (tx.account ≡ account)
  unfolding built_on
  built_on-Asks params options account tx h = elim (Sum-cases (build_memo params.memo)) [
    | inl (e, m) ↦ absurd (ground arith)
    | inr (memo, m) ↦ elim (Sum-cases (resolve_time_bounds params.time_bounds options)) [
      | inl (e, t) ↦ absurd (ground arith)
      | inr (bounds, t) ↦ (
        record {
          destination = ground arith;
          asset = ground arith;
          amount = ground arith;
          memo = m ∙ ap inr (ground arith);
          bounds = t ∙ ap inr (ground arith);
        },
        ground arith,
      )
    ]
  ]

  -- A payment as Horizon accepted it: of the account with the secret's key, and what was asked.
  pub record IsPaid (params : PaymentParams) (options : Options) (hash : ℕ) : Type 0 where
    pub key : ℕ
    pub tx : Transaction
    pub of_secret : from_secret params.payer ≡ some key
    pub from_account : load_account key ≡ inr tx.account
    pub asks : Asks params options tx
    pub accepted : submit tx key ≡ inr hash

  module _ (R : BalanceRedis) where
    pay_from_accepted :
        (params : PaymentParams) (options : Options) (key now : ℕ) (c c' : R.Contents) (hash : ℕ)
        → pay_from N R params options key now c ≡ (inr hash, c')
        → (tx : Transaction) × (load_account key ≡ inr tx.account)
          × Asks params options tx
          × (submit tx key ≡ inr hash)
          × (c'
              ≡ invalidate_balance_cache R
                  (some key ∷ some params.destination_public_key ∷ [])
                  now
                  c)
    unfolding pay_from drafted
    pay_from_accepted params options key now c c' hash h = elim (Sum-cases (load_account key)) [
      | inl (e, l) ↦ absurd (ground arith)
      | inr (account, l) ↦ elim (Sum-cases (built_on N params options account)) [
        | inl (e, b) ↦ absurd (ground arith)
        | inr (tx, b) ↦ elim (Sum-cases (submit tx key)) [
          | inl (e, s) ↦ absurd (ground arith)
          | inr (accepted, s) ↦
              let (asks, from) = built_on-Asks params options account tx b in
              (tx, l ∙ ap inr (sym from), asks, s ∙ ap inr (ground arith), ground arith)
        ]
      ]
    ]

    pub submit_payment-IsPaid :
        (params : PaymentParams) (options : Options) (now : ℕ) (c c' : R.Contents) (hash : ℕ)
        → submit_payment N R params options now c ≡ (inr hash, c')
        → (p : IsPaid params options hash) × (c'
            ≡ invalidate_balance_cache R
                (some p.key ∷ some params.destination_public_key ∷ [])
                now
                c)
    unfolding submit_payment
    submit_payment-IsPaid params options now c c' hash h =
        elim (Option-cases (from_secret params.payer)) [
          | inl e ↦ absurd (ground arith)
          | inr (key, e) ↦
              let (tx, l, asks, s, d) =
                pay_from_accepted params options key now c c' hash (rw (e, submit_payment) at h) in
              (
                record {
                  key = key;
                  tx = tx;
                  of_secret = e;
                  from_account = l;
                  asks = asks;
                  accepted = s;
                },
                d,
              )
        ]
