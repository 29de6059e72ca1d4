-- ===== src/Stellar/Batch.antt =====
-- backend/src/contracts/batchPayments.ts, with the checks of validation.ts that it uses. Texts that
-- the code looks into are lists of ASCII codes; keys and codes of assets are numbers, where an
-- issuer is none if it is empty.
use coop_lumen_index.Base.{
  ℕ, ◌+◌, ◌≤◌, ◌≡◌, refl, ◌⊎◌, inl, inr, Bool, true, false, not, ◌&&◌, Option, none, some, List, [],
  ◌∷◌, length, arith, if◌then◌else◌, ◌==◌, ltb, leb, any, all, Option-cases, Sum-cases,
}

abbrev pub is_digit : ℕ → Bool
is_digit c = leb b'0' c && leb c b'9'

-- `\.\d{1,7}`, after the dot.
abbrev pub is_fraction : List ℕ → Bool
is_fraction cs = all is_digit cs && leb 1 (length cs) && leb (length cs) 7

abbrev pub is_tail_of_amount : List ℕ → Bool
is_tail_of_amount [] = true
is_tail_of_amount (c ∷ cs) = (c == b'.') && is_fraction cs

-- `\d*`, and what follows.
abbrev pub is_rest_of_amount : List ℕ → Bool
is_rest_of_amount [] = true
is_rest_of_amount (c ∷ cs) =
    let rest = is_rest_of_amount cs in if is_digit c then rest else is_tail_of_amount (c ∷ cs)

-- AMOUNT_PATTERN
unfoldable pub is_amount : List ℕ → Bool
is_amount [] = false
is_amount (c ∷ cs) = if c == b'0' then is_tail_of_amount cs else is_digit c && is_rest_of_amount cs

-- `Number(value) > 0`, of a text that matches the pattern: some digit is not zero.
abbrev pub is_above_zero : List ℕ → Bool
is_above_zero = any λ c. not (c == b'0') && not (c == b'.')

-- `assertPositiveAmount`
unfoldable pub is_positive_amount : List ℕ → Bool
unfolding is_amount
is_positive_amount cs = is_amount cs && is_above_zero cs

pub data Asset : Type 0 where
  native : Asset
  credit : (code issuer : ℕ) → Asset

pub record BatchPaymentEntry : Type 0 where
  pub destination_public_key : ℕ
  pub asset_code : ℕ
  pub asset_issuer : Option ℕ
  pub amount : List ℕ

pub data BatchError : Type 0 where
  no_payments too_many_payments memo_too_long : BatchError
  bad_destination bad_amount issuer_missing_at bad_issuer_at : ℕ → BatchError

-- What the SDK's StrKey.isValidEd25519PublicKey says of a key, and the code 'XLM'.
pub record Sdk : Type 0 where
  pub is_public_key : ℕ → Bool
  pub xlm : ℕ

pub record Payment : Type 0 where
  pub destination : ℕ
  pub asset : Asset
  pub amount : List ℕ

abbrev pub max_batch_payments : ℕ
max_batch_payments = 100

abbrev pub memo_max_bytes : ℕ
memo_max_bytes = 28

module _ (K : Sdk) where
  open K use {is_public_key, xlm}

  unfoldable pub resolve_asset : ℕ → Option ℕ → ℕ → BatchError ⊎ Asset
  resolve_asset code issuer position = if code == xlm then inr native else elim issuer [
    | none ↦ inl (issuer_missing_at position)
    | some key ↦ if is_public_key key then inr (credit code key) else inl (bad_issuer_at position)
  ]

  abbrev pub error_of {ℓ} : {A : Type ℓ} → BatchError ⊎ A → Option BatchError
  error_of (inl e) = some e
  error_of (inr _) = none

  -- The checks of one entry, by its position from 1.
  unfoldable pub entry_error : ℕ → BatchPaymentEntry → Option BatchError
  unfolding resolve_asset is_positive_amount
  entry_error position payment =
      if not (is_public_key payment.destination_public_key)
      then some (bad_destination position)
      else if not (is_positive_amount payment.amount)
      then some (bad_amount position)
      else error_of (resolve_asset payment.asset_code payment.asset_issuer position)

  -- `payments.forEach`, from a position.
  unfoldable pub entries_error : ℕ → List BatchPaymentEntry → Option BatchError
  entries_error position [] = none
  entries_error position (payment ∷ payments) =
      let rest = entries_error (position + 1) payments in
      elim (entry_error position payment) [ some e ↦ some e | none ↦ rest ]

  abbrev pub is_long : Option ℕ → Bool
  is_long none = false
  is_long (some bytes) = ltb memo_max_bytes bytes

  -- `assertValidBatch`, with the memo by its length in bytes.
  unfoldable pub batch_error : List BatchPaymentEntry → Option ℕ → Option BatchError
  unfolding entries_error
  batch_error payments memo =
      if length payments == 0
      then some no_payments
      else if ltb max_batch_payments (length payments)
      then some too_many_payments
      else if is_long memo
      then some memo_too_long
      else entries_error 1 payments

  -- The loop of `buildBatchTransaction`: an operation for each entry, or the exception of
  -- `resolveAsset`. The exceptions of the Stellar SDK itself, for amounts above the largest int64 of
  -- stroops and for asset codes that it refuses, are not modelled.
  unfoldable pub build_payments : ℕ → List BatchPaymentEntry → BatchError ⊎ List Payment
  build_payments position [] = inr []
  build_payments position (payment ∷ payments) =
      let rest = build_payments (position + 1) payments in
      elim (resolve_asset payment.asset_code payment.asset_issuer position) [
        | inl e ↦ inl e
        | inr asset ↦ elim rest [
          | inl e ↦ inl e
          | inr built ↦ inr (
              record {
                destination = payment.destination_public_key;
                asset = asset;
                amount = payment.amount;
              }
              ∷ built)
        ]
      ]

  -- The operations pay the entries, one each and in their order.
  pub data Pays : List BatchPaymentEntry → List Payment → Type 0 where
    pays_nil : Pays [] []
    pays_cons :
        {e : BatchPaymentEntry} {p : Payment} {es : List BatchPaymentEntry} {ps : List Payment}
        → p.destination ≡ e.destination_public_key
        → p.amount ≡ e.amount
        → is_positive_amount p.amount ≡ true
        → (n : ℕ) → resolve_asset e.asset_code e.asset_issuer n ≡ inr p.asset
        → Pays es ps
        → Pays (e ∷ es) (p ∷ ps)

  built :
      (position : ℕ) (payments : List BatchPaymentEntry)
      → entries_error position payments ≡ none
      → (ps : List Payment) × (build_payments position payments ≡ inr ps) × Pays payments ps
  unfolding entries_error entry_error build_payments
  built position [] h = ([], refl, pays_nil)
  built position (e ∷ es) h = elim (Option-cases (entry_error position e)) [
    | inr (x, bad) ↦ absurd (ground arith)
    | inl good ↦ elim (Sum-cases (resolve_asset e.asset_code e.asset_issuer position)) [
      | inl (x, bad) ↦ absurd (ground arith)
      | inr (asset, found) ↦
          let (ps, same, pays) = built (position + 1) es (ground arith) in
          let p : Payment = record {
            destination = e.destination_public_key;
            asset = asset;
            amount = e.amount;
          } in
          let joined : build_payments position (e ∷ es) ≡ inr (p ∷ ps) = ground arith in
          (p ∷ ps, joined, pays_cons {p = p} refl refl (ground arith) position found pays)
    ]
  ]

  -- A batch that passes the checks has 1 to 100 entries and is built without an exception, with
  -- one operation for each entry, in order, each of a positive amount.
  pub batch_error-none :
      (payments : List BatchPaymentEntry) (memo : Option ℕ)
      → batch_error payments memo ≡ none
      → (1 ≤ length payments)
        × (length payments ≤ max_batch_payments)
        × (ps : List Payment) × (build_payments 1 payments ≡ inr ps)
        × Pays payments ps
  unfolding batch_error
  batch_error-none payments memo h =
      let (ps, same, pays) = built 1 payments (ground arith) in
      (ground arith, ground arith, ps, same, pays)
