-- ===== src/Payments/Examples.antt =====
-- Runs of the modelled parts of backend/src/contracts on concrete payments, accounts and envelopes.
use coop_lumen_index.Base.{
  ℕ, zero, suc, ◌-◌, ◌≡◌, ◌↔◌, ◌<◌, refl, ◌⊎◌, inl, inr, true, false, Option, none, some, List, [],
  ◌∷◌, arith, ltb, leb, ◌==◌, pos, if◌then◌else◌,
}
use coop_lumen_index.Stellar.Batch.{is_positive_amount}
use coop_lumen_index.Payments.Memos.{
  build_memo, trim, bare, Memo, text, IsRepresentable, build_memo-IsRepresentable,
}
use coop_lumen_index.Payments.Signers.{
  Signer, weight_sum, weighted, heavier_first, sort_signers, eligible_signers, gather,
}
use coop_lumen_index.Payments.Signers.Sorting.{Chosen}
use coop_lumen_index.Payments.Signers.Fewest.{IsFewest}
use coop_lumen_index.Payments.MultiSig.{
  Ledger, MultiSigPaymentParams, SourceAccount, MultiSigPayment, below_threshold,
  build_multi_sig_payment, xlm,
}
use coop_lumen_index.Payments.MultiSig.Reached.{
  build_multi_sig_payment-IsFewest, build_multi_sig_payment_unreachable,
}
use coop_lumen_index.Payments.Signing.{
  Signatures, IsSignedBy, SignatureLaws, has_signature, sign_transaction_with_secret,
  sign_transaction-IsSignedBy,
}
use coop_lumen_index.Payments.Validation.{
  DecodedEnvelope, transaction, fee_bump, DecodeFailure, a_string, expired_at, validate_xdr,
  IsValidXdr, validate_xdr_exact, matches_base64,
}

abbrev heavy : Signer
heavy = record { key = 7; weight = 3; kind = 0 }

abbrev light : Signer
light = record { key = 4; weight = 1; kind = 0 }

abbrev idle : Signer
idle = record { key = 5; weight = 0; kind = 0 }

abbrev shared : SourceAccount
shared = record { med_threshold = 4; signers = light ∷ idle ∷ heavy ∷ light ∷ [] }

abbrev locked : SourceAccount
locked = record { med_threshold = 9; signers = light ∷ heavy ∷ [] }

-- Account 1 is shared, and account 2 cannot pay any more.
abbrev ledger : Ledger
ledger = record {
  is_public_key = λ key. ltb 0 key;
  locale_leb = leb;
  load_account = λ key. inr (if key == 1 then shared else locked);
}

abbrev payment_of : ℕ → MultiSigPaymentParams
payment_of source = record {
  source_public_key = source;
  destination_public_key = 3;
  asset_code = b'X' ∷ b'L' ∷ b'M' ∷ [];
  asset_issuer = none;
  amount = b'1' ∷ b'0' ∷ [];
  memo = none;
  timeout_seconds = none;
}

abbrev shared_payment : MultiSigPayment
shared_payment = record {
  draft = record {
    source = 1;
    destination = 3;
    asset = xlm;
    amount = b'1' ∷ b'0' ∷ [];
    memo = none;
    timeout = pos 30;
  };
  required_weight = 4;
  signers = heavy ∷ light ∷ light ∷ [];
  available_weight = 5;
  minimum_signatures = 2;
}

shared_payment_built : build_multi_sig_payment ledger (payment_of 1) ≡ inr shared_payment
unfolding build_multi_sig_payment is_positive_amount build_memo eligible_signers weighted
    sort_signers heavier_first weight_sum gather
shared_payment_built = refl

build_multi_sig_payment-IsFewest_example :
    (account : SourceAccount) × (ledger.load_account 1 ≡ inr account)
    × (shared_payment.required_weight ≡ account.med_threshold)
    × IsFewest account.signers account.med_threshold shared_payment.minimum_signatures
build_multi_sig_payment-IsFewest_example =
    build_multi_sig_payment-IsFewest ledger (payment_of 1) shared_payment shared_payment_built

locked_payment_refused : build_multi_sig_payment ledger (payment_of 2) ≡ inl (below_threshold 4 9)
unfolding build_multi_sig_payment is_positive_amount build_memo eligible_signers weighted
    sort_signers heavier_first weight_sum gather
locked_payment_refused = refl

build_multi_sig_payment_unreachable_example :
    (account : SourceAccount) × (ledger.load_account 2 ≡ inr account)
    × ((count total : ℕ) → Chosen account.signers count total → total < account.med_threshold)
build_multi_sig_payment_unreachable_example =
    build_multi_sig_payment_unreachable ledger (payment_of 2) 4 9 locked_payment_refused

-- An envelope that remembers the key that signed it last.
abbrev read_number : ℕ → Option (Option ℕ)
read_number zero = none
read_number (suc zero) = some none
read_number (suc (suc key)) = some (some key)

abbrev write_number : Option ℕ → ℕ
write_number none = 1
write_number (some key) = suc (suc key)

abbrev last_signature : Option ℕ → List ℕ
last_signature none = []
last_signature (some key) = key ∷ []

-- Secrets from 10 on belong to the keys from 0 on.
abbrev signing : Signatures
signing = record {
  Envelope = Option ℕ;
  Signature = ℕ;
  is_blank = λ n. n == 0;
  from_secret = λ secret. if ltb secret 10 then none else some (secret - 10);
  from_xdr = read_number;
  to_xdr = write_number;
  signatures = last_signature;
  verify = λ key envelope signature. some (signature == key);
  sign = λ key envelope. some key;
}

abbrev distributor : Option ℕ
distributor = some 5

distributor_signs : sign_transaction_with_secret signing distributor 1 15 none ≡ inr 7
unfolding sign_transaction_with_secret
distributor_signs = refl

sign_transaction-IsSignedBy_example : IsSignedBy signing distributor 1 15 none 7
sign_transaction-IsSignedBy_example =
    sign_transaction-IsSignedBy signing distributor 1 15 none 7 distributor_signs

signing_verifies :
    (key : ℕ) (envelope : Option ℕ) → has_signature signing (signing.sign key envelope) key ≡ true
unfolding has_signature
signing_verifies key envelope = ground arith

signing_reads_back : (envelope : Option ℕ) → read_number (write_number envelope) ≡ some envelope
signing_reads_back none = refl
signing_reads_back (some key) = refl

signing_not_blank : (envelope : Option ℕ) → (write_number envelope == 0) ≡ false
signing_not_blank none = refl
signing_not_blank (some key) = ground arith

signing_laws : SignatureLaws signing
signing_laws = record {
  verifies = signing_verifies;
  reads_back = signing_reads_back;
  not_blank = signing_not_blank;
}

-- Every text decodes to a fee bump of a payment with bounds.
abbrev decode_bumped : List ℕ → DecodeFailure ⊎ DecodedEnvelope
decode_bumped cs = inr (fee_bump true (transaction 1 (some 100)))

abbrev wallet_output : List ℕ
wallet_output = b' ' ∷ b'A' ∷ b'A' ∷ b'=' ∷ b' ' ∷ []

wallet_output_valid : validate_xdr decode_bumped (a_string wallet_output) 100 ≡ none
unfolding validate_xdr trim matches_base64
wallet_output_valid = refl

wallet_output_late : validate_xdr decode_bumped (a_string wallet_output) 101 ≡ some (expired_at 100)
unfolding validate_xdr trim matches_base64
wallet_output_late = refl

validate_xdr_exact_example :
    (validate_xdr decode_bumped (a_string wallet_output) 100 ≡ none)
    ↔ IsValidXdr decode_bumped wallet_output 100
validate_xdr_exact_example = validate_xdr_exact decode_bumped wallet_output 100

abbrev thanks : Memo
thanks = text (b't' ∷ b'y' ∷ [])

build_memo-IsRepresentable_example : IsRepresentable thanks
unfolding build_memo
build_memo-IsRepresentable_example =
    build_memo-IsRepresentable (some (bare (b't' ∷ b'y' ∷ []))) thanks refl
