-- ===== src/Payments/Signing.antt =====
-- backend/src/contracts/signing.ts: signing on the server. Texts and keys are numbers.
use coop_lumen_index.Base.{
  ℕ, ◌≡◌, ap, ◌∙◌, ◌⊎◌, inl, inr, Bool, true, false, Option, none, some, List, [], ◌∷◌, any, arith,
  if◌then◌else◌, ◌==◌, Option-cases, Bool-cases,
}

-- The parts of the Stellar SDK that the code calls. `from_secret` gives the public key, none if it
-- throws; `from_xdr` is none if it throws; `verify` is none if it throws.
pub record Signatures : Type 1 where
  pub Envelope : Type 0
  pub Signature : Type 0
  pub is_blank : ℕ → Bool
  pub from_secret : ℕ → Option ℕ
  pub from_xdr : ℕ → Option Envelope
  pub to_xdr : Envelope → ℕ
  pub signatures : Envelope → List Signature
  pub verify : ℕ → Envelope → Signature → Option Bool
  pub sign : ℕ → Envelope → Envelope

pub data SigningError : Type 0 where
  no_envelope bad_secret no_signer bad_envelope : SigningError
  not_allowed : ℕ → SigningError

-- The status of `reject`.
abbrev pub signing_status : SigningError → ℕ
signing_status no_signer = 500
signing_status (not_allowed key) = 403
signing_status _ = 400

abbrev pub includes : ℕ → List ℕ → Bool
includes key = any λ k. k == key

-- `allowedSigners ?? (distributor ? [distributor] : [])`
unfoldable pub allowed_keys : Option ℕ → Option (List ℕ) → List ℕ
allowed_keys distributor (some allowed) = allowed
allowed_keys none none = []
allowed_keys (some key) none = key ∷ []

abbrev pub allowed_error : ℕ → List ℕ → Option SigningError
allowed_error key [] = some no_signer
allowed_error key (k ∷ keys) = if includes key (k ∷ keys) then none else some (not_allowed key)

-- `assertAllowed`: its refusal, if it has one.
unfoldable pub assert_allowed : Option ℕ → ℕ → Option (List ℕ) → Option SigningError
unfolding allowed_keys
assert_allowed distributor key allowed = allowed_error key (allowed_keys distributor allowed)

allowed_error_sound :
    (key : ℕ) (keys : List ℕ) → allowed_error key keys ≡ none → includes key keys ≡ true
allowed_error_sound key [] h = absurd (ground arith)
allowed_error_sound key (k ∷ keys) h = ground arith

allowed_error_complete :
    (key : ℕ) (keys : List ℕ) → includes key keys ≡ true → allowed_error key keys ≡ none
allowed_error_complete key [] h = absurd (ground arith)
allowed_error_complete key (k ∷ keys) h = ground arith

assert_allowed_sound :
    (distributor : Option ℕ) (key : ℕ) (allowed : Option (List ℕ))
    → assert_allowed distributor key allowed ≡ none
    → includes key (allowed_keys distributor allowed) ≡ true
unfolding assert_allowed
assert_allowed_sound distributor key allowed h = allowed_error_sound key _ h

-- The caller's list has the key, or the caller gives no list and the key is the configured distributor.
pub data MaySign (distributor : Option ℕ) (key : ℕ) : Option (List ℕ) → Type 0 where
  listed : (keys : List ℕ) → includes key keys ≡ true → MaySign distributor key (some keys)
  distributes : distributor ≡ some key → MaySign distributor key none

allowed-MaySign :
    (distributor : Option ℕ) (key : ℕ) (allowed : Option (List ℕ))
    → includes key (allowed_keys distributor allowed) ≡ true
    → MaySign distributor key allowed
unfolding allowed_keys
allowed-MaySign distributor key (some keys) h = listed keys h
allowed-MaySign none key none h = absurd (ground arith)
allowed-MaySign (some k) key none h = distributes (ground arith)

MaySign-allowed :
    (distributor : Option ℕ) (key : ℕ) (allowed : Option (List ℕ))
    → MaySign distributor key allowed
    → includes key (allowed_keys distributor allowed) ≡ true
unfolding allowed_keys
MaySign-allowed distributor key allowed (listed keys h) = h
MaySign-allowed distributor key allowed (distributes h) = rw h (ground arith)

assert_allowed_complete :
    (distributor : Option ℕ) (key : ℕ) (allowed : Option (List ℕ))
    → includes key (allowed_keys distributor allowed) ≡ true
    → assert_allowed distributor key allowed ≡ none
unfolding assert_allowed
assert_allowed_complete distributor key allowed h = allowed_error_complete key _ h

-- `try { return … } catch { return false }`
abbrev pub or_false : Option Bool → Bool
or_false none = false
or_false (some b) = b

module _ (K : Signatures) where
  open K use {Envelope, is_blank, from_secret, from_xdr, to_xdr, signatures, verify, sign}

  unfoldable pub has_signature : Envelope → ℕ → Bool
  has_signature envelope key = any (λ s. or_false (verify key envelope s)) (signatures envelope)

  -- The envelope that is returned, once it is decoded.
  unfoldable pub signed : ℕ → Envelope → ℕ
  unfolding has_signature
  signed key envelope =
      if has_signature envelope key then to_xdr envelope else to_xdr (sign key envelope)

  -- With the distributor that the environment names, if any.
  unfoldable pub sign_transaction_with_secret :
      Option ℕ → ℕ → ℕ → Option (List ℕ) → SigningError ⊎ ℕ
  unfolding assert_allowed signed
  sign_transaction_with_secret distributor xdr secret allowed =
      if is_blank xdr then inl no_envelope else elim (from_secret secret) [
        | none ↦ inl bad_secret
        | some key ↦ elim (assert_allowed distributor key allowed) [
          | some e ↦ inl e
          | none ↦ elim (from_xdr xdr) [
            | none ↦ inl bad_envelope
            | some envelope ↦ inr (signed key envelope)
          ]
        ]
      ]

  -- What a signature needs: a key on the list, and an envelope that decodes.
  pub record IsSignedBy (distributor : Option ℕ) (xdr secret : ℕ) (allowed : Option (List ℕ))
      (out : ℕ) : Type 0 where
    pub key : ℕ
    pub envelope : Envelope
    pub not_blank : is_blank xdr ≡ false
    pub of_secret : from_secret secret ≡ some key
    pub may_sign : MaySign distributor key allowed
    pub decoded : from_xdr xdr ≡ some envelope
    pub signed_by : signed key envelope ≡ out

  -- An envelope is signed only with the secret of a key that is on the list, or is the
  -- configured distributor where the caller gives no list; with neither, nothing is signed.
  pub sign_transaction-IsSignedBy :
      (distributor : Option ℕ) (xdr secret : ℕ) (allowed : Option (List ℕ)) (out : ℕ)
      → sign_transaction_with_secret distributor xdr secret allowed ≡ inr out
      → IsSignedBy distributor xdr secret allowed out
  unfolding sign_transaction_with_secret
  sign_transaction-IsSignedBy distributor xdr secret allowed out h =
      elim (Option-cases (from_secret secret)) [
        | inl e ↦ absurd (ground arith)
        | inr (key, e) ↦ elim (Option-cases (assert_allowed distributor key allowed)) [
          | inr (refused, a) ↦ absurd (ground arith)
          | inl a ↦ elim (Option-cases (from_xdr xdr)) [
            | inl d ↦ absurd (ground arith)
            | inr (envelope, d) ↦ record {
              key = key;
              envelope = envelope;
              not_blank = ground arith;
              of_secret = e;
              may_sign =
                  allowed-MaySign distributor key allowed
                    (assert_allowed_sound distributor key allowed a);
              decoded = d;
              signed_by = ground arith;
            }
          ]
        ]
      ]

  -- What the SDK documents of signing: a signature verifies under its key, whatever was signed
  -- before, and an envelope that is written out is read back.
  pub record SignatureLaws : Type 0 where
    pub verifies : (key : ℕ) (envelope : Envelope) → has_signature (sign key envelope) key ≡ true
    pub reads_back : (envelope : Envelope) → from_xdr (to_xdr envelope) ≡ some envelope
    pub not_blank : (envelope : Envelope) → is_blank (to_xdr envelope) ≡ false

  module _ (law : SignatureLaws) where
    -- What is returned decodes to an envelope with the key's signature.
    signed_decodes :
        (key : ℕ) (envelope : Envelope) (out : ℕ)
        → signed key envelope ≡ out
        → (after : Envelope) × (to_xdr after ≡ out) × (has_signature after key ≡ true)
    unfolding signed
    signed_decodes key envelope out h = elim (Bool-cases (has_signature envelope key)) [
      | inl e ↦ (envelope, ground arith, e)
      | inr e ↦ (sign key envelope, ground arith, law.verifies key envelope)
    ]

    signed_again :
        (key : ℕ) (after : Envelope)
        → has_signature after key ≡ true
        → signed key after ≡ to_xdr after
    unfolding signed
    signed_again key after h = ground arith

    sign_transaction-decoded :
        (distributor : Option ℕ) (secret key : ℕ) (allowed : Option (List ℕ)) (after : Envelope)
        → from_secret secret ≡ some key
        → includes key (allowed_keys distributor allowed) ≡ true
        → sign_transaction_with_secret distributor (to_xdr after) secret allowed
          ≡ inr (signed key after)
    unfolding sign_transaction_with_secret
    sign_transaction-decoded distributor secret key allowed after s l =
        let open_text = law.not_blank after in
        let decoded = law.reads_back after in
        let passes = assert_allowed_complete distributor key allowed l in ground arith

    -- Signing an envelope again, with the same secret and the same list, changes nothing.
    pub sign_transaction_twice :
        (distributor : Option ℕ) (xdr secret : ℕ) (allowed : Option (List ℕ)) (out : ℕ)
        → sign_transaction_with_secret distributor xdr secret allowed ≡ inr out
        → sign_transaction_with_secret distributor out secret allowed ≡ inr out
    sign_transaction_twice distributor xdr secret allowed out h =
        let s = sign_transaction-IsSignedBy distributor xdr secret allowed out h in
        let (after, e, has) = signed_decodes s.key s.envelope out s.signed_by in
        let again =
          sign_transaction-decoded distributor secret s.key allowed after s.of_secret
            (MaySign-allowed distributor s.key allowed s.may_sign) in
        rw (← e) (again ∙ ap inr (signed_again s.key after has))
