-- ===== src/Payments/Validation.antt =====
-- backend/src/contracts/xdrValidation.ts: whether an envelope can be submitted. A text is the list of
-- its character codes.
use coop_lumen_index.Base.{
  ℕ, ◌≤◌, ◌<◌, ◌≡◌, ◌↔◌, refl, ◌⊎◌, inl, inr, Bool, true, false, ◌&&◌, ◌||◌, Option, none, some,
  List, [], ◌∷◌, arith, if◌then◌else◌, ◌==◌, ltb, leb, Sum-cases,
}
use coop_lumen_index.Payments.Memos.{trim}

-- What the SDK decodes: a transaction, by the number of its operations and the `maxTime` of its
-- bounds, or a fee bump of another, with or without a fee source.
pub data DecodedEnvelope : Type 0 where
  transaction : (operations : ℕ) (max_time : Option ℕ) → DecodedEnvelope
  fee_bump : (has_fee_source : Bool) (inner : DecodedEnvelope) → DecodedEnvelope

-- What the patterns of `describeDecodeError` find in the message of a decoding error.
pub record DecodeFailure : Type 0 where
  pub bad_union_switch : Bool
  pub not_base64 : Bool
  pub read_error : Bool

pub data XdrError : Type 0 where
  not_string is_empty invalid_base64 unknown_type malformed undecodable : XdrError
  no_fee_source no_operations : XdrError
  expired_at : ℕ → XdrError

-- An argument of `validateXdr`.
pub data Given : Type 0 where
  a_string : List ℕ → Given
  no_string : Given

unfoldable pub describe_decode_error : DecodeFailure → XdrError
describe_decode_error failure =
    if failure.bad_union_switch
    then unknown_type
    else if failure.not_base64
    then invalid_base64
    else if failure.read_error
    then malformed
    else undecodable

abbrev pub is_base64 : ℕ → Bool
is_base64 c =
    leb b'A' c && leb c b'Z'
    || leb b'a' c && leb c b'z'
    || leb b'0' c && leb c b'9'
    || c == b'+'
    || c == b'/'

-- `={0,2}$`
abbrev pub is_padding : List ℕ → Bool
is_padding [] = true
is_padding (a ∷ []) = a == b'='
is_padding (a ∷ b ∷ []) = a == b'=' && b == b'='
is_padding (a ∷ b ∷ c ∷ cs) = false

-- `[A-Za-z0-9+/]*={0,2}$`
abbrev pub is_base64_rest : List ℕ → Bool
is_base64_rest [] = true
is_base64_rest (c ∷ cs) =
    let rest = is_base64_rest cs in if is_base64 c then rest else is_padding (c ∷ cs)

-- BASE64_PATTERN
unfoldable pub matches_base64 : List ℕ → Bool
matches_base64 [] = false
matches_base64 (c ∷ cs) = is_base64 c && is_base64_rest cs

-- `maxTime && Number(maxTime) > 0 && Number(maxTime) < nowSeconds`
abbrev pub is_expired : ℕ → Option ℕ → Bool
is_expired now none = false
is_expired now (some time) = ltb 0 time && ltb time now

abbrev pub time_of : Option ℕ → ℕ
time_of none = 0
time_of (some time) = time

-- `validateEnvelope`: none if the envelope is valid.
unfoldable pub validate_envelope : DecodedEnvelope → ℕ → Option XdrError
validate_envelope (fee_bump has_fee_source inner) now =
    let rest = validate_envelope inner now in if has_fee_source then rest else some no_fee_source
validate_envelope (transaction operations max_time) now =
    if operations == 0
    then some no_operations
    else if is_expired now max_time
    then some (expired_at (time_of max_time))
    else none

-- The tests of a text once it is trimmed.
abbrev pub text_error : List ℕ → Option XdrError
text_error [] = some is_empty
text_error (c ∷ cs) = if matches_base64 (c ∷ cs) then none else some invalid_base64

-- `decode` is the SDK's TransactionBuilder.fromXDR for the expected network.
module _ (decode : List ℕ → DecodeFailure ⊎ DecodedEnvelope) where
  abbrev pub decoded_error : DecodeFailure ⊎ DecodedEnvelope → ℕ → Option XdrError
  decoded_error (inl failure) now = some (describe_decode_error failure)
  decoded_error (inr envelope) now = validate_envelope envelope now

  unfoldable pub validate_xdr : Given → ℕ → Option XdrError
  unfolding validate_envelope describe_decode_error
  validate_xdr no_string now = some not_string
  validate_xdr (a_string xdr) now = elim (text_error (trim xdr)) [
    | some e ↦ some e
    | none ↦ decoded_error (decode (trim xdr)) now
  ]

-- The transaction that an envelope carries, under its fee bumps, all of which have a fee source.
pub data Carries : DecodedEnvelope → ℕ → Option ℕ → Type 0 where
  itself :
      (operations : ℕ) (max_time : Option ℕ)
      → Carries (transaction operations max_time) operations max_time
  bumped :
      (inner : DecodedEnvelope) (has_fee_source : Bool) (operations : ℕ) (max_time : Option ℕ)
      → has_fee_source ≡ true
      → Carries inner operations max_time
      → Carries (fee_bump has_fee_source inner) operations max_time

-- Not yet past the end of its bounds, if they have one.
abbrev pub IsTimely : ℕ → Option ℕ → Type 0
IsTimely now none = Unit
IsTimely now (some time) = (time ≡ 0) ⊎ (now ≤ time)

-- An envelope that the network may take at the time.
pub record IsSubmittable (envelope : DecodedEnvelope) (now : ℕ) : Type 0 where
  pub operations : ℕ
  pub max_time : Option ℕ
  pub carries : Carries envelope operations max_time
  pub some_operation : 0 < operations
  pub timely : IsTimely now max_time

is_expired-IsTimely : (now : ℕ) (t : Option ℕ) → is_expired now t ≡ false → IsTimely now t
is_expired-IsTimely now none h = tt
is_expired-IsTimely now (some time) h = ground arith

IsTimely-is_expired : (now : ℕ) (t : Option ℕ) → IsTimely now t → is_expired now t ≡ false
IsTimely-is_expired now none h = refl
IsTimely-is_expired now (some time) (inl e) = ground arith
IsTimely-is_expired now (some time) (inr le) = ground arith

validate_envelope_sound :
    (envelope : DecodedEnvelope) (now : ℕ)
    → validate_envelope envelope now ≡ none
    → IsSubmittable envelope now
unfolding validate_envelope
validate_envelope_sound (transaction operations max_time) now h = record {
  operations = operations;
  max_time = max_time;
  carries = itself operations max_time;
  some_operation = ground arith;
  timely = is_expired-IsTimely now max_time (ground arith);
}
validate_envelope_sound (fee_bump has_fee_source inner) now h =
    let s = validate_envelope_sound inner now (ground arith) in
    record {
      operations = s.operations;
      max_time = s.max_time;
      carries = bumped inner has_fee_source _ _ (ground arith) s.carries;
      some_operation = s.some_operation;
      timely = s.timely;
    }

carried_valid :
    (envelope : DecodedEnvelope) (operations : ℕ) (max_time : Option ℕ) (now : ℕ)
    → Carries envelope operations max_time
    → 0 < operations
    → is_expired now max_time ≡ false
    → validate_envelope envelope now ≡ none
unfolding validate_envelope
carried_valid _ _ _ now (itself operations max_time) h k = ground arith
carried_valid _ _ _ now (bumped inner has_fee_source operations max_time e c) h k =
    let rest = carried_valid inner operations max_time now c h k in ground arith

module _ (decode : List ℕ → DecodeFailure ⊎ DecodedEnvelope) where
  -- What a valid text is: base64 once it is trimmed, and an envelope that can be submitted.
  pub record IsValidXdr (xdr : List ℕ) (now : ℕ) : Type 0 where
    pub envelope : DecodedEnvelope
    pub base64 : matches_base64 (trim xdr) ≡ true
    pub decoded : decode (trim xdr) ≡ inr envelope
    pub submittable : IsSubmittable envelope now

  text_passes : (cs : List ℕ) → text_error cs ≡ none → matches_base64 cs ≡ true
  text_passes [] h = absurd (ground arith)
  text_passes (c ∷ cs) h = ground arith

  passing_text : (cs : List ℕ) → matches_base64 cs ≡ true → text_error cs ≡ none
  unfolding matches_base64
  passing_text [] h = absurd (ground arith)
  passing_text (c ∷ cs) h = ground arith

  validate_xdr_sound :
      (xdr : List ℕ) (now : ℕ) → validate_xdr decode (a_string xdr) now ≡ none → IsValidXdr xdr now
  unfolding validate_xdr
  validate_xdr_sound xdr now h =
      let passes : text_error (trim xdr) ≡ none = ground arith in
      elim (Sum-cases (decode (trim xdr))) [
        | inl (failure, d) ↦ absurd (ground arith)
        | inr (envelope, d) ↦ record {
          envelope = envelope;
          base64 = text_passes (trim xdr) passes;
          decoded = d;
          submittable = validate_envelope_sound envelope now (ground arith);
        }
      ]

  validate_xdr_complete :
      (xdr : List ℕ) (now : ℕ) → IsValidXdr xdr now → validate_xdr decode (a_string xdr) now ≡ none
  unfolding validate_xdr
  validate_xdr_complete xdr now v =
      let passes = passing_text (trim xdr) v.base64 in
      let s = v.submittable in
      let fine =
        carried_valid v.envelope s.operations s.max_time now s.carries s.some_operation
          (IsTimely-is_expired now s.max_time s.timely) in
      let decoded = v.decoded in ground arith

  -- A text is valid exactly if, once it is trimmed, it is base64 and decodes to an envelope
  -- whose fee bumps all have a fee source, around a transaction with an operation and time left.
  pub validate_xdr_exact :
      (xdr : List ℕ) (now : ℕ)
      → (validate_xdr decode (a_string xdr) now ≡ none) ↔ IsValidXdr xdr now
  validate_xdr_exact xdr now = (validate_xdr_sound xdr now, validate_xdr_complete xdr now)
