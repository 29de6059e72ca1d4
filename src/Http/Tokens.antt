-- ===== src/Http/Tokens.antt =====
-- backend/src/api/utils/sessionToken.ts: session tokens signed with an HMAC. Texts are numbers, 0
-- the empty one: they are only compared and passed to the library. A token is the list of its
-- parts, `token.split('.')`; base64url never writes a dot.
use coop_lumen_index.Base.{
  ℕ, ◌+◌, ◌≤◌, ◌≡◌, ◌≢◌, ap, not, ◌||◌, Option, none, some, List, [], ◌∷◌, arith, if◌then◌else◌,
  ◌==◌, ltb, Option-cases, inl, inr,
}

pub record SessionPayload : Type 0 where
  pub address : ℕ
  pub iat : ℕ
  pub exp : ℕ

-- What JSON.parse finds in a body whose `address` is a text and whose `exp` is a number is a
-- payload; anything else, or an exception, is none. `sign` is the HMAC under the session secret.
pub record Crypto : Type 0 where
  pub sign : ℕ → ℕ
  pub encode : SessionPayload → ℕ
  pub decode : ℕ → Option SessionPayload

module _ (C : Crypto) where
  open C use {sign, encode, decode}

  -- JSON and base64url give back this payload, and neither its encoding nor its HMAC is empty.
  pub record RoundTrips (p : SessionPayload) : Type 0 where
    pub decode-encode : decode (encode p) ≡ some p
    pub encode_nonempty : encode p ≢ 0
    pub sign_nonempty : sign (encode p) ≢ 0

  abbrev pub payload_at : ℕ → ℕ → ℕ → SessionPayload
  payload_at address now ttl = record { address = address; iat = now; exp = now + ttl }

  unfoldable pub create_session_token : ℕ → ℕ → ℕ → List ℕ
  create_session_token address now ttl =
      let body = encode (payload_at address now ttl) in body ∷ sign body ∷ []

  abbrev pub unless_expired : ℕ → SessionPayload → Option SessionPayload
  unless_expired now payload = if ltb payload.exp now then none else some payload

  abbrev pub decoded : ℕ → Option SessionPayload → Option SessionPayload
  decoded now none = none
  decoded now (some payload) = unless_expired now payload

  unfoldable pub verify_session_token : List ℕ → ℕ → Option SessionPayload
  verify_session_token (body ∷ signature ∷ []) now =
      if (body == 0) || (signature == 0)
      then none
      else if not (signature == sign body)
      then none
      else decoded now (decode body)
  verify_session_token _ now = none

  -- What an accepted token must be.
  pub record IsSigned (token : List ℕ) (now : ℕ) (payload : SessionPayload) : Type 0 where
    pub body : ℕ
    pub parts : token ≡ body ∷ sign body ∷ []
    pub reads : decode body ≡ some payload
    pub current : now ≤ payload.exp

  -- A token is accepted only if it is a body with its HMAC under the session secret, the body
  -- reads as the payload, and the payload has not expired.
  pub verify_session_token_sound :
      (token : List ℕ) (now : ℕ) (payload : SessionPayload)
      → verify_session_token token now ≡ some payload
      → IsSigned token now payload
  unfolding verify_session_token
  verify_session_token_sound [] now payload h = absurd (ground arith)
  verify_session_token_sound (b ∷ []) now payload h = absurd (ground arith)
  verify_session_token_sound (b ∷ s ∷ x ∷ xs) now payload h = absurd (ground arith)
  verify_session_token_sound (b ∷ s ∷ []) now payload h = elim (Option-cases (decode b)) [
    | inl e ↦ absurd (ground arith)
    | inr (p, e) ↦
        let signed : s ≡ sign b = ground arith in
        record {
          body = b;
          parts = ap (λ x. b ∷ x ∷ []) signed;
          reads = ground arith;
          current = ground arith;
        }
  ]

  -- A token that was issued is accepted, with its address, up to the end of its lifetime, and
  -- refused afterwards, where the library reads back the payload.
  pub verify-create_session_token :
      (address issued ttl now : ℕ)
      → RoundTrips (payload_at address issued ttl)
      → verify_session_token (create_session_token address issued ttl) now
        ≡ (if ltb (issued + ttl) now then none else some (payload_at address issued ttl))
  unfolding verify_session_token create_session_token
  verify-create_session_token address issued ttl now laws =
      let read = laws.decode-encode in
      let body = laws.encode_nonempty in let signature = laws.sign_nonempty in ground arith
