-- ===== src/Http/Webhook.antt =====
-- backend/src/api/middleware/webhookSignature.ts. Texts and bytes are lists of their codes; node's
-- `Buffer.from(text, 'hex')` and its HMAC are parameters.
use coop_lumen_index.Base.{
  ℕ, ◌≡◌, refl, sym, Bool, true, false, ◌&&◌, not, Option, none, some, List, [], ◌∷◌, ◌++◌, length,
  arith, if◌then◌else◌, ◌==◌,
}

-- `sign` is computeSignature: the HMAC's digest, in hexadecimal digits.
pub record Digests : Type 0 where
  pub from_hex : List ℕ → List ℕ
  pub sign : List ℕ → List ℕ → List ℕ

pub data WebhookVerdict : Type 0 where
  not_configured missing_header no_raw_body invalid_signature accepted : WebhookVerdict

-- `timingSafeEqual`, of two buffers of the same length.
abbrev pub same_bytes : List ℕ → List ℕ → Bool
same_bytes [] [] = true
same_bytes [] (_ ∷ _) = false
same_bytes (_ ∷ _) [] = false
same_bytes (x ∷ xs) (y ∷ ys) = let rest = same_bytes xs ys in (x == y) && rest

module _ (D : Digests) where
  open D use {from_hex, sign}

  unfoldable pub signatures_match : List ℕ → List ℕ → Bool
  signatures_match expected provided =
      if not (length (from_hex expected) == length (from_hex provided))
      then false
      else same_bytes (from_hex expected) (from_hex provided)

  -- The secret of the environment, the header and the raw body; none is absent or empty.
  unfoldable pub verify_webhook_signature :
      Option (List ℕ) → Option (List ℕ) → Option (List ℕ) → WebhookVerdict
  verify_webhook_signature none header body = not_configured
  verify_webhook_signature (some secret) none body = missing_header
  verify_webhook_signature (some secret) (some header) none = no_raw_body
  verify_webhook_signature (some secret) (some header) (some body) =
      if signatures_match (sign secret body) header then accepted else invalid_signature

  same_bytes-true : (xs ys : List ℕ) → same_bytes xs ys ≡ true → xs ≡ ys
  same_bytes-true [] [] h = refl
  same_bytes-true [] (y ∷ ys) h = absurd (ground arith)
  same_bytes-true (x ∷ xs) [] h = absurd (ground arith)
  same_bytes-true (x ∷ xs) (y ∷ ys) h =
      let rest = same_bytes-true xs ys (ground arith) in
      let same : x ≡ y = ground arith in ground arith

  same_bytes_refl : (xs : List ℕ) → same_bytes xs xs ≡ true
  same_bytes_refl [] = refl
  same_bytes_refl (x ∷ xs) = let rest = same_bytes_refl xs in ground arith

  -- A webhook request passes only if a secret is configured, the request has the header and a
  -- raw body, and the header, read as hexadecimal, has the bytes of the body's HMAC under the
  -- secret.
  pub verify_webhook_signature_accepted :
      (secret header body : Option (List ℕ))
      → verify_webhook_signature secret header body ≡ accepted
      → (key : List ℕ) × (signature : List ℕ) × (payload : List ℕ) × (secret ≡ some key)
        × (header ≡ some signature)
        × (body ≡ some payload)
        × (from_hex signature ≡ from_hex (sign key payload))
  unfolding verify_webhook_signature signatures_match
  verify_webhook_signature_accepted none header body h = absurd (ground arith)
  verify_webhook_signature_accepted (some key) none body h = absurd (ground arith)
  verify_webhook_signature_accepted (some key) (some signature) none h = absurd (ground arith)
  verify_webhook_signature_accepted (some key) (some signature) (some payload) h =
      let bytes : same_bytes (from_hex (sign key payload)) (from_hex signature) ≡ true =
        ground arith in
      (
        key,
        signature,
        payload,
        refl,
        refl,
        refl,
        sym (same_bytes-true (from_hex (sign key payload)) (from_hex signature) bytes),
      )

  -- What node's documentation says of a text that goes on, after this signature, with a character
  -- that is no hexadecimal digit: the rest is left out.
  abbrev pub IsTruncated : List ℕ → List ℕ → Type 0
  IsTruncated signature tail = from_hex (signature ++ tail) ≡ from_hex signature

  -- A correct signature with such a tail is accepted.
  pub verify_webhook_signature_tail :
      (key payload tail : List ℕ)
      → IsTruncated (sign key payload) tail
      → verify_webhook_signature (some key) (some (sign key payload ++ tail)) (some payload)
        ≡ accepted
  unfolding verify_webhook_signature signatures_match
  verify_webhook_signature_tail key payload tail h =
      let same = same_bytes_refl (from_hex (sign key payload)) in ground arith
