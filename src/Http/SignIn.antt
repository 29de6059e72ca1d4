-- ===== src/Http/SignIn.antt =====
-- backend/src/api/routes/auth.ts: wallet sign-in, with its map of pending challenges. Times are
-- milliseconds, those of session tokens whole seconds.
pub mod Once
pub mod Issued
mod Examples
use coop_lumen_index.Base.{
  ℕ, ◌+◌, ◌*◌, ◌/◌, ◌≤◌, ◌≡◌, ◌≢◌, refl, inl, inr, ◌⊎◌, Bool, true, false, ◌&&◌, not, Option, none,
  some, List, [], ◌∷◌, ◌++◌, arith, if◌then◌else◌, ◌==◌, ltb, any, all, Bool-cases, Option-cases,
  ==_iff,
}
use coop_lumen_index.Http.Tokens.{Crypto, create_session_token}

abbrev pub challenge_ttl_ms : ℕ
challenge_ttl_ms = 300000

pub record PendingChallenge : Type 0 where
  pub address : ℕ
  pub challenge : ℕ
  pub expires_at : ℕ

-- The text of a challenge for an address and a nonce, and the SDK's signature check, which is false
-- also where it throws.
pub record Wallets : Type 0 where
  pub challenge_text : ℕ → ℕ → ℕ
  pub verify_signature : ℕ → ℕ → ℕ → Bool

unfoldable pub prune_expired_challenges : ℕ → List PendingChallenge → List PendingChallenge
prune_expired_challenges now [] = []
prune_expired_challenges now (p ∷ ps) =
    let rest = prune_expired_challenges now ps in if ltb p.expires_at now then rest else p ∷ rest

-- `pendingChallenges.delete(address)`
unfoldable pub delete_pending : ℕ → List PendingChallenge → List PendingChallenge
delete_pending address [] = []
delete_pending address (p ∷ ps) =
    let rest = delete_pending address ps in if p.address == address then rest else p ∷ rest

abbrev pub get_pending : ℕ → List PendingChallenge → Option PendingChallenge
get_pending address [] = none
get_pending address (p ∷ ps) =
    let rest = get_pending address ps in if p.address == address then some p else rest

pub data SignInAnswer : Type 0 where
  challenge_data : ℕ → SignInAnswer
  no_matching_challenge signature_failed : SignInAnswer
  token_data : List ℕ → ℕ → SignInAnswer

pub data SignInRequest : Type 0 where
  asks_challenge : ℕ → ℕ → SignInRequest
  verifies : ℕ → ℕ → ℕ → SignInRequest

module _ (W : Wallets) (C : Crypto) (session_ttl : ℕ) where
  -- POST /auth/challenge; the nonce is from randomBytes.
  unfoldable pub ask_challenge :
      ℕ → ℕ → ℕ → List PendingChallenge → SignInAnswer × List PendingChallenge
  ask_challenge address nonce now pending =
      let challenge = W.challenge_text address nonce in
      (
        challenge_data challenge,
        record { address = address; challenge = challenge; expires_at = now + challenge_ttl_ms }
            ∷ delete_pending address (prune_expired_challenges now pending),
      )

  abbrev pub matches : ℕ → Option PendingChallenge → Bool
  matches challenge none = false
  matches challenge (some p) = p.challenge == challenge

  abbrev pub signed_answer : Bool → ℕ → ℕ → SignInAnswer
  signed_answer true address now =
      token_data (create_session_token C address (now / 1000) session_ttl) address
  signed_answer false address now = signature_failed

  -- POST /auth/verify
  unfoldable pub verify_challenge :
      ℕ → ℕ → ℕ → ℕ → List PendingChallenge → SignInAnswer × List PendingChallenge
  verify_challenge address challenge signature now pending =
      let current = prune_expired_challenges now pending in
      if not (matches challenge (get_pending address current))
      then (no_matching_challenge, current)
      else (
        signed_answer (W.verify_signature address challenge signature) address now,
        delete_pending address current,
      )

  -- A request, and the time at which it runs.
  unfoldable pub sign_in :
      SignInRequest → ℕ → List PendingChallenge → SignInAnswer × List PendingChallenge
  sign_in (asks_challenge address nonce) now pending = ask_challenge address nonce now pending
  sign_in (verifies address challenge signature) now pending =
      verify_challenge address challenge signature now pending

  -- The map after some requests, of which the latest comes first.
  unfoldable pub sign_in_all :
      List (SignInRequest × ℕ) → List PendingChallenge → List PendingChallenge
  sign_in_all [] pending = pending
  sign_in_all ((request, now) ∷ earlier) pending =
      (sign_in request now (sign_in_all earlier pending)).1
