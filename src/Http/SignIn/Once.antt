-- ===== src/Http/SignIn/Once.antt =====
-- A challenge of backend/src/api/routes/auth.ts after it was verified.
use coop_lumen_index.Base.{
  ℕ, ◌≡◌, ◌≢◌, refl, inl, inr, Bool, true, false, ◌&&◌, not, List, [], ◌∷◌, arith, ◌==◌, all,
  Bool-cases,
}
use coop_lumen_index.Http.Tokens.{Crypto}
use coop_lumen_index.Http.SignIn.{
  PendingChallenge, Wallets, prune_expired_challenges, delete_pending, get_pending,
  no_matching_challenge, SignInRequest, asks_challenge, verifies, ask_challenge, matches,
  verify_challenge, sign_in, sign_in_all,
}

module _ (W : Wallets) (C : Crypto) (session_ttl : ℕ) where
  -- The address has this challenge pending.
  abbrev is_pending : ℕ → ℕ → PendingChallenge → Bool
  is_pending address challenge p = (p.address == address) && (p.challenge == challenge)

  abbrev pub is_gone : ℕ → ℕ → List PendingChallenge → Bool
  is_gone address challenge = all λ p. not (is_pending address challenge p)

  prune_gone :
      (address challenge now : ℕ) (ps : List PendingChallenge)
      → is_gone address challenge ps ≡ true
      → is_gone address challenge (prune_expired_challenges now ps) ≡ true
  unfolding prune_expired_challenges
  prune_gone address challenge now [] h = refl
  prune_gone address challenge now (p ∷ ps) h =
      let rest = prune_gone address challenge now ps in ground arith

  delete_gone :
      (other address challenge : ℕ) (ps : List PendingChallenge)
      → is_gone address challenge ps ≡ true
      → is_gone address challenge (delete_pending other ps) ≡ true
  unfolding delete_pending
  delete_gone other address challenge [] h = refl
  delete_gone other address challenge (p ∷ ps) h =
      let rest = delete_gone other address challenge ps in ground arith

  deleted_gone :
      (address challenge : ℕ) (ps : List PendingChallenge)
      → is_gone address challenge (delete_pending address ps) ≡ true
  unfolding delete_pending
  deleted_gone address challenge [] = refl
  deleted_gone address challenge (p ∷ ps) =
      let rest = deleted_gone address challenge ps in ground arith

  gone_unmatched :
      (address challenge : ℕ) (ps : List PendingChallenge)
      → is_gone address challenge ps ≡ true
      → matches W C session_ttl challenge (get_pending address ps) ≡ false
  gone_unmatched address challenge [] h = refl
  gone_unmatched address challenge (p ∷ ps) h =
      let rest = gone_unmatched address challenge ps in ground arith

  -- The request does not issue this challenge.
  abbrev pub issues_other : ℕ → SignInRequest → Bool
  issues_other challenge (asks_challenge address nonce) =
      not (W.challenge_text address nonce == challenge)
  issues_other challenge (verifies _ _ _) = true

  sign_in_gone :
      (address challenge : ℕ) (request : SignInRequest) (now : ℕ) (ps : List PendingChallenge)
      → issues_other challenge request ≡ true
      → is_gone address challenge ps ≡ true
      → is_gone address challenge (sign_in W C session_ttl request now ps).1 ≡ true
  unfolding sign_in ask_challenge verify_challenge
  sign_in_gone address challenge (asks_challenge a nonce) now ps h g =
      let pruned = prune_gone address challenge now ps g in
      let rest = delete_gone a address challenge (prune_expired_challenges now ps) pruned in
      ground arith
  sign_in_gone address challenge (verifies a c s) now ps h g =
      let pruned = prune_gone address challenge now ps g in
      let rest = delete_gone a address challenge (prune_expired_challenges now ps) pruned in
      ground arith

  all_gone :
      (address challenge : ℕ) (requests : List (SignInRequest × ℕ)) (ps : List PendingChallenge)
      → all (λ r. issues_other challenge r.0) requests ≡ true
      → is_gone address challenge ps ≡ true
      → is_gone address challenge (sign_in_all W C session_ttl requests ps) ≡ true
  unfolding sign_in_all
  all_gone address challenge [] ps h g = g
  all_gone address challenge ((request, now) ∷ earlier) ps h g =
      sign_in_gone address challenge request now (sign_in_all W C session_ttl earlier ps)
        (ground arith) (all_gone address challenge earlier ps (ground arith) g)

  -- A verification that finds its challenge uses it up, whether or not the signature checks:
  -- after any requests that do not issue the same challenge again, each verification of it is
  -- refused.
  pub verify_challenge_once :
      (address challenge signature again now later : ℕ) (pending : List PendingChallenge)
      (requests : List (SignInRequest × ℕ))
      → (verify_challenge W C session_ttl address challenge signature now pending).0
        ≢ no_matching_challenge
      → all (λ r. issues_other challenge r.0) requests ≡ true
      → (verify_challenge W C session_ttl address challenge again later (
          sign_in_all W C session_ttl requests
            (verify_challenge W C session_ttl address challenge signature now pending).1)).0
        ≡ no_matching_challenge
  unfolding verify_challenge
  verify_challenge_once address challenge signature again now later pending requests h k =
      let current = prune_expired_challenges now pending in
      elim (Bool-cases (matches W C session_ttl challenge (get_pending address current))) [
        | inr f ↦ absurd (ground arith)
        | inl t ↦
            let gone =
              all_gone address challenge requests (delete_pending address current) k
                (deleted_gone address challenge current) in
            let last = sign_in_all W C session_ttl requests (delete_pending address current) in
            let unmatched =
              gone_unmatched address challenge (prune_expired_challenges later last)
                (prune_gone address challenge later last gone) in
            ground arith
      ]
