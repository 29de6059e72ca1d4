-- ===== src/Http/SignIn/Issued.antt =====
-- Where the challenge behind a token of backend/src/api/routes/auth.ts comes from.
use coop_lumen_index.Base.{
  ℕ, ◌/◌, ◌+◌, ◌≡◌, refl, inl, inr, Bool, true, false, ◌&&◌, not, some, List, [], ◌∷◌, arith, ◌==◌,
  ltb, any, all, Bool-cases, Option-cases,
}
use coop_lumen_index.Http.Tokens.{Crypto, create_session_token}
use coop_lumen_index.Http.SignIn.{
  challenge_ttl_ms, PendingChallenge, Wallets, prune_expired_challenges, delete_pending,
  get_pending, token_data, SignInRequest, asks_challenge, verifies, ask_challenge, verify_challenge,
  sign_in, sign_in_all,
}

module _ (W : Wallets) (C : Crypto) (session_ttl : ℕ) where
  -- The request that put an entry there.
  abbrev is_origin : PendingChallenge → SignInRequest → ℕ → Bool
  is_origin p (verifies _ _ _) t = false
  is_origin p (asks_challenge address nonce) t =
      (p.address == address)
      && (p.challenge == W.challenge_text address nonce)
      && (p.expires_at == t + challenge_ttl_ms)

  abbrev pub asked : ℕ → ℕ → ℕ → SignInRequest × ℕ → Bool
  asked address challenge now (verifies _ _ _, t) = false
  asked address challenge now (asks_challenge a nonce, t) =
      (a == address)
      && (W.challenge_text a nonce == challenge)
      && not (ltb (t + challenge_ttl_ms) now)

  abbrev is_backed : List (SignInRequest × ℕ) → PendingChallenge → Bool
  is_backed requests p = any (λ r. is_origin p r.0 r.1) requests

  module _ (q : PendingChallenge → Bool) where
    prune_all :
        (now : ℕ) (ps : List PendingChallenge)
        → all q ps ≡ true
        → all (λ p. q p && not (ltb p.expires_at now)) (prune_expired_challenges now ps) ≡ true
    unfolding prune_expired_challenges
    prune_all now [] h = refl
    prune_all now (p ∷ ps) h = let rest = prune_all now ps in ground arith

    delete_all :
        (address : ℕ) (ps : List PendingChallenge)
        → all q ps ≡ true
        → all q (delete_pending address ps) ≡ true
    unfolding delete_pending
    delete_all address [] h = refl
    delete_all address (p ∷ ps) h = let rest = delete_all address ps in ground arith

    get_all :
        (address : ℕ) (ps : List PendingChallenge) (p : PendingChallenge)
        → all q ps ≡ true
        → get_pending address ps ≡ some p
        → (q p ≡ true) × (p.address ≡ address)
    get_all address [] p h e = absurd (ground arith)
    get_all address (x ∷ ps) p h e = elim (Bool-cases (x.address == address)) [
      | inl t ↦ let same : x ≡ p = ground arith in ground arith
      | inr f ↦ get_all address ps p (ground arith) (ground arith)
    ]

  weaken :
      (q r : PendingChallenge → Bool)
      → ((p : PendingChallenge) → q p ≡ true → r p ≡ true)
      → (ps : List PendingChallenge) → all q ps ≡ true
      → all r ps ≡ true
  weaken q r f [] h = refl
  weaken q r f (p ∷ ps) h =
      let head = f p (ground arith) in let rest = weaken q r f ps (ground arith) in ground arith

  -- The entries that are left at a time.
  abbrev is_current : List (SignInRequest × ℕ) → ℕ → PendingChallenge → Bool
  is_current requests now p = is_backed requests p && not (ltb p.expires_at now)

  carried :
      (request : SignInRequest) (now : ℕ) (earlier : List (SignInRequest × ℕ))
      (ps : List PendingChallenge)
      → all (is_backed earlier) ps ≡ true
      → all (is_backed ((request, now) ∷ earlier)) (prune_expired_challenges now ps) ≡ true
  carried request now earlier ps h =
      weaken (is_current earlier now) (is_backed ((request, now) ∷ earlier)) (λ p k. ground arith)
        (prune_expired_challenges now ps) (prune_all (is_backed earlier) now ps h)

  after_request :
      (request : SignInRequest) (now : ℕ) (q : PendingChallenge → Bool) (ps : List PendingChallenge)
      → all q (prune_expired_challenges now ps) ≡ true
      → ((p : PendingChallenge) → is_origin p request now ≡ true → q p ≡ true)
      → all q (sign_in W C session_ttl request now ps).1 ≡ true
  unfolding sign_in ask_challenge verify_challenge
  after_request (asks_challenge address nonce) now q ps kept origin =
      let rest = delete_all q address (prune_expired_challenges now ps) kept in
      let entry : PendingChallenge = record {
        address = address;
        challenge = W.challenge_text address nonce;
        expires_at = now + challenge_ttl_ms;
      } in
      let own = origin entry (ground arith) in ground arith
  after_request (verifies address challenge signature) now q ps kept origin =
      let rest = delete_all q address (prune_expired_challenges now ps) kept in ground arith

  all_backed :
      (requests : List (SignInRequest × ℕ))
      → all (is_backed requests) (sign_in_all W C session_ttl requests []) ≡ true
  unfolding sign_in_all
  all_backed [] = refl
  all_backed ((request, now) ∷ earlier) =
      let before = sign_in_all W C session_ttl earlier [] in
      let kept = carried request now earlier before (all_backed earlier) in
      after_request request now (is_backed ((request, now) ∷ earlier)) before kept
        λ p k. ground arith

  backed-asked :
      (address challenge now : ℕ) (requests : List (SignInRequest × ℕ)) (p : PendingChallenge)
      → is_current requests now p ≡ true
      → p.address ≡ address
      → p.challenge ≡ challenge
      → any (asked address challenge now) requests ≡ true
  backed-asked address challenge now [] p h a c = absurd (ground arith)
  backed-asked address challenge now ((verifies x y z, t) ∷ earlier) p h a c =
      let rest = backed-asked address challenge now earlier p in ground arith
  backed-asked address challenge now ((asks_challenge x nonce, t) ∷ earlier) p h a c =
      let rest = backed-asked address challenge now earlier p in ground arith

  -- After whatever sign-in requests, from no pending challenge, a verification gives a session
  -- token only for its own address, with a signature of the challenge that checks, and only if
  -- that address had asked for just this challenge at most five minutes before.
  pub verify_challenge_sound :
      (address challenge signature now signer : ℕ) (token : List ℕ)
      (requests : List (SignInRequest × ℕ))
      → (verify_challenge W C session_ttl address challenge signature now
          (sign_in_all W C session_ttl requests [])).0
        ≡ token_data token signer
      → (signer ≡ address)
        × (token ≡ create_session_token C address (now / 1000) session_ttl)
        × (W.verify_signature address challenge signature ≡ true)
        × (any (asked address challenge now) requests ≡ true)
  unfolding verify_challenge
  verify_challenge_sound address challenge signature now signer token requests h =
      let before = sign_in_all W C session_ttl requests [] in
      let current = prune_expired_challenges now before in
      let kept = prune_all (is_backed requests) now before (all_backed requests) in
      elim (Option-cases (get_pending address current)) [
        | inl e ↦ absurd (ground arith)
        | inr (p, e) ↦ elim (Bool-cases (p.challenge == challenge)) [
          | inr f ↦ absurd (ground arith)
          | inl t ↦
              let (backed, own) = get_all (is_current requests now) address current p kept e in
              let there = backed-asked address challenge now requests p backed own (ground arith) in
              elim (Bool-cases (W.verify_signature address challenge signature)) [
                | inr bad ↦ absurd (ground arith)
                | inl good ↦ (ground arith, ground arith, good, there)
              ]
        ]
      ]
