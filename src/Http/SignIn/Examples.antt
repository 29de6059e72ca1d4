-- ===== src/Http/SignIn/Examples.antt =====
-- The theorems about sign-in at a concrete wallet.
use coop_lumen_index.Base.{ℕ, ◌/◌, ◌+◌, ◌*◌, ◌≡◌, refl, true, none, List, [], ◌∷◌, any, arith, ◌==◌}
use coop_lumen_index.Http.Tokens.{Crypto, create_session_token}
use coop_lumen_index.Http.SignIn.{
  Wallets, SignInRequest, asks_challenge, verifies, no_matching_challenge, sign_in_all, sign_in,
  ask_challenge, verify_challenge, prune_expired_challenges, delete_pending,
}
use coop_lumen_index.Http.SignIn.Issued.{asked, verify_challenge_sound}
use coop_lumen_index.Http.SignIn.Once.{verify_challenge_once}

-- A signature is right if it is the challenge's text with 1 added.
abbrev wallets : Wallets
wallets = record {
  challenge_text = λ address nonce. address * 1000 + nonce;
  verify_signature = λ address challenge signature. signature == challenge + 1;
}

abbrev crypto : Crypto
crypto = record { sign = λ body. body + 1; encode = λ p. 77; decode = λ body. none }

abbrev wallet : ℕ
wallet = 5

-- Two addresses ask, and the other one verifies.
abbrev history : List (SignInRequest × ℕ)
history = (verifies 6 6002 6003, 150) ∷ (asks_challenge 6 2, 120) ∷ (asks_challenge 5 1, 100) ∷ []

verify_challenge_sound_example :
    (wallet ≡ wallet)
    × (create_session_token crypto 5 (300 / 1000) 60
        ≡ create_session_token crypto 5 (300 / 1000) 60)
    × (wallets.verify_signature 5 5001 5002 ≡ true)
    × (any (asked wallets crypto 60 5 5001 300) history ≡ true)
unfolding verify_challenge sign_in_all sign_in ask_challenge prune_expired_challenges delete_pending
verify_challenge_sound_example =
    verify_challenge_sound wallets crypto 60 5 5001 5002 300 5
      (create_session_token crypto 5 (300 / 1000) 60) history refl

-- A wrong signature; the right one comes too late.
verify_challenge_once_example :
    (verify_challenge wallets crypto 60 5 5001 5002 310 (
      sign_in_all wallets crypto 60
        ((asks_challenge 6 3, 305) ∷ [])
        (verify_challenge wallets crypto 60 5 5001 9 300
          (sign_in_all wallets crypto 60 history [])).1)).0
    ≡ no_matching_challenge
unfolding verify_challenge sign_in_all sign_in ask_challenge prune_expired_challenges delete_pending
verify_challenge_once_example =
    verify_challenge_once wallets crypto 60 5 5001 9 5002 300 310
      (sign_in_all wallets crypto 60 history []) ((asks_challenge 6 3, 305) ∷ [])
      (λ e. absurd (ground arith)) refl
