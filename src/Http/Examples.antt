-- ===== src/Http/Examples.antt =====
-- The theorems about the middleware at concrete requests.
use text.Mathlib.Text.{◌==◌}
use coop_lumen_index.Base.{
  true, false, ℕ, ◌+◌, ◌*◌, ◌≡◌, refl, ◌&&◌, none, some, List, [], ◌∷◌, arith, if◌then◌else◌, leb,
  Bool, pos, ltb,
}
use coop_lumen_index.Http.Pages.{Texts, PageParams}
use coop_lumen_index.Http.Tokens.{
  SessionPayload, Crypto, RoundTrips, IsSigned, payload_at, create_session_token,
  verify_session_token, verify_session_token_sound, verify-create_session_token,
}
use coop_lumen_index.Http.Guards.{bearer, Member, require_auth, require_auth_sound}
use coop_lumen_index.Http.Webhook.{
  Digests, accepted, verify_webhook_signature, verify_webhook_signature_tail,
}
use coop_lumen_index.Http.Idempotency.{
  Answer, Server, Served, run_handler, finish_insert, idempotent, idempotent_replays,
}

abbrev texts : Texts
texts = record {
  parse_int = λ s. if s == "7" then some (pos 7) else if s == "500" then some (pos 500) else none;
  show = λ n. "20";
  lower = λ s. s;
}

abbrev params : PageParams
params = record { page = 3; limit = 20; offset = 40 }

-- One payload, and its encoding.
abbrev crypto : Crypto
crypto = record {
  sign = λ body. body + 1;
  encode = λ p. 77;
  decode = λ body. if ltb body 100 then some (record { address = 5; iat = 10; exp = 70 }) else none;
}

verify_session_token_sound_example :
    IsSigned crypto (77 ∷ 78 ∷ []) 70 (record { address = 5; iat = 10; exp = 70 })
unfolding verify_session_token
verify_session_token_sound_example =
    verify_session_token_sound crypto (77 ∷ 78 ∷ []) 70 (record { address = 5; iat = 10; exp = 70 })
      refl

crypto-RoundTrips : RoundTrips crypto (payload_at crypto 5 10 60)
crypto-RoundTrips = record {
  decode-encode = refl;
  encode_nonempty = omega arith;
  sign_nonempty = omega arith;
}

verify-create_session_token_example :
    verify_session_token crypto (create_session_token crypto 5 10 60) 71 ≡ none
verify-create_session_token_example =
    verify-create_session_token crypto 5 10 60 71 crypto-RoundTrips

require_auth_sound_example :
    (token : List ℕ) × (payload : SessionPayload) × (bearer (77 ∷ 78 ∷ []) ≡ bearer token)
    × (payload.address ≡ 5)
    × IsSigned crypto token 70 payload
unfolding require_auth verify_session_token
require_auth_sound_example = require_auth_sound crypto (bearer (77 ∷ 78 ∷ [])) 70 5 refl

abbrev caller : ℕ
caller = 5

abbrev members : List Member
members =
    record { community_id = 1; stellar_address = 5; role = 8; joined_at = 1; deleted_at = some 3 }
    ∷ record { community_id = 1; stellar_address = 5; role = 9; joined_at = 2; deleted_at = none }
    ∷ []

-- A mint: the state is the number of tokens.
abbrev mint : ℕ → Answer × ℕ
mint n = (record { status_code = 201; body = n }, n + 1)

abbrev server : Server ℕ
server = record { rows = []; state = 0 }

-- What the first request leaves, with the row of its INSERT.
abbrev minted : Served ℕ
minted = run_handler ℕ 9 1 mint server

idempotent_replays_example :
    let first = idempotent ℕ 1 (some 9) mint server in
    let kept = finish_insert ℕ true first.1 minted.2 in
    (idempotent ℕ 1 (some 9) mint kept ≡ (first.0, none, kept))
    × (idempotent ℕ 1 (some 9) mint (finish_insert ℕ false first.1 minted.2)
        ≡ run_handler ℕ 9 1 mint minted.2)
idempotent_replays_example =
    idempotent_replays ℕ 1 9 mint mint server minted.2 refl (omega arith) refl

abbrev used : Server ℕ
used = record {
  rows = record { key = 9; endpoint = 1; answer = record { status_code = 201; body = 0 } } ∷ [];
  state = 1;
}

abbrev is_hex : ℕ → Bool
is_hex c = leb b'0' c && leb c b'9'

-- Pairs of digits up to the first that is none.
abbrev unhex : List ℕ → List ℕ
unhex [] = []
unhex (a ∷ []) = []
unhex (a ∷ b ∷ rest) =
    let more = unhex rest in if is_hex a && is_hex b then (a * 16 + b) ∷ more else []

abbrev digests : Digests
digests = record { from_hex = unhex; sign = λ key body. b'4' ∷ b'2' ∷ [] }

abbrev payload : List ℕ
payload = b'!' ∷ []

abbrev with_tail : List ℕ
with_tail = b'4' ∷ b'2' ∷ b'z' ∷ b'z' ∷ []

with_tail_accepted :
    verify_webhook_signature digests (some payload) (some with_tail) (some payload) ≡ accepted
with_tail_accepted = verify_webhook_signature_tail digests payload payload (b'z' ∷ b'z' ∷ []) refl
