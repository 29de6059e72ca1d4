-- ===== src/Http/Guards.antt =====
-- backend/src/api/middleware/auth.ts: `requireAuth`, `requireCommunityRole` and `requireAdmin`.
-- Addresses, roles and ids are numbers, since they are only compared.
use coop_lumen_index.Base.{
  ℕ, ◌≡◌, ◌≢◌, refl, inl, inr, Bool, true, false, ◌&&◌, Option, none, some, List, [], ◌∷◌, arith,
  if◌then◌else◌, ◌==◌, find, any, Bool-cases, Option-cases, ap, sym,
}
use coop_lumen_index.Http.Tokens.{
  Crypto, SessionPayload, IsSigned, verify_session_token, verify_session_token_sound,
}

-- The Authorization header: none, one that starts with 'Bearer ' with the parts of what follows,
-- or another.
pub data Header : Type 0 where
  no_header other_scheme : Header
  bearer : List ℕ → Header

-- What a middleware does: it answers, or passes the request on with the address in `req.auth`.
pub data Verdict : Type 0 where
  authentication_required invalid_token requires_role requires_operator : Verdict
  passes : ℕ → Verdict

pub record Member : Type 0 where
  pub community_id : ℕ
  pub stellar_address : ℕ
  pub role : ℕ
  pub joined_at : ℕ
  pub deleted_at : Option ℕ

abbrev pub contains : ℕ → List ℕ → Bool
contains x = any λ y. y == x

abbrev is_present : Option ℕ → Bool
is_present none = true
is_present (some _) = false

-- SELECT role FROM members WHERE community_id = $1 AND stellar_address = $2 AND deleted_at IS NULL
abbrev pub is_member : ℕ → ℕ → Member → Bool
is_member community address m =
    (m.community_id == community) && (m.stellar_address == address) && is_present m.deleted_at

unfoldable pub find_member : ℕ → ℕ → List Member → Option Member
find_member community address members = find (is_member community address) members

unfoldable pub require_community_role : List ℕ → ℕ → List Member → Option ℕ → Verdict
require_community_role roles community members none = authentication_required
require_community_role roles community members (some address) =
    elim (find_member community address members) [
      | none ↦ requires_role
      | some member ↦ if contains member.role roles then passes address else requires_role
    ]

-- `readAdminAddresses`, of the trimmed parts of ADMIN_ADDRESSES; 0 is the empty text.
unfoldable pub read_admin_addresses : List ℕ → List ℕ
read_admin_addresses [] = []
read_admin_addresses (part ∷ parts) =
    let rest = read_admin_addresses parts in if part == 0 then rest else part ∷ rest

unfoldable pub require_admin : List ℕ → Option ℕ → Verdict
unfolding read_admin_addresses
require_admin parts none = authentication_required
require_admin parts (some address) =
    if contains address (read_admin_addresses parts) then passes address else requires_operator

module _ (C : Crypto) where
  abbrev pub with_payload : Option SessionPayload → Verdict
  with_payload none = invalid_token
  with_payload (some payload) = passes payload.address

  unfoldable pub require_auth : Header → ℕ → Verdict
  require_auth no_header now = authentication_required
  require_auth other_scheme now = authentication_required
  require_auth (bearer token) now = with_payload (verify_session_token C token now)

  -- A request passes requireAuth only with a token that is signed under the session secret, has
  -- not expired, and was issued to the address that the request then acts for.
  pub require_auth_sound :
      (header : Header) (now address : ℕ)
      → require_auth header now ≡ passes address
      → (token : List ℕ) × (payload : SessionPayload) × (header ≡ bearer token)
        × (payload.address ≡ address)
        × IsSigned C token now payload
  unfolding require_auth
  require_auth_sound no_header now address h = absurd (ground arith)
  require_auth_sound other_scheme now address h = absurd (ground arith)
  require_auth_sound (bearer token) now address h =
      elim (Option-cases (verify_session_token C token now)) [
        | inl e ↦ absurd (ground arith)
        | inr (payload, e) ↦
            (token, payload, refl, ground arith, verify_session_token_sound C token now payload e)
      ]

any-find {ℓ} :
    {A : Type ℓ} (p q : A → Bool) (xs : List A) (x : A)
    → find p xs ≡ some x
    → q x ≡ true
    → any (λ y. p y && q y) xs ≡ true
any-find p q [] x h k = absurd (ground arith)
any-find p q (y ∷ ys) x h k = elim (Bool-cases (p y)) [
  | inl t ↦ let same : y ≡ x = ground arith in ground arith
  | inr n ↦ let rest = any-find p q ys x (ground arith) k in ground arith
]

-- A request passes requireCommunityRole only if its address is an active member of the community
-- with one of the roles.
pub require_community_role_sound :
    (roles : List ℕ) (community : ℕ) (members : List Member) (auth : Option ℕ) (address : ℕ)
    → require_community_role roles community members auth ≡ passes address
    → (auth ≡ some address)
      × (any (λ m. is_member community address m && contains m.role roles) members ≡ true)
unfolding require_community_role find_member
require_community_role_sound roles community members none address h = absurd (ground arith)
require_community_role_sound roles community members (some a) address h =
    elim (Option-cases (find_member community a members)) [
      | inl e ↦ absurd (ground arith)
      | inr (member, e) ↦ elim (Bool-cases (contains member.role roles)) [
        | inr n ↦ absurd (ground arith)
        | inl held ↦
            let same : a ≡ address = ground arith in
            (
              ap some same,
              rw (sym same) (
                  any-find (is_member community a) (λ m. contains m.role roles) members member e
                    held),
            )
      ]
    ]

read_keeps :
    (a : ℕ) (parts : List ℕ)
    → contains a (read_admin_addresses parts) ≡ true
    → (a ≢ 0) × (contains a parts ≡ true)
unfolding read_admin_addresses
read_keeps a [] h = absurd (ground arith)
read_keeps a (part ∷ parts) h = elim (Bool-cases (part == 0)) [
  | inl z ↦ let rest = read_keeps a parts (ground arith) in ground arith
  | inr n ↦ elim (Bool-cases (part == a)) [
    | inl e ↦ ground arith
    | inr d ↦ let rest = read_keeps a parts (ground arith) in ground arith
  ]
]

-- A request passes requireAdmin only if its address is not empty and stands in ADMIN_ADDRESSES;
-- so nobody passes if that is empty.
pub require_admin_sound :
    (parts : List ℕ) (auth : Option ℕ) (address : ℕ)
    → require_admin parts auth ≡ passes address
    → (auth ≡ some address) × (address ≢ 0) × (contains address parts ≡ true)
unfolding require_admin
require_admin_sound parts none address h = absurd (ground arith)
require_admin_sound parts (some a) address h =
    let same : a ≡ address = ground arith in
    let listed : contains a (read_admin_addresses parts) ≡ true = ground arith in
    let (nonempty, there) = read_keeps a parts listed in ground arith
