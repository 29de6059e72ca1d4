-- ===== src/Balances.antt =====
-- backend/src/cache/balances.ts, and GET /balances/:publicKey of backend/src/api/routes/balances.ts. A
-- key stands for its public key. Redis is behind redis.ts, where a failure is no answer or no change.
pub mod Recent
pub mod Gone
pub mod Examples
use coop_lumen_index.Base.{
  ℕ, Bool, true, false, Option, none, some, List, [], ◌∷◌, if◌then◌else◌, ◌==◌, any, ◌⊎◌, inl, inr,
}
use coop_lumen_index.Stellar.Errors.{Thrown}
use coop_lumen_index.TokenRoutes.{ErrorAnswer, build_failed}

abbrev pub balance_cache_ttl_seconds : ℕ
balance_cache_ttl_seconds = 5

-- What JSON.parse gives of a cached text.
pub data Parsed (Lines : Type 0) : Type 0 where
  unreadable not_array : Parsed Lines
  an_array : Lines → Parsed Lines

-- `is_empty` is the test `!cached`, `Lines` the balance lines of an account.
pub record BalanceRedis : Type 1 where
  pub Lines : Type 0
  pub Contents : Type 0
  pub Raw : Type 0
  pub get : ℕ → ℕ → Contents → Option Raw
  pub set_ex : ℕ → ℕ → Raw → ℕ → Contents → Contents
  pub del : ℕ → ℕ → Contents → Contents
  pub is_empty : Raw → Bool
  pub stringify : Lines → Raw
  pub parse : Raw → Parsed Lines

-- `new Set(publicKeys.filter(Boolean))`, where none is a key that is missing or empty.
abbrev pub known_keys : List (Option ℕ) → List ℕ
known_keys [] = []
known_keys (none ∷ keys) = known_keys keys
known_keys (some key ∷ keys) = key ∷ known_keys keys

abbrev pub distinct : List ℕ → List ℕ → List ℕ
distinct seen [] = []
distinct seen (key ∷ keys) = elim (any (λ k. k == key) seen) [
  | true ↦ distinct seen keys
  | false ↦ key ∷ distinct (key ∷ seen) keys
]

-- The answer of the route. `invalid_lines` has status 502.
pub data BalanceAnswer (Lines : Type 0) : Type 0 where
  balances : Lines → BalanceAnswer Lines
  invalid_lines : BalanceAnswer Lines
  balance_failed : ErrorAnswer → BalanceAnswer Lines

module _ (R : BalanceRedis) where
  open R use {Lines, Contents, get, set_ex, del, is_empty, stringify, parse}

  abbrev pub parsed_lines : ℕ → ℕ → Contents → Parsed Lines → Option Lines × Contents
  parsed_lines key now c (an_array lines) = (some lines, c)
  parsed_lines key now c unreadable = (none, del key now c)
  parsed_lines key now c not_array = (none, del key now c)

  unfoldable pub get_cached_balances : ℕ → ℕ → Contents → Option Lines × Contents
  get_cached_balances key now c = elim (get key now c) [
    | none ↦ (none, c)
    | some raw ↦ if is_empty raw then (none, c) else parsed_lines key now c (parse raw)
  ]

  unfoldable pub cache_balances : ℕ → Lines → ℕ → Contents → Contents
  cache_balances key lines now c = set_ex key balance_cache_ttl_seconds (stringify lines) now c

  abbrev pub del_each : List ℕ → ℕ → Contents → Contents
  del_each [] now c = c
  del_each (key ∷ keys) now c = del_each keys now (del key now c)

  unfoldable pub invalidate_balance_cache : List (Option ℕ) → ℕ → Contents → Contents
  invalidate_balance_cache keys now c = del_each (distinct [] (known_keys keys)) now c

  -- What follows the call of Horizon, which answers lines, something else, or throws.
  abbrev pub answered : ℕ → ℕ → Contents → Thrown ⊎ Option Lines → BalanceAnswer Lines × Contents
  answered key now c (inl err) = (balance_failed (build_failed err), c)
  answered key now c (inr none) = (invalid_lines, c)
  answered key now c (inr (some lines)) = (balances lines, cache_balances key lines now c)

  -- The route with a valid key: the times when it reads the cache and when it writes it.
  unfoldable pub get_balances :
      (ℕ → Thrown ⊎ Option Lines) → ℕ → ℕ → ℕ → Contents → BalanceAnswer Lines × Contents
  unfolding get_cached_balances cache_balances
  get_balances horizon key reads stores c =
      let (cached, c') = get_cached_balances key reads c in
      elim cached [
        | some lines ↦ (balances lines, c')
        | none ↦ answered key stores c' (horizon key)
      ]

  -- The cache under requests and payments that interleave: each step is one call of Redis. `stores`
  -- has the time at which its lines were fetched.
  pub data CacheStep : Type 0 where
    reads : (key now : ℕ) → CacheStep
    stores : (key : ℕ) (lines : Lines) (fetched now : ℕ) → CacheStep
    invalidates : (keys : List (Option ℕ)) (now : ℕ) → CacheStep

  unfoldable pub cache_step : CacheStep → Contents → Contents
  unfolding get_cached_balances cache_balances invalidate_balance_cache
  cache_step (reads key now) c = (get_cached_balances key now c).1
  cache_step (stores key lines fetched now) c = cache_balances key lines now c
  cache_step (invalidates keys now) c = invalidate_balance_cache keys now c

  -- After some steps, of which the latest comes first.
  unfoldable pub after_cache_steps : List CacheStep → Contents → Contents
  unfolding cache_step
  after_cache_steps [] c = c
  after_cache_steps (s ∷ earlier) c = cache_step s (after_cache_steps earlier c)
