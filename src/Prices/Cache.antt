-- ===== src/Prices/Cache.antt =====
-- backend/src/cache/prices.ts and backend/src/api/routes/prices.ts: the two tiers of the price
-- cache, and the route. A key stands for its currency, since the asset is always XLM.
use coop_lumen_index.Base.{
  ℕ, ◌+◌, ◌*◌, Bool, Option, none, some, List, [], ◌∷◌, if◌then◌else◌, ◌==◌, ltb,
}
use coop_lumen_index.Prices.{XlmPriceResult, Market, Fetched, priced, all_failed, fetch_xlm_price}

abbrev pub price_cache_ttl_seconds : ℕ
price_cache_ttl_seconds = 30

-- Redis behind redis.ts, with JSON; a failure of Redis is an answer of none, or no change. `parse`
-- is none if JSON.parse throws or the value is no price; `is_empty` is the test `!raw`.
pub record Redis : Type 1 where
  pub Contents : Type 0
  pub Raw : Type 0
  pub get : ℕ → ℕ → Contents → Option Raw
  pub set_ex : ℕ → ℕ → Raw → ℕ → Contents → Contents
  pub del : ℕ → ℕ → Contents → Contents
  pub is_empty : Raw → Bool
  pub stringify : XlmPriceResult → Raw
  pub parse : Raw → Option XlmPriceResult

pub record MemoryEntry : Type 0 where
  pub key : ℕ
  pub value : XlmPriceResult
  pub expires_at : ℕ

abbrev pub memory_get : ℕ → List MemoryEntry → Option MemoryEntry
memory_get key [] = none
memory_get key (entry ∷ entries) =
    let rest = memory_get key entries in if entry.key == key then some entry else rest

abbrev pub memory_del : ℕ → List MemoryEntry → List MemoryEntry
memory_del key [] = []
memory_del key (entry ∷ entries) =
    let rest = memory_del key entries in if entry.key == key then rest else entry ∷ rest

abbrev pub memory_set : ℕ → XlmPriceResult → ℕ → List MemoryEntry → List MemoryEntry
memory_set key value now entries =
    record { key = key; value = value; expires_at = now + price_cache_ttl_seconds * 1000 }
    ∷ memory_del key entries

-- The times of a request: when it reads the cache, and when it has fetched a price and stores it.
pub record Times : Type 0 where
  pub reads : ℕ
  pub stores : ℕ

pub data PriceAnswer : Type 0 where
  price_data : XlmPriceResult → PriceAnswer
  no_public_source : PriceAnswer

module _ (R : Redis) where
  open R use {Contents, get, set_ex, del, is_empty, stringify, parse}

  pub record Tiers : Type 0 where
    pub memory : List MemoryEntry
    pub redis : Contents

  -- getCachedPrice after the memory tier.
  unfoldable pub from_redis : ℕ → ℕ → Tiers → Option XlmPriceResult × Tiers
  from_redis key now t = elim (get key now t.redis) [
    | none ↦ (none, t)
    | some raw ↦ if is_empty raw then (none, t) else elim (parse raw) [
      | none ↦ (none, record t { redis = del key now t.redis })
      | some value ↦ (some value, record t { memory = memory_set key value now t.memory })
    ]
  ]

  unfoldable pub get_cached_price : ℕ → ℕ → Tiers → Option XlmPriceResult × Tiers
  get_cached_price key now t = elim (memory_get key t.memory) [
    | none ↦ from_redis key now t
    | some entry ↦
        if ltb entry.expires_at now
        then from_redis key now (record t { memory = memory_del key t.memory })
        else (some entry.value, t)
  ]

  unfoldable pub cache_price : ℕ → XlmPriceResult → ℕ → Tiers → Tiers
  cache_price key value now t = record {
    memory = memory_set key value now t.memory;
    redis = set_ex key price_cache_ttl_seconds (stringify value) now t.redis;
  }

  unfoldable pub clear_price_cache : ℕ → ℕ → Tiers → Tiers
  clear_price_cache key now t = record {
    memory = memory_del key t.memory;
    redis = del key now t.redis;
  }

  abbrev pub fetched_answer : ℕ → ℕ → Tiers → Fetched → PriceAnswer × Tiers
  fetched_answer currency now t (all_failed _) = (no_public_source, t)
  fetched_answer currency now t (priced value) =
      (price_data value, cache_price currency value now t)

  -- GET /prices/xlm with a valid currency.
  unfoldable pub get_xlm_price : Market → ℕ → Times → Tiers → PriceAnswer × Tiers
  get_xlm_price M currency times t =
      let (cached, t') = get_cached_price currency times.reads t in
      elim cached [
        | some value ↦ (price_data value, t')
        | none ↦ fetched_answer currency times.stores t' (fetch_xlm_price M currency)
      ]

  -- A request of the route, and the tiers after some of which the latest comes first.
  pub record PriceRequest : Type 0 where
    pub market : Market
    pub currency : ℕ
    pub times : Times

  unfoldable pub after_requests : List PriceRequest → Tiers → Tiers
  after_requests [] t = t
  after_requests (r ∷ earlier) t =
      (get_xlm_price r.market r.currency r.times (after_requests earlier t)).1
