-- ===== src/Prices/Freshness.antt =====
-- How old a price may be that the route serves.
use coop_lumen_index.Base.{
  ℕ, ◌+◌, ◌*◌, ◌≤◌, ◌≡◌, refl, ap, ◌∙◌, inl, inr, ◌⊎◌, Option, some, List, [], ◌∷◌, arith, All,
  ◌==◌, ltb, Bool-cases, Option-cases,
}
use coop_lumen_index.Prices.{XlmPriceResult, Market, Fetched, priced, all_failed, fetch_xlm_price}
use coop_lumen_index.Prices.Cache.{
  Redis, Tiers, MemoryEntry, memory_get, memory_set, memory_del, Times, price_data,
  price_cache_ttl_seconds, from_redis, get_cached_price, cache_price, get_xlm_price, fetched_answer,
  PriceRequest, after_requests,
}

module _ (R : Redis) where
  open R use {Contents, Raw, get, set_ex, del, is_empty, stringify, parse}

  -- Redis gives nothing that was not stored, and nothing after its time; JSON reads back a price.
  pub record StoresForAWhile : Type 0 where
    pub get-set_ex :
        (key key' ttl now later : ℕ) (raw raw' : Raw) (s : Contents)
        → get key' later (set_ex key ttl raw now s) ≡ some raw'
        → ((raw' ≡ raw) × (later ≤ now + ttl * 1000)) ⊎ (get key' later s ≡ some raw')
    pub get-del :
        (key key' now later : ℕ) (raw : Raw) (s : Contents)
        → get key' later (del key now s) ≡ some raw
        → get key' later s ≡ some raw
    pub parse-stringify : (price : XlmPriceResult) → parse (stringify price) ≡ some price

  module _ (laws : StoresForAWhile) (delay : ℕ) where
    -- An entry in memory ends at most 60 seconds after its price was in the cache first.
    abbrev IsRecent : MemoryEntry → Type 0
    IsRecent entry = entry.expires_at ≤ entry.value.timestamp + delay + 60000

    pub record IsFresh (t : Tiers R) : Type 0 where
      pub memory_recent : All IsRecent t.memory
      pub redis_recent :
          (key now : ℕ) (raw : Raw) (price : XlmPriceResult)
          → get key now t.redis ≡ some raw
          → parse raw ≡ some price
          → now ≤ price.timestamp + delay + 30000

    memory_get-IsRecent :
        (key : ℕ) (entries : List MemoryEntry) (entry : MemoryEntry)
        → All IsRecent entries
        → memory_get key entries ≡ some entry
        → IsRecent entry
    memory_get-IsRecent key [] entry h e = absurd (ground arith)
    memory_get-IsRecent key (x ∷ xs) entry h e = elim (Bool-cases (x.key == key)) [
      | inl t ↦ let same : x ≡ entry = ground arith in let head = h.0 in ground arith
      | inr f ↦ memory_get-IsRecent key xs entry h.1 (ground arith)
    ]

    memory_del-IsRecent :
        (key : ℕ) (entries : List MemoryEntry)
        → All IsRecent entries
        → All IsRecent (memory_del key entries)
    memory_del-IsRecent key [] h = tt
    memory_del-IsRecent key (x ∷ xs) h = elim (Bool-cases (x.key == key)) [
      | inl t ↦ rw t (memory_del-IsRecent key xs h.1)
      | inr f ↦ rw f (h.0, memory_del-IsRecent key xs h.1)
    ]

    deleted :
        (key now : ℕ) (t : Tiers R) → IsFresh t → IsFresh (record t { redis = del key now t.redis })
    deleted key now t h = record {
      memory_recent = h.memory_recent;
      redis_recent = λ k later raw price g q.
          h.redis_recent k later raw price (laws.get-del key k now later raw t.redis g) q;
    }

    warmed :
        (key now : ℕ) (value : XlmPriceResult) (t : Tiers R)
        → IsFresh t
        → now ≤ value.timestamp + delay + 30000
        → IsFresh (record t { memory = memory_set key value now t.memory })
    warmed key now value t h recent = record {
      memory_recent = (omega arith, memory_del-IsRecent key t.memory h.memory_recent);
      redis_recent = h.redis_recent;
    }

    -- What a reading of the cache gives.
    abbrev Reads : ℕ → Option XlmPriceResult × Tiers R → Type 0
    Reads now (cached, t) =
        IsFresh t
        × ((price : XlmPriceResult) → cached ≡ some price → now ≤ price.timestamp + delay + 60000)

    from_redis-Reads : (key now : ℕ) (t : Tiers R) → IsFresh t → Reads now (from_redis R key now t)
    unfolding from_redis
    from_redis-Reads key now t h = elim (Option-cases (get key now t.redis)) [
      | inl e ↦ rw (e, from_redis) (h, λ price k. absurd (ground arith))
      | inr (raw, e) ↦ elim (Bool-cases (is_empty raw)) [
        | inl z ↦ rw (e, z, from_redis) (h, λ price k. absurd (ground arith))
        | inr z ↦ elim (Option-cases (parse raw)) [
          | inl p ↦ rw (e, z, p, from_redis) (deleted key now t h, λ price k. absurd (ground arith))
          | inr (value, p) ↦
              let recent = h.redis_recent key now raw value e p in
              rw (e, z, p, from_redis)
                (
                  warmed key now value t h recent,
                  λ price k. let same : value ≡ price = ground arith in ground arith,
                )
        ]
      ]
    ]

    get_cached_price-Reads :
        (key now : ℕ) (t : Tiers R) → IsFresh t → Reads now (get_cached_price R key now t)
    unfolding get_cached_price
    get_cached_price-Reads key now t h = elim (Option-cases (memory_get key t.memory)) [
      | inl e ↦ rw (e, get_cached_price) (from_redis-Reads key now t h)
      | inr (entry, e) ↦
          let recent = memory_get-IsRecent key t.memory entry h.memory_recent e in
          elim (Bool-cases (ltb entry.expires_at now)) [
            | inl old ↦
                rw (e, old, get_cached_price)
                  (from_redis-Reads key now (record t { memory = memory_del key t.memory })
                    (record {
                      memory_recent = memory_del-IsRecent key t.memory h.memory_recent;
                      redis_recent = h.redis_recent;
                    }))
            | inr current ↦
                rw (e, current, get_cached_price)
                  (h, λ price k. let same : entry.value ≡ price = ground arith in ground arith)
          ]
    ]

    cache_price-IsFresh :
        (key now : ℕ) (value : XlmPriceResult) (t : Tiers R)
        → IsFresh t
        → now ≤ value.timestamp + delay
        → IsFresh (cache_price R key value now t)
    unfolding cache_price
    cache_price-IsFresh key now value t h k = record {
      memory_recent = (omega arith, memory_del-IsRecent key t.memory h.memory_recent);
      redis_recent = λ key' later raw price g q.
          elim (laws.get-set_ex key key' price_cache_ttl_seconds now later (stringify value) raw
            t.redis g) [
              | inr old ↦ h.redis_recent key' later raw price old q
              | inl (same, soon) ↦
                  let own = laws.parse-stringify value in
                  let price_is : value ≡ price = ground arith in ground arith
            ];
    }

    -- The sources answer after the request reads the cache, and their price is stored in time.
    abbrev pub IsTimely : Market → ℕ → Times → Type 0
    IsTimely M currency times =
        (price : XlmPriceResult)
        → fetch_xlm_price M currency ≡ priced price
        → (times.reads ≤ price.timestamp) × (times.stores ≤ price.timestamp + delay)

    fetched_fresh :
        (currency : ℕ) (times : Times) (t : Tiers R) (fetched : Fetched)
        → IsFresh t
        → ((price : XlmPriceResult)
            → fetched ≡ priced price
            → (times.reads ≤ price.timestamp) × (times.stores ≤ price.timestamp + delay))
        → IsFresh (fetched_answer R currency times.stores t fetched).1
          × ((price : XlmPriceResult)
              → (fetched_answer R currency times.stores t fetched).0 ≡ price_data price
              → times.reads ≤ price.timestamp + delay + 60000)
    fetched_fresh currency times t (all_failed sources) h timely =
        (h, λ price e. absurd (ground arith))
    fetched_fresh currency times t (priced value) h timely =
        let (after, soon) = timely value refl in
        (
          cache_price-IsFresh currency times.stores value t h soon,
          λ price e. let same : value ≡ price = ground arith in ground arith,
        )

    get_xlm_price-IsFresh :
        (M : Market) (currency : ℕ) (times : Times) (t : Tiers R)
        → IsFresh t
        → IsTimely M currency times
        → IsFresh (get_xlm_price R M currency times t).1
          × ((price : XlmPriceResult)
              → (get_xlm_price R M currency times t).0 ≡ price_data price
              → times.reads ≤ price.timestamp + delay + 60000)
    unfolding get_xlm_price
    get_xlm_price-IsFresh M currency times t h timely =
        let (fresh, served) = get_cached_price-Reads currency times.reads t h in
        elim (Option-cases (get_cached_price R currency times.reads t).0) [
          | inr (value, e) ↦
              rw (e, get_xlm_price)
                (
                  fresh,
                  λ price k.
                      let same : value ≡ price = ground arith in served price (e ∙ ap some same),
                )
          | inl e ↦
              rw (e, get_xlm_price)
                (fetched_fresh currency times (get_cached_price R currency times.reads t).1
                  (fetch_xlm_price M currency) fresh timely)
        ]

    after_requests-IsFresh :
        (requests : List (PriceRequest R)) (t : Tiers R)
        → IsFresh t
        → All (λ r. IsTimely r.market r.currency r.times) requests
        → IsFresh (after_requests R requests t)
    unfolding after_requests
    after_requests-IsFresh [] t h timely = h
    after_requests-IsFresh (r ∷ earlier) t h timely =
        (get_xlm_price-IsFresh r.market r.currency r.times (after_requests R earlier t)
          (after_requests-IsFresh earlier t h timely.1) timely.0).0

    -- After whatever requests, from a cache that is fresh, as an empty one is, a price that the
    -- route serves was fetched at most 60 seconds, and the delay with which prices are stored,
    -- before the request, if Redis gives nothing that was not stored and nothing after its time,
    -- JSON reads back prices, and each fetched price is stored within that delay.
    pub served_price_fresh :
        (requests : List (PriceRequest R)) (t : Tiers R) (M : Market) (currency : ℕ) (times : Times)
        (price : XlmPriceResult)
        → IsFresh t
        → All (λ r. IsTimely r.market r.currency r.times) requests
        → IsTimely M currency times
        → (get_xlm_price R M currency times (after_requests R requests t)).0 ≡ price_data price
        → times.reads ≤ price.timestamp + delay + 60000
    served_price_fresh requests t M currency times price h earlier timely e =
        (get_xlm_price-IsFresh M currency times (after_requests R requests t)
            (after_requests-IsFresh requests t h earlier) timely).1
          price e
