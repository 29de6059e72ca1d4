-- ===== src/Prices/Examples.antt =====
-- The theorems about prices at concrete sources and times.
use coop_lumen_index.Base.{
  ℕ, ◌+◌, ◌*◌, ◌≤◌, ◌≡◌, refl, inl, inr, ◌⊎◌, false, ◌&&◌, Option, none, some, List, [], ◌∷◌, arith,
  if◌then◌else◌, ◌==◌, leb, All, Bool-cases,
}
use coop_lumen_index.Prices.{
  Source, coingecko, binance, XlmPriceResult, positive, not_ok, quoted, Market, priced, all_failed,
  fetch_xlm_price, first_price, usd,
}
use coop_lumen_index.Prices.Waterfall.{Fails, in_order, IsFirst, fetch_xlm_price-IsFirst}
use coop_lumen_index.Prices.Cache.{
  PriceRequest, after_requests, from_redis, cache_price, Redis, Tiers, Times, price_data,
  get_cached_price, get_xlm_price,
}
use coop_lumen_index.Prices.Freshness.{StoresForAWhile, IsFresh, IsTimely, served_price_fresh}

-- CoinGecko is down, and Binance has a price.
abbrev market : Market
market = record {
  reply = λ source currency. elim source [ coingecko ↦ not_ok | _ ↦ quoted (positive 11) ];
  time = λ source. 1000;
}

fetch_xlm_price-IsFirst_example :
    ((price : XlmPriceResult) × (fetch_xlm_price market usd ≡ priced price)
      × IsFirst market usd in_order price)
    ⊎ ((all : List Source) × (fetch_xlm_price market usd ≡ all_failed all)
        × All (Fails market usd) in_order)
fetch_xlm_price-IsFirst_example = fetch_xlm_price-IsFirst market usd

record Cell : Type 0 where
  key : ℕ
  value : XlmPriceResult
  expires : ℕ

abbrev stored : ℕ → ℕ → List Cell → Option XlmPriceResult
stored key now [] = none
stored key now (c ∷ cs) =
    let rest = stored key now cs in
    if (c.key == key) && leb now c.expires then some c.value else rest

abbrev without_key : ℕ → List Cell → List Cell
without_key key [] = []
without_key key (c ∷ cs) = let rest = without_key key cs in if c.key == key then rest else c ∷ rest

abbrev redis : Redis
redis = record {
  Contents = List Cell;
  Raw = XlmPriceResult;
  get = stored;
  set_ex =
      λ key ttl value now cs. record { key = key; value = value; expires = now + ttl * 1000 } ∷ cs;
  del = λ key now cs. without_key key cs;
  is_empty = λ raw. false;
  stringify = λ price. price;
  parse = some;
}

deleted_key : (key later : ℕ) (cs : List Cell) → stored key later (without_key key cs) ≡ none
deleted_key key later [] = refl
deleted_key key later (c ∷ cs) = let rest = deleted_key key later cs in ground arith

get-del :
    (key key' now later : ℕ) (raw : XlmPriceResult) (cs : List Cell)
    → stored key' later (without_key key cs) ≡ some raw
    → stored key' later cs ≡ some raw
get-del key key' now later raw [] h = h
get-del key key' now later raw (c ∷ cs) h =
    let none_left = deleted_key key later cs in
    let rest = get-del key key' now later raw cs in ground arith

redis_laws : StoresForAWhile redis
redis_laws = record {
  get-set_ex = λ key key' ttl now later raw raw' s h.
      elim (Bool-cases ((key == key') && leb later (now + ttl * 1000))) [
        | inl t ↦ inl (ground arith)
        | inr f ↦ inr (ground arith)
      ];
  get-del = get-del;
  parse-stringify = λ price. refl;
}

abbrev old_price : XlmPriceResult
old_price = record { currency = usd; price = 11; source = binance; timestamp = 1000 }

-- A process that has read the price from Redis 29 seconds after it was fetched.
abbrev warmed : Tiers redis
warmed = record {
  memory = record { key = usd; value = old_price; expires_at = 60000 } ∷ [];
  redis = record { key = usd; value = old_price; expires = 31000 } ∷ [];
}

warmed-IsFresh : IsFresh redis redis_laws 400 warmed
warmed-IsFresh = record {
  memory_recent = (omega arith, tt);
  redis_recent = λ key now raw price g q. ground arith;
}

abbrev times : Times
times = record { reads = 59000; stores = 59500 }

-- The price is served 58 seconds after it was fetched.
served_after_58_seconds : (get_xlm_price redis market usd times warmed).0 ≡ price_data old_price
unfolding get_xlm_price get_cached_price
served_after_58_seconds = refl

abbrev later_market : Market
later_market = record market { time = λ source. 59200 }

abbrev first_request : PriceRequest redis
first_request = record {
  market = market;
  currency = usd;
  times = record { reads = 900; stores = 1100 };
}

abbrev empty_tiers : Tiers redis
empty_tiers = record { memory = []; redis = [] }

empty-IsFresh : IsFresh redis redis_laws 400 empty_tiers
empty-IsFresh = record {
  memory_recent = tt;
  redis_recent = λ key now raw price g q. absurd (ground arith);
}

first-IsTimely : IsTimely redis redis_laws 400 market usd (first_request.times)
unfolding fetch_xlm_price first_price
first-IsTimely price h = ground arith

abbrev second_times : Times
second_times = record { reads = 30000; stores = 30500 }

second-IsTimely : IsTimely redis redis_laws 400 later_market usd second_times
unfolding fetch_xlm_price first_price
second-IsTimely price h = ground arith

-- The second request is answered from memory.
served :
    (get_xlm_price redis later_market usd second_times
      (after_requests redis (first_request ∷ []) empty_tiers)).0
    ≡ price_data old_price
unfolding get_xlm_price get_cached_price from_redis cache_price after_requests fetch_xlm_price
    first_price
served = refl

served_price_fresh_example : second_times.reads ≤ old_price.timestamp + 400 + 60000
served_price_fresh_example =
    served_price_fresh redis redis_laws 400 (first_request ∷ []) empty_tiers later_market usd
      second_times old_price empty-IsFresh (first-IsTimely, tt) second-IsTimely served
