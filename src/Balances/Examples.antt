-- ===== src/Balances/Examples.antt =====
-- Runs of the cache of balances, with a Redis that holds one entry.
use coop_lumen_index.Base.{
  ℕ, ◌+◌, ◌*◌, ◌≤◌, ◌≡◌, refl, ◌⊎◌, inl, false, Option, none, some, List, [], ◌∷◌, arith, leb, ◌==◌,
  if◌then◌else◌, ◌&&◌,
}
use coop_lumen_index.Balances.{
  BalanceRedis, an_array, get_cached_balances, CacheStep, reads, stores, invalidates,
  after_cache_steps,
}
use coop_lumen_index.Balances.Recent.{
  KeepsForAWhile, Deletes, WasShown, IsRecent, cached_balances_recent,
}

pub record OneEntry : Type 0 where
  pub key : ℕ
  pub raw : ℕ
  pub until : ℕ

abbrev pub entry_get : ℕ → ℕ → Option OneEntry → Option ℕ
entry_get key now none = none
entry_get key now (some e) = if e.key == key && leb now e.until then some e.raw else none

abbrev pub entry_del : ℕ → Option OneEntry → Option OneEntry
entry_del key none = none
entry_del key (some e) = if e.key == key then none else some e

abbrev pub small_redis : BalanceRedis
small_redis = record {
  Lines = ℕ;
  Contents = Option OneEntry;
  Raw = ℕ;
  get = entry_get;
  set_ex = λ key ttl raw now c. some (record { key = key; raw = raw; until = now + ttl * 1000 });
  del = λ key now c. entry_del key c;
  is_empty = λ raw. false;
  stringify = λ lines. lines;
  parse = λ raw. an_array raw;
}

set_found :
    (key key' ttl now later raw raw' : ℕ) (c : Option OneEntry)
    → entry_get key' later (some (record { key = key; raw = raw; until = now + ttl * 1000 }))
      ≡ some raw'
    → ((key' ≡ key) × (raw' ≡ raw) × (later ≤ now + ttl * 1000))
      ⊎ (entry_get key' later c ≡ some raw')
set_found key key' ttl now later raw raw' c h = inl (ground arith, ground arith, ground arith)

del_found :
    (key key' later raw : ℕ) (c : Option OneEntry)
    → entry_get key' later (entry_del key c) ≡ some raw
    → entry_get key' later c ≡ some raw
del_found key key' later raw none h = absurd (ground arith)
del_found key key' later raw (some e) h = ground arith

entry_gone : (key later : ℕ) (c : Option OneEntry) → entry_get key later (entry_del key c) ≡ none
entry_gone key later none = refl
entry_gone key later (some e) = ground arith

pub small_redis_laws : KeepsForAWhile small_redis
small_redis_laws = record {
  get-set_ex = set_found;
  get-del = λ key key' now later raw c h. del_found key key' later raw c h;
  parse-stringify = λ lines. refl;
}

pub small_redis_deletes : Deletes small_redis
small_redis_deletes = record { deleted = λ key now later c. entry_gone key later c }

-- An account's lines, by their number: those of the account 7 are 42 at the time 1000.
abbrev ShowsLines : ℕ → ℕ → ℕ → Type 0
ShowsLines key t lines = (key ≡ 7) × (lines ≡ 42) × (t ≡ 1000)

abbrev busy_steps : List (CacheStep small_redis)
busy_steps = invalidates (some 3 ∷ none ∷ []) 1400 ∷ stores 7 42 1000 1200 ∷ reads 7 900 ∷ []

busy_read :
    (get_cached_balances small_redis 7 1500 (after_cache_steps small_redis busy_steps none)).0
    ≡ some 42
unfolding get_cached_balances after_cache_steps
busy_read = refl

empty-IsRecent : IsRecent small_redis small_redis_laws ShowsLines 300 none
empty-IsRecent = record { kept = λ key now raw lines g p. absurd (ground arith) }

cached_balances_recent_example : WasShown small_redis small_redis_laws ShowsLines 300 7 1500 42
cached_balances_recent_example =
    cached_balances_recent small_redis small_redis_laws ShowsLines 300 busy_steps none 7 1500 42
      (tt, (((refl, refl, refl), omega arith), (tt, tt))) empty-IsRecent busy_read
