-- ===== src/Balances/Recent.antt =====
-- backend/src/cache/balances.ts: how old cached balances may be, and what an invalidation does.
use coop_lumen_index.Base.{
  ℕ, ◌+◌, ◌*◌, ◌≤◌, ◌≡◌, sym, ap, ◌∙◌, ◌⊎◌, inl, inr, none, some, List, [], ◌∷◌, arith, All,
  Bool-cases, Option-cases,
}
use coop_lumen_index.Balances.{
  BalanceRedis, Parsed, unreadable, not_array, an_array, known_keys, distinct, parsed_lines,
  get_cached_balances, cache_balances, del_each, CacheStep, reads, stores, invalidates, cache_step,
  after_cache_steps,
}

array_same : {Lines : Type 0} (a b : Lines) → an_array a ≡ an_array b → a ≡ b
array_same a b h = ground arith

module _ (R : BalanceRedis) where
  open R use {Lines, Contents, Raw, get, set_ex, del, is_empty, stringify, parse}

  -- Redis gives nothing that was not stored under the key, and nothing after its time; a deletion, which
  -- may fail, adds nothing; JSON reads back an array.
  pub record KeepsForAWhile : Type 0 where
    pub get-set_ex :
        (key key' ttl now later : ℕ) (raw raw' : Raw) (c : Contents)
        → get key' later (set_ex key ttl raw now c) ≡ some raw'
        → ((key' ≡ key) × (raw' ≡ raw) × (later ≤ now + ttl * 1000))
          ⊎ (get key' later c ≡ some raw')
    pub get-del :
        (key key' now later : ℕ) (raw : Raw) (c : Contents)
        → get key' later (del key now c) ≡ some raw
        → get key' later c ≡ some raw
    pub parse-stringify : (lines : Lines) → parse (stringify lines) ≡ an_array lines

  -- Deletions succeed: nothing is found under a key that was deleted.
  pub record Deletes : Type 0 where
    pub deleted : (key now later : ℕ) (c : Contents) → get key later (del key now c) ≡ none

  -- `Shows key t lines`: Horizon shows the account with these lines at the time.
  module _ (laws : KeepsForAWhile) (Shows : ℕ → ℕ → Lines → Type 0) (delay : ℕ) where
    pub record WasShown (key now : ℕ) (lines : Lines) : Type 0 where
      pub fetched : ℕ
      pub shown : Shows key fetched lines
      pub recent : now ≤ fetched + delay + 5000

    pub record IsRecent (c : Contents) : Type 0 where
      pub kept :
          (key now : ℕ) (raw : Raw) (lines : Lines)
          → get key now c ≡ some raw
          → parse raw ≡ an_array lines
          → WasShown key now lines

    -- What is stored was fetched from Horizon, at most `delay` before.
    abbrev pub IsHonest : CacheStep R → Type 0
    IsHonest (reads key now) = Unit
    IsHonest (stores key lines fetched now) = Shows key fetched lines × (now ≤ fetched + delay)
    IsHonest (invalidates keys now) = Unit

    del-IsRecent : (key now : ℕ) (c : Contents) → IsRecent c → IsRecent (del key now c)
    del-IsRecent key now c h = record {
      kept = λ k later raw lines g p.
          h.kept k later raw lines (laws.get-del key k now later raw c g) p;
    }

    del_each-IsRecent :
        (keys : List ℕ) (now : ℕ) (c : Contents) → IsRecent c → IsRecent (del_each R keys now c)
    del_each-IsRecent [] now c h = h
    del_each-IsRecent (key ∷ keys) now c h = del_each-IsRecent keys now _ (del-IsRecent key now c h)

    parsed-IsRecent :
        (key now : ℕ) (c : Contents) (p : Parsed Lines)
        → IsRecent c
        → IsRecent (parsed_lines R key now c p).1
    parsed-IsRecent key now c unreadable h = del-IsRecent key now c h
    parsed-IsRecent key now c not_array h = del-IsRecent key now c h
    parsed-IsRecent key now c (an_array lines) h = h

    read-IsRecent :
        (key now : ℕ) (c : Contents) → IsRecent c → IsRecent (get_cached_balances R key now c).1
    unfolding get_cached_balances
    read-IsRecent key now c h = elim (Option-cases (get key now c)) [
      | inl e ↦ rw (e, get_cached_balances) h
      | inr (raw, e) ↦ elim (Bool-cases (is_empty raw)) [
        | inl z ↦ rw (e, z, get_cached_balances) h
        | inr z ↦ rw (e, z, get_cached_balances) (parsed-IsRecent key now c (parse raw) h)
      ]
    ]

    store-IsRecent :
        (key : ℕ) (lines : Lines) (fetched now : ℕ) (c : Contents)
        → Shows key fetched lines
        → now ≤ fetched + delay
        → IsRecent c
        → IsRecent (cache_balances R key lines now c)
    unfolding cache_balances
    store-IsRecent key lines fetched now c shown le h = record {
      kept = λ k later raw found g p.
          elim (laws.get-set_ex key k 5 now later (stringify lines) raw c g) [
            | inr old ↦ h.kept k later raw found old p
            | inl (same_key, same_raw, inside) ↦
                let same_lines : lines ≡ found =
                  array_same _ _ (sym (laws.parse-stringify lines) ∙ ap parse (sym same_raw) ∙ p) in
                rw (same_key, ← same_lines)
                  (record { fetched = fetched; shown = shown; recent = omega arith })
          ];
    }

    cache_step-IsRecent :
        (s : CacheStep R) (c : Contents) → IsHonest s → IsRecent c → IsRecent (cache_step R s c)
    unfolding cache_step
    cache_step-IsRecent (reads key now) c honest h = read-IsRecent key now c h
    cache_step-IsRecent (stores key lines fetched now) c (shown, le) h =
        store-IsRecent key lines fetched now c shown le h
    cache_step-IsRecent (invalidates keys now) c honest h =
        del_each-IsRecent (distinct [] (known_keys keys)) now c h

    after_steps-IsRecent :
        (steps : List (CacheStep R)) (c : Contents)
        → All IsHonest steps
        → IsRecent c
        → IsRecent (after_cache_steps R steps c)
    unfolding after_cache_steps
    after_steps-IsRecent [] c honest h = h
    after_steps-IsRecent (s ∷ earlier) c (here, honest) h =
        cache_step-IsRecent s _ here (after_steps-IsRecent earlier c honest h)

    parsed_found :
        (key now : ℕ) (c : Contents) (p : Parsed Lines) (lines : Lines)
        → (parsed_lines R key now c p).0 ≡ some lines
        → p ≡ an_array lines
    parsed_found key now c unreadable lines e = absurd (ground arith)
    parsed_found key now c not_array lines e = absurd (ground arith)
    parsed_found key now c (an_array found) lines e = ground arith

    cached_found :
        (key now : ℕ) (c : Contents) (lines : Lines)
        → (get_cached_balances R key now c).0 ≡ some lines
        → (raw : Raw) × (get key now c ≡ some raw) × (parse raw ≡ an_array lines)
    unfolding get_cached_balances
    cached_found key now c lines h = elim (Option-cases (get key now c)) [
      | inl e ↦ absurd (ground arith)
      | inr (raw, e) ↦ elim (Bool-cases (is_empty raw)) [
        | inl z ↦ absurd (ground arith)
        | inr z ↦
            (raw, e, parsed_found key now c (parse raw) lines (rw (e, z, get_cached_balances) at h))
      ]
    ]

    -- From a cache of which that holds, and however requests, payments and their invalidations
    -- interleave, balances that come from the cache are those that Horizon showed for the
    -- account at most 5 seconds and the delay before. That is if what is stored was fetched at
    -- most that delay before it is stored, and Redis gives nothing that was not stored or whose
    -- time is over; a deletion may fail.
    pub cached_balances_recent :
        (steps : List (CacheStep R)) (c : Contents) (key now : ℕ) (lines : Lines)
        → All IsHonest steps
        → IsRecent c
        → (get_cached_balances R key now (after_cache_steps R steps c)).0 ≡ some lines
        → WasShown key now lines
    cached_balances_recent steps c key now lines honest h e =
        let (raw, g, p) = cached_found key now _ lines e in
        (after_steps-IsRecent steps c honest h).kept key now raw lines g p
