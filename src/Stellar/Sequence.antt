-- ===== src/Stellar/Sequence.antt =====
-- backend/src/contracts/sequenceCache.ts: the cached `Account` objects and `withSequenceRetry`. A
-- cached account is its sequence number: `fn` is given the object that the cache holds and
-- increments it in place, so the number that `fn` leaves is written back.
pub mod Turns
use coop_lumen_index.Base.{
  ℕ, ◌+◌, ◌-◌, ◌<◌, ◌≡◌, refl, ◌⊎◌, inl, inr, Bool, true, false, not, Option, none, some, List, [],
  ◌∷◌, arith, if◌then◌else◌, ◌==◌, ltb, Bool-cases, ap, sym, ◌∙◌,
}

-- `result_codes.transaction`
pub data TransactionCode : Type 0 where
  tx_bad_seq : TransactionCode
  other_code : ℕ → TransactionCode

pub record SubmitError : Type 0 where
  pub transaction : Option TransactionCode

unfoldable pub is_bad_sequence_error : SubmitError → Bool
is_bad_sequence_error error = elim error.transaction [ some tx_bad_seq ↦ true | _ ↦ false ]

-- SEQUENCE_CACHE_TTL_MS
abbrev pub ttl_ms : ℕ
ttl_ms = 30000

pub record CacheEntry : Type 0 where
  pub public_key : ℕ
  pub account : ℕ
  pub cached_at : ℕ

-- `Map.get`, `Map.delete` and `Map.set` on the cache.
abbrev pub lookup : ℕ → List CacheEntry → Option CacheEntry
lookup key [] = none
lookup key (e ∷ es) = if e.public_key == key then some e else lookup key es

abbrev pub invalidate : ℕ → List CacheEntry → List CacheEntry
invalidate key [] = []
invalidate key (e ∷ es) = if e.public_key == key then invalidate key es else e ∷ invalidate key es

abbrev pub store : CacheEntry → List CacheEntry → List CacheEntry
store entry cache = entry ∷ invalidate entry.public_key cache

lookup-invalidate : (key : ℕ) (cache : List CacheEntry) → lookup key (invalidate key cache) ≡ none
lookup-invalidate key [] = refl
lookup-invalidate key (e ∷ es) = ground (arith, lookup-invalidate key es)

lookup_key :
    (key : ℕ) (cache : List CacheEntry) (e : CacheEntry)
    → lookup key cache ≡ some e
    → e.public_key ≡ key
lookup_key key [] e h = ground arith
lookup_key key (x ∷ xs) e h = elim (Bool-cases (x.public_key == key)) [
  | inl t ↦ ground arith
  | inr n ↦ lookup_key key xs e (ground arith)
]

lookup-store :
    (e : CacheEntry) (cache : List CacheEntry) → lookup e.public_key (store e cache) ≡ some e
lookup-store e cache = ground arith

-- Horizon and the clock, in a world that calls change: `StellarService.loadAccount`, with the
-- sequence number of the account, and `Date.now()`.
pub record Horizon : Type 1 where
  pub World : Type 0
  pub load : ℕ → World → (SubmitError ⊎ ℕ) × World
  pub now : World → ℕ

module _ (H : Horizon) (A : Type 0) where
  open H use {World, load, now}

  -- `fn`, or `buildAndSubmit`: from the account's number to a result, the number it leaves on the
  -- account, and the world after it.
  abbrev pub Job : Type 0
  Job = ℕ → World → (SubmitError ⊎ A) × ℕ × World

  abbrev pub Result : Type 0
  Result = (SubmitError ⊎ A) × List CacheEntry × World

  -- Runs `fn` on the object of an entry.
  abbrev pub run_on : Job → CacheEntry → List CacheEntry → World → Result
  run_on fn entry cache w =
      let (result, number, w') = fn entry.account w in
      (result, store (record entry { account = number }) cache, w')

  unfoldable pub load_and_run : ℕ → Job → List CacheEntry → World → Result
  load_and_run key fn cache w = elim (load key w).0 [
    | inl error ↦ (inl error, cache, (load key w).1)
    | inr number ↦
        let w' = (load key w).1 in
        run_on fn (record { public_key = key; account = number; cached_at = now w' }) cache w'
  ]

  abbrev pub is_fresh : CacheEntry → World → Bool
  is_fresh entry w = ltb (now w - entry.cached_at) ttl_ms

  -- `withAccount`, once its turn has come: `getAccount` and then `fn`.
  unfoldable pub with_account : ℕ → Job → List CacheEntry → World → Result
  unfolding load_and_run
  with_account key fn cache w = elim (lookup key cache) [
    | none ↦ load_and_run key fn cache w
    | some entry ↦ if is_fresh entry w then run_on fn entry cache w else load_and_run key fn cache w
  ]

  unfoldable pub retry_after : ℕ → Job → Result → Result
  unfolding with_account is_bad_sequence_error
  retry_after key fn (inr a, cache, w) = (inr a, cache, w)
  retry_after key fn (inl error, cache, w) =
      if not (is_bad_sequence_error error)
      then (inl error, cache, w)
      else with_account key fn (invalidate key cache) w

  unfoldable pub with_sequence_retry : ℕ → Job → List CacheEntry → World → Result
  unfolding retry_after with_account
  with_sequence_retry key fn cache w = retry_after key fn (with_account key fn cache w)

  -- When the first try is refused for its sequence number, the second try loads the account from
  -- Horizon again, whatever the cache held; its answer is final.
  pub with_sequence_retry_reloads :
      (key : ℕ) (fn : Job) (cache cache' : List CacheEntry) (w w' : World) (error : SubmitError)
      → with_account key fn cache w ≡ (inl error, cache', w')
      → is_bad_sequence_error error ≡ true
      → with_sequence_retry key fn cache w ≡ load_and_run key fn (invalidate key cache') w'
  unfolding with_sequence_retry retry_after with_account
  with_sequence_retry_reloads key fn cache cache' w w' error e bad =
      rw (e, with_sequence_retry)
        (rw (bad, retry_after) (rw (lookup-invalidate key cache', with_account) refl))

  runs :
      (key : ℕ) (fn : Job) (entry : CacheEntry) (cache : List CacheEntry) (w : World)
      → lookup key cache ≡ some entry
      → is_fresh entry w ≡ true
      → with_account key fn cache w ≡ run_on fn entry cache w
  unfolding with_account
  runs key fn entry cache w found fresh = rw (found, with_account) (rw fresh refl)

  -- Jobs that run one after the other within the cache's lifetime continue each other's numbers:
  -- the second is given the number that the first left, without a call of Horizon.
  pub with_account_continues :
      (key : ℕ) (fn next : Job) (entry : CacheEntry) (cache : List CacheEntry) (w : World)
      → lookup key cache ≡ some entry
      → is_fresh entry w ≡ true
      → is_fresh entry (fn entry.account w).2 ≡ true
      → (with_account key next (with_account key fn cache w).1 (with_account key fn cache w).2).0
        ≡ (next (fn entry.account w).1 (fn entry.account w).2).0
  unfolding with_account
  with_account_continues key fn next entry cache w found fresh still =
      let first = runs key fn entry cache w found fresh in
      let left : CacheEntry = record entry { account = (fn entry.account w).1 } in
      let there : lookup key (store left cache) ≡ some left =
        ap (λ k. lookup k (store left cache)) (sym (lookup_key key cache entry found))
        ∙ lookup-store left cache in
      rw first (
        ap (λ (r : Result). r.0)
          (runs key next left (store left cache) (fn entry.account w).2 there still))
