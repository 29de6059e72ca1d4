-- ===== src/Balances/Gone.antt =====
-- backend/src/cache/balances.ts: what an invalidation does to the next request.
use coop_lumen_index.Base.{
  ℕ, ◌≡◌, refl, ap, ◌∙◌, ◌⊎◌, ◌||◌, inl, inr, Bool, true, false, Option, none, some, List, [], ◌∷◌,
  arith, ◌==◌, any, Bool-cases, Option-cases,
}
use coop_lumen_index.Stellar.Errors.{Thrown}
use coop_lumen_index.Balances.{
  BalanceRedis, known_keys, distinct, get_cached_balances, del_each, invalidate_balance_cache,
  answered, get_balances,
}
use coop_lumen_index.Balances.Recent.{KeepsForAWhile, Deletes}

abbrev pub holds_key : ℕ → List ℕ → Bool
holds_key key = any λ k. k == key

-- The key is among those that an invalidation names.
abbrev pub names_key : ℕ → List (Option ℕ) → Bool
names_key key [] = false
names_key key (none ∷ keys) = names_key key keys
names_key key (some k ∷ keys) = k == key || names_key key keys

known_keys_has :
    (key : ℕ) (keys : List (Option ℕ)) → holds_key key (known_keys keys) ≡ names_key key keys
known_keys_has key [] = refl
known_keys_has key (none ∷ keys) = known_keys_has key keys
known_keys_has key (some k ∷ keys) = ap (λ b. k == key || b) (known_keys_has key keys)

distinct_has :
    (key : ℕ) (seen keys : List ℕ)
    → holds_key key keys ≡ true
    → (holds_key key seen || holds_key key (distinct seen keys)) ≡ true
distinct_has key seen [] h = absurd (ground arith)
distinct_has key seen (k ∷ keys) h = elim (Bool-cases (any (λ j. j == k) seen)) [
  | inl e ↦ elim (Bool-cases (k == key)) [
    | inl same ↦
        let again : k ≡ key = ground arith in
        let before : holds_key key seen ≡ true = rw again at e in ground arith
    | inr other ↦ let rest = distinct_has key seen keys (ground arith) in ground arith
  ]
  | inr e ↦ elim (Bool-cases (k == key)) [
    | inl same ↦ ground arith
    | inr other ↦ let rest = distinct_has key (k ∷ seen) keys (ground arith) in ground arith
  ]
]

module _ (R : BalanceRedis) (laws : KeepsForAWhile R) (deletes : Deletes R) where
  open R use {Lines, Contents, Raw, get, del}

  found_none : {o : Option Raw} {raw : Raw} → o ≡ none → o ≡ some raw → ⊥
  found_none e f = ground arith

  del_each_keeps :
      (keys : List ℕ) (key now later : ℕ) (raw : Raw) (c : Contents)
      → get key later (del_each R keys now c) ≡ some raw
      → get key later c ≡ some raw
  del_each_keeps [] key now later raw c h = h
  del_each_keeps (k ∷ keys) key now later raw c h =
      laws.get-del k key now later raw c (del_each_keeps keys key now later raw (del k now c) h)

  del_each_gone :
      (keys : List ℕ) (key now later : ℕ) (raw : Raw) (c : Contents)
      → holds_key key keys ≡ true
      → get key later (del_each R keys now c) ≡ some raw
      → ⊥
  del_each_gone [] key now later raw c h g = ground arith
  del_each_gone (k ∷ keys) key now later raw c h g = elim (Bool-cases (k == key)) [
    | inl same ↦
        let found = del_each_keeps keys key now later raw (del k now c) g in
        let none_found = deletes.deleted k now later c in
        let here : k ≡ key = ground arith in
        let missing : get key later (del k now c) ≡ none = rw (← here) none_found in
        absurd (found_none missing found)
    | inr other ↦ del_each_gone keys key now later raw (del k now c) (ground arith) g
  ]

  pub invalidated :
      (keys : List (Option ℕ)) (key now later : ℕ) (c : Contents)
      → names_key key keys ≡ true
      → get key later (invalidate_balance_cache R keys now c) ≡ none
  unfolding invalidate_balance_cache
  invalidated keys key now later c h =
      let named = known_keys_has key keys ∙ h in
      elim (Option-cases (get key later (del_each R (distinct [] (known_keys keys)) now c))) [
        | inl e ↦ e
        | inr (raw, e) ↦
            absurd
              (del_each_gone _ key now later raw c (distinct_has key [] (known_keys keys) named) e)
      ]

  -- After an invalidation that names an account, whatever was cached, the next request for its
  -- balances is answered by what Horizon says then: its lines, which are cached, or its error.
  pub get_balances-invalidated :
      (horizon : ℕ → Thrown ⊎ Option Lines) (keys : List (Option ℕ)) (key now later stored : ℕ)
      (c : Contents)
      → names_key key keys ≡ true
      → get_balances R horizon key later stored (invalidate_balance_cache R keys now c)
        ≡ answered R key stored (invalidate_balance_cache R keys now c) (horizon key)
  unfolding get_balances get_cached_balances
  get_balances-invalidated horizon keys key now later stored c h =
      let gone = invalidated keys key now later c h in ground arith
