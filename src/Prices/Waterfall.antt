-- ===== src/Prices/Waterfall.antt =====
-- Which source a price comes from.
use coop_lumen_index.Base.{
  ℕ, ◌≡◌, true, ◌||◌, ◌==◌, Bool-cases, Option, refl, ap, inl, inr, ◌⊎◌, none, some, List, [], ◌∷◌,
  ◌++◌, arith, All, Option-cases,
}
use coop_lumen_index.Prices.{
  Source, coingecko, binance, coinbase, kraken, XlmPriceResult, Quote, no_number, not_positive,
  infinite, positive, Reply, no_reply, not_ok, error_list, quoted, usd, usdt, result_of, from_text,
  fetch_from_coin_gecko, fetch_from_binance, Market, fetch_from, priced, all_failed, first_price,
  fetch_xlm_price,
}

none-some : {o : Option XlmPriceResult} {a : XlmPriceResult} → o ≡ none → o ≡ some a → ⊥
none-some e h = ground arith

-- The order of the sources.
abbrev pub in_order : List Source
in_order = coingecko ∷ binance ∷ coinbase ∷ kraken ∷ []

from_text-some :
    (s : Source) (currency now : ℕ) (q : Quote) (price : XlmPriceResult)
    → from_text s currency now q ≡ some price
    → (n : ℕ) × ((q ≡ positive n) ⊎ (q ≡ infinite n)) × (price ≡ result_of s currency now n)
from_text-some s currency now no_number price h = absurd (ground arith)
from_text-some s currency now not_positive price h = absurd (ground arith)
from_text-some s currency now (infinite n) price h = (n, inr refl, ground arith)
from_text-some s currency now (positive n) price h = (n, inl refl, ground arith)

module _ (M : Market) (currency : ℕ) where
  -- A source has a price above 0 in the currency: CoinGecko a finite one, the others a text that may
  -- say Infinity, and Binance only for the two dollars that it lists.
  pub data Quotes : Source → ℕ → Type 0 where
    by_coingecko : {n : ℕ} → M.reply coingecko currency ≡ quoted (positive n) → Quotes coingecko n
    by_binance :
        {n : ℕ}
        → ((currency == usd) || (currency == usdt)) ≡ true
        → (q : Quote) → M.reply binance currency ≡ quoted q
        → (q ≡ positive n) ⊎ (q ≡ infinite n)
        → Quotes binance n
    by_coinbase :
        {n : ℕ} (q : Quote)
        → M.reply coinbase currency ≡ quoted q
        → (q ≡ positive n) ⊎ (q ≡ infinite n)
        → Quotes coinbase n
    by_kraken :
        {n : ℕ} (q : Quote)
        → M.reply kraken currency ≡ quoted q
        → (q ≡ positive n) ⊎ (q ≡ infinite n)
        → Quotes kraken n

  abbrev pub Fails : Source → Type 0
  Fails source = (n : ℕ) → Quotes source n → ⊥

  from_text_quotes :
      (s : Source) (now n : ℕ) (q : Quote)
      → (q ≡ positive n) ⊎ (q ≡ infinite n)
      → from_text s currency now q ≡ some (result_of s currency now n)
  from_text_quotes s now n q (inl e) = rw e refl
  from_text_quotes s now n q (inr e) = rw e refl

  Quotes-fetch :
      {s : Source} {n : ℕ}
      → Quotes s n
      → fetch_from M currency s ≡ some (result_of s currency (M.time s) n)
  Quotes-fetch (by_coingecko e) = rw e refl
  Quotes-fetch {n = n} (by_binance listed q e k) = rw (e, listed) (from_text_quotes binance _ n q k)
  Quotes-fetch {n = n} (by_coinbase q e k) = rw e (from_text_quotes coinbase _ n q k)
  Quotes-fetch {n = n} (by_kraken q e k) = rw e (from_text_quotes kraken _ n q k)

  coin_gecko_some :
      (r : Reply) (now : ℕ) (price : XlmPriceResult)
      → fetch_from_coin_gecko currency now r ≡ some price
      → (n : ℕ) × (r ≡ quoted (positive n)) × (price ≡ result_of coingecko currency now n)
  coin_gecko_some (quoted (positive n)) now price h = (n, refl, ground arith)
  coin_gecko_some (quoted (infinite n)) now price h = absurd (ground arith)
  coin_gecko_some (quoted no_number) now price h = absurd (ground arith)
  coin_gecko_some (quoted not_positive) now price h = absurd (ground arith)
  coin_gecko_some no_reply now price h = absurd (ground arith)
  coin_gecko_some not_ok now price h = absurd (ground arith)
  coin_gecko_some error_list now price h = absurd (ground arith)

  abbrev text_reply : Source → ℕ → Reply → Option XlmPriceResult
  text_reply s now (quoted quote) = from_text s currency now quote
  text_reply s now _ = none

  text_some :
      (s : Source) (r : Reply) (now : ℕ) (price : XlmPriceResult)
      → text_reply s now r ≡ some price
      → (n : ℕ) × (q : Quote) × (r ≡ quoted q)
        × ((q ≡ positive n) ⊎ (q ≡ infinite n))
        × (price ≡ result_of s currency now n)
  text_some s (quoted q) now price h =
      let (n, k, p) = from_text-some s currency now q price h in (n, q, refl, k, p)
  text_some s no_reply now price h = absurd (ground arith)
  text_some s not_ok now price h = absurd (ground arith)
  text_some s error_list now price h = absurd (ground arith)

  -- Binance's test, whatever it answers.
  binance_some :
      (r : Reply) (now : ℕ) (price : XlmPriceResult)
      → fetch_from_binance currency now r ≡ some price
      → (((currency == usd) || (currency == usdt)) ≡ true) × (text_reply binance now r ≡ some price)
  binance_some (quoted q) now price h =
      elim (Bool-cases ((currency == usd) || (currency == usdt))) [
        | inl e ↦ (e, rw e at h)
        | inr e ↦ absurd (ground arith)
      ]
  binance_some no_reply now price h = absurd (ground arith)
  binance_some not_ok now price h = absurd (ground arith)
  binance_some error_list now price h = absurd (ground arith)

  fetch-Quotes :
      (s : Source) (price : XlmPriceResult)
      → fetch_from M currency s ≡ some price
      → (n : ℕ) × Quotes s n × (price ≡ result_of s currency (M.time s) n)
  fetch-Quotes coingecko price h =
      let (n, e, p) = coin_gecko_some _ _ price h in (n, by_coingecko e, p)
  fetch-Quotes binance price h =
      let (listed, t) = binance_some _ _ price h in
      let (n, q, e, k, p) = text_some binance _ _ price t in (n, by_binance listed q e k, p)
  fetch-Quotes coinbase price h =
      let (n, q, e, k, p) =
        text_some coinbase (M.reply coinbase currency) (M.time coinbase) price h in
      (n, by_coinbase q e k, p)
  fetch-Quotes kraken price h =
      let (n, q, e, k, p) = text_some kraken (M.reply kraken currency) (M.time kraken) price h in
      (n, by_kraken q e k, p)

  none-Fails : (s : Source) → fetch_from M currency s ≡ none → Fails s
  none-Fails s e n q = none-some e (Quotes-fetch q)

  -- The sources before one fail, and it has this price, in the currency and at the time that it answers.
  pub record IsFirst (sources : List Source) (price : XlmPriceResult) : Type 0 where
    pub before : List Source
    pub source : Source
    pub after : List Source
    pub order : sources ≡ before ++ source ∷ after
    pub failed : All Fails before
    pub answers : Quotes source price.price
    pub named : price.source ≡ source
    pub in_currency : price.currency ≡ currency
    pub at_time : price.timestamp ≡ M.time source

  abbrev later :
      (s : Source) (sources : List Source) (price : XlmPriceResult)
      → Fails s
      → IsFirst sources price
      → IsFirst (s ∷ sources) price
  later s sources price f h = record {
    before = s ∷ h.before;
    source = h.source;
    after = h.after;
    order = ap (λ xs. s ∷ xs) h.order;
    failed = (f, h.failed);
    answers = h.answers;
    named = h.named;
    in_currency = h.in_currency;
    at_time = h.at_time;
  }

  answered_first :
      (s : Source) (sources : List Source) (price : XlmPriceResult)
      → fetch_from M currency s ≡ some price
      → IsFirst (s ∷ sources) price
  answered_first s sources price e =
      let (n, q, p) = fetch-Quotes s price e in
      rw p (record {
        before = [];
        source = s;
        after = sources;
        order = refl;
        failed = tt;
        answers = q;
        named = refl;
        in_currency = refl;
        at_time = refl;
      })

  first_price-IsFirst :
      (sources errors : List Source)
      → ((price : XlmPriceResult) × (first_price M currency sources errors ≡ priced price)
          × IsFirst sources price)
        ⊎ ((all : List Source) × (first_price M currency sources errors ≡ all_failed all)
            × All Fails sources)
  unfolding first_price
  first_price-IsFirst [] errors = inr (errors, refl, tt)
  first_price-IsFirst (s ∷ sources) errors = elim (Option-cases (fetch_from M currency s)) [
    | inr (price, e) ↦ inl (price, rw (e, first_price) refl, answered_first s sources price e)
    | inl e ↦ elim (first_price-IsFirst sources (s ∷ errors)) [
      | inl (price, p, h) ↦
          inl (price, rw (e, first_price) p, later s sources price (none-Fails s e) h)
      | inr (all, p, h) ↦ inr (all, rw (e, first_price) p, (none-Fails s e, h))
    ]
  ]

  -- fetchXlmPrice gives the price of the first source, in the order CoinGecko, Binance,
  -- Coinbase, Kraken, that has a valid one, under its name, in the currency and with the time it
  -- was read at, where those before it have none; it fails only if none of the four has one. A
  -- price is valid above 0, CoinGecko's if it is finite, and Binance's for the two dollars that
  -- it lists.
  pub fetch_xlm_price-IsFirst :
      ((price : XlmPriceResult) × (fetch_xlm_price M currency ≡ priced price)
        × IsFirst in_order price)
      ⊎ ((all : List Source) × (fetch_xlm_price M currency ≡ all_failed all) × All Fails in_order)
  unfolding fetch_xlm_price
  fetch_xlm_price-IsFirst = first_price-IsFirst in_order []
