-- ===== src/Prices.antt =====
-- backend/src/services/prices.ts: the four sources of the XLM price and `fetchXlmPrice`. Currencies
-- and texts of prices are numbers; times are milliseconds.
pub mod Waterfall
pub mod Cache
pub mod Freshness
mod Examples
use coop_lumen_index.Base.{
  ℕ, Bool, true, false, ◌||◌, Option, none, some, List, [], ◌∷◌, if◌then◌else◌, ◌==◌,
}

pub data Source : Type 0 where
  coingecko binance coinbase kraken : Source

pub record XlmPriceResult : Type 0 where
  pub currency : ℕ
  pub price : ℕ
  pub source : Source
  pub timestamp : ℕ

-- What a source says of a price, as JavaScript reads it: nothing that is a number, a number that is
-- not above 0, or one above 0, with its text to seven decimals.
pub data Quote : Type 0 where
  no_number not_positive : Quote
  infinite positive : ℕ → Quote

-- `fetch` throws or times out, the answer is not ok, Kraken's body lists errors, or there is a quote.
pub data Reply : Type 0 where
  no_reply not_ok error_list : Reply
  quoted : Quote → Reply

-- 'USD' and 'USDT', which Binance's table has.
abbrev pub usd : ℕ
usd = 1

abbrev pub usdt : ℕ
usdt = 2

abbrev pub result_of : Source → ℕ → ℕ → ℕ → XlmPriceResult
result_of source currency now price = record {
  currency = currency;
  price = price;
  source = source;
  timestamp = now;
}

abbrev pub fetch_from_coin_gecko : ℕ → ℕ → Reply → Option XlmPriceResult
fetch_from_coin_gecko currency now (quoted (positive price)) =
    some (result_of coingecko currency now price)
fetch_from_coin_gecko currency now _ = none

-- The tests of the other three, which let Infinity pass.
abbrev pub from_text : Source → ℕ → ℕ → Quote → Option XlmPriceResult
from_text source currency now (positive price) = some (result_of source currency now price)
from_text source currency now (infinite price) = some (result_of source currency now price)
from_text source currency now _ = none

abbrev pub fetch_from_binance : ℕ → ℕ → Reply → Option XlmPriceResult
fetch_from_binance currency now (quoted quote) =
    if (currency == usd) || (currency == usdt) then from_text binance currency now quote else none
fetch_from_binance currency now _ = none

abbrev pub fetch_from_coinbase : ℕ → ℕ → Reply → Option XlmPriceResult
fetch_from_coinbase currency now (quoted quote) = from_text coinbase currency now quote
fetch_from_coinbase currency now _ = none

abbrev pub fetch_from_kraken : ℕ → ℕ → Reply → Option XlmPriceResult
fetch_from_kraken currency now (quoted quote) = from_text kraken currency now quote
fetch_from_kraken currency now _ = none

-- What the sources answer, and when.
pub record Market : Type 0 where
  pub reply : Source → ℕ → Reply
  pub time : Source → ℕ

abbrev pub fetch_from : Market → ℕ → Source → Option XlmPriceResult
fetch_from M currency coingecko =
    fetch_from_coin_gecko currency (M.time coingecko) (M.reply coingecko currency)
fetch_from M currency binance =
    fetch_from_binance currency (M.time binance) (M.reply binance currency)
fetch_from M currency coinbase =
    fetch_from_coinbase currency (M.time coinbase) (M.reply coinbase currency)
fetch_from M currency kraken = fetch_from_kraken currency (M.time kraken) (M.reply kraken currency)

-- A price, or the error with the sources that failed.
pub data Fetched : Type 0 where
  priced : XlmPriceResult → Fetched
  all_failed : List Source → Fetched

abbrev pub providers : List Source
providers = coingecko ∷ binance ∷ coinbase ∷ kraken ∷ []

-- The loop; `errors` are the sources that failed before, the last first.
unfoldable pub first_price : Market → ℕ → List Source → List Source → Fetched
first_price M currency [] errors = all_failed errors
first_price M currency (source ∷ sources) errors =
    let rest = first_price M currency sources (source ∷ errors) in
    elim (fetch_from M currency source) [ some price ↦ priced price | none ↦ rest ]

unfoldable pub fetch_xlm_price : Market → ℕ → Fetched
fetch_xlm_price M currency = first_price M currency providers []
