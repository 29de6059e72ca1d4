-- ===== src/Assets.antt =====
-- backend/src/contracts/assets.ts and trustlines.ts: the holders of an asset, the balance of an account and the supply.
-- Codes, issuers, accounts and amounts are numbers.
mod Examples
pub mod Holders
use coop_lumen_index.Base.{
  ℕ, zero, suc, ◌+◌, ◌⊎◌, inl, inr, Bool, true, false, ◌&&◌, Option, none, some, List, [], ◌∷◌,
  ◌++◌, length, any, find, if◌then◌else◌, ◌==◌, ltb,
}
use coop_lumen_index.Stellar.Errors.{Thrown}

-- A balance line of an account: of an issued asset, or another.
pub data HolderLine : Type 0 where
  asset_line : (asset_code asset_issuer balance : ℕ) → HolderLine
  other_line : HolderLine

pub record HolderAccount : Type 0 where
  pub account_id : ℕ
  pub balances : List HolderLine

pub record AssetHolder : Type 0 where
  pub account : ℕ
  pub balance : ℕ

abbrev pub is_of_asset : ℕ → ℕ → HolderLine → Bool
is_of_asset code issuer other_line = false
is_of_asset code issuer (asset_line c i balance) = c == code && i == issuer

abbrev pub line_balance : Option HolderLine → Option ℕ
line_balance (some (asset_line c i balance)) = some balance
line_balance _ = none

-- `account.balances.find(…)`, and its balance.
unfoldable pub balance_of : ℕ → ℕ → HolderAccount → Option ℕ
balance_of code issuer account = line_balance (find (is_of_asset code issuer) account.balances)

-- The inner loop, of the accounts of a page.
unfoldable pub holders_of : ℕ → ℕ → List HolderAccount → List AssetHolder
holders_of code issuer [] = []
holders_of code issuer (account ∷ accounts) =
    let rest = holders_of code issuer accounts in
    elim (balance_of code issuer account) [
      | none ↦ rest
      | some balance ↦ record { account = account.account_id; balance = balance } ∷ rest
    ]

abbrev pub page_size : ℕ
page_size = 200

abbrev pub is_empty_page : List HolderAccount → Bool
is_empty_page [] = true
is_empty_page (account ∷ accounts) = false

-- The loop over the pages, of the rounds that may be left, none if they run out: `pages n` is what
-- Horizon answers for the n-th page, `limit` the accounts of a full one, and `holders` what the
-- pages before it had.
unfoldable pub holder_pages :
    (ℕ → Thrown ⊎ List HolderAccount)
    → ℕ
    → ℕ
    → ℕ
    → ℕ
    → ℕ
    → List AssetHolder
    → Option (Thrown ⊎ List AssetHolder)
unfolding holders_of
holder_pages pages limit code issuer zero n holders = none
holder_pages pages limit code issuer (suc rounds) n holders = elim (pages n) [
  | inl err ↦ some (inl err)
  | inr accounts ↦
      let found = holders ++ holders_of code issuer accounts in
      let later = holder_pages pages limit code issuer rounds (n + 1) found in
      if is_empty_page accounts
      then some (inr holders)
      else if ltb (length accounts) limit
      then some (inr found)
      else later
]

unfoldable pub get_asset_holders :
    (ℕ → Thrown ⊎ List HolderAccount) → ℕ → ℕ → ℕ → Option (Thrown ⊎ List AssetHolder)
unfolding holder_pages
get_asset_holders pages code issuer rounds = holder_pages pages page_size code issuer rounds 0 []

-- `getAssetBalance`, of the account that Horizon answers: 0 if it has no line.
unfoldable pub get_asset_balance : Thrown ⊎ HolderAccount → ℕ → ℕ → Thrown ⊎ ℕ
unfolding balance_of
get_asset_balance (inl err) code issuer = inl err
get_asset_balance (inr account) code issuer = elim (balance_of code issuer account) [
  | none ↦ inr 0
  | some balance ↦ inr balance
]

-- `getTotalSupply`, of the amounts on the page that Horizon answers.
unfoldable pub get_total_supply : Thrown ⊎ List ℕ → Thrown ⊎ ℕ
get_total_supply (inl err) = inl err
get_total_supply (inr []) = inr 0
get_total_supply (inr (amount ∷ amounts)) = inr amount

-- `hasTrustline` of trustlines.ts, of the account that Horizon answers.
unfoldable pub has_trustline : Thrown ⊎ HolderAccount → ℕ → ℕ → Thrown ⊎ Bool
has_trustline (inl err) code issuer = inl err
has_trustline (inr account) code issuer = inr (any (is_of_asset code issuer) account.balances)
