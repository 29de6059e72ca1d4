-- ===== src/Assets/Examples.antt =====
-- backend/src/contracts/assets.ts: a listing of three accounts.
use coop_lumen_index.Base.{ℕ, ◌*◌, ◌≡◌, refl, ◌⊎◌, inr, some, List, [], ◌∷◌, take, drop, arith}
use coop_lumen_index.Stellar.Errors.{Thrown}
use coop_lumen_index.Assets.{
  HolderAccount, asset_line, other_line, balance_of, holders_of, page_size, get_asset_holders,
}
use coop_lumen_index.Assets.Holders.{get_asset_holders-IsWhole}

abbrev three_accounts : List HolderAccount
three_accounts =
    record { account_id = 1; balances = other_line ∷ asset_line 7 9 50 ∷ [] }
    ∷ record { account_id = 2; balances = asset_line 7 8 20 ∷ [] }
    ∷ record { account_id = 3; balances = asset_line 7 9 0 ∷ asset_line 7 9 5 ∷ [] }
    ∷ []

abbrev three_pages : ℕ → Thrown ⊎ List HolderAccount
three_pages n = inr (take page_size (drop (n * page_size) three_accounts))

three_holders :
    holders_of 7 9 three_accounts
    ≡ record { account = 1; balance = 50 } ∷ record { account = 3; balance = 0 } ∷ []
unfolding holders_of balance_of
three_holders = refl

get_asset_holders-IsWhole_example :
    get_asset_holders three_pages 7 9 4 ≡ some (inr (holders_of 7 9 three_accounts))
get_asset_holders-IsWhole_example =
    get_asset_holders-IsWhole three_pages 7 9 4 three_accounts (λ n. refl) (omega arith)
