-- ===== src/TokenRoutes/Examples.antt =====
-- The theorems about tokens at a concrete community and a concrete submission.
use Prim.Native.String.{String}
use coop_lumen_index.Base.{ℕ, ◌≤◌, ◌≡◌, refl, ◌⊎◌, inl, true, none, some, List, [], ◌∷◌, length}
use coop_lumen_index.Communities.{Community, Tables}
use coop_lumen_index.Stellar.Batch.{
  Sdk, Payment, credit, entry_error, entries_error, batch_error, build_payments, max_batch_payments,
}
use coop_lumen_index.Stellar.Errors.{Thrown, other_error}
use coop_lumen_index.TokenRoutes.Submit.{TokenRow, RefreshSupply}
use coop_lumen_index.TokenRoutes.Airdrop.{
  AirdropBody, airdrop_built, addresses_of, entries_of, build_batch_payment, build_airdrop, IsAsked,
  PaysMembers, build_airdrop_pays,
}

abbrev row : TokenRow
row = record { asset_code = 3; asset_issuer = 50; total_supply = 900 }

abbrev refresh : RefreshSupply
refresh = record { asset_code = 3; asset_issuer = 50 }

abbrev timeout : Thrown
timeout = other_error "timeout"

abbrev no_supply : Thrown ⊎ ℕ
no_supply = inl timeout

abbrev sdk : Sdk
sdk = record { is_public_key = λ key. true; xlm = 0 }

abbrev market : Community
market = record {
  id = 1;
  name = 7;
  description = none;
  issuer_public_key = 50;
  asset_code = 3;
  asset_issuer = 50;
  avatar_url = none;
  created_at = 10;
  deleted_at = none;
}

-- One of the two members has left.
abbrev tables : Tables
tables = record {
  communities = market ∷ [];
  members =
      record {
        community_id = 1;
        stellar_address = 60;
        role = 3;
        joined_at = 11;
        deleted_at = some 12;
      }
      ∷ record {
        community_id = 1;
        stellar_address = 61;
        role = 3;
        joined_at = 11;
        deleted_at = none;
      }
      ∷ [];
  community_settings = [];
  transactions_log = [];
}

abbrev body : AirdropBody
body = record { community_id = 1; issuer_public_key = 50; amount = b'5' ∷ []; memo = none }

abbrev same : String → String
same s = s

abbrev operations : List Payment
operations = record { destination = 61; asset = credit 3 50; amount = b'5' ∷ [] } ∷ []

built : build_airdrop sdk same none body tables ≡ airdrop_built operations 1
unfolding build_airdrop addresses_of entries_of build_batch_payment batch_error entries_error
    entry_error build_payments
built = refl

build_airdrop_pays_example :
    (c : Community) × IsAsked sdk same body tables c
    × (1 ≤ 1)
    × (1 ≤ max_batch_payments)
    × (1 ≡ length operations)
    × PaysMembers sdk same c body.amount 1 tables.members operations
build_airdrop_pays_example = build_airdrop_pays sdk same none body tables operations 1 built
