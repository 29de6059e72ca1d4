-- ===== src/Communities/Examples.antt =====
-- The theorems about communities at concrete tables.
use coop_lumen_index.Base.{◌-◌, ltb, if◌then◌else◌, ◌≡◌, refl, true, none, some, List, [], ◌∷◌}
use coop_lumen_index.Http.Guards.{require_community_role, find_member}
use coop_lumen_index.Communities.{
  Community, Tables, Texts, member_saved, member_removed, only_admin_removes, community_name_exists,
}
use coop_lumen_index.Communities.Registry.{CreateCommunityBody}
use coop_lumen_index.Communities.Membership.{
  serve_member, add_member, remove_member, upsert_member, adds_member, removes_member,
}
use coop_lumen_index.Communities.Serve.{RegistryRequest, creates_community, serve_registry}
use coop_lumen_index.Communities.Names.{IsRegistry, serve_registry-IsRegistry}
use coop_lumen_index.Communities.Clashes.{IsDistinct}
use coop_lumen_index.Communities.Reuse.{create_name_taken}
use coop_lumen_index.Communities.Views.{roster}
use coop_lumen_index.Communities.Refinement.{
  MemberCall, is_open_in, serve_members, specified_all, serve_members-specified_all,
}

-- Names up to 99 are normalized; 100 and more are the same with a capital letter.
abbrev texts : Texts
texts = record {
  trim_lower = λ n. if ltb n 100 then n else n - 100;
  lower_btrim = λ n. if ltb n 100 then n else n - 100;
  row_checks = λ c. true;
  empty_settings = 0;
  is_uuid = λ id. true;
  is_public_key = λ a. true;
}

abbrev market : Community
market = record {
  id = 1;
  name = 7;
  description = none;
  issuer_public_key = 50;
  asset_code = 3;
  asset_issuer = 50;
  avatar_url = none;
  created_at = 10;
  deleted_at = none;
}

abbrev closed_bakery : Community
closed_bakery = record market { id = 2; name = 8; deleted_at = some 20 }

abbrev tables : Tables
tables = record {
  communities = market ∷ closed_bakery ∷ [];
  members =
      record { community_id = 1; stellar_address = 50; role = 1; joined_at = 10; deleted_at = none }
      ∷ record {
        community_id = 1;
        stellar_address = 60;
        role = 4;
        joined_at = 11;
        deleted_at = some 12;
      }
      ∷ [];
  community_settings = [];
  transactions_log = [];
}

-- The admin adds a removed member again, who then fails to remove the admin, and leaves.
abbrev calls : List MemberCall
calls =
    record { caller = 50; now = 30; request = adds_member 1 60 none }
    ∷ record { caller = 60; now = 31; request = removes_member 1 50 }
    ∷ record { caller = 60; now = 32; request = removes_member 1 60 }
    ∷ []

calls_answers :
    (serve_members texts calls tables).0
    ≡ member_saved 60 3 ∷ only_admin_removes ∷ member_removed 60 ∷ []
unfolding serve_members serve_member add_member remove_member upsert_member require_community_role
    find_member
calls_answers = refl

serve_members-specified_all_example :
    ((serve_members texts calls tables).0, roster (serve_members texts calls tables).1.members)
    ≡ specified_all texts (is_open_in tables.communities) calls (roster tables.members)
serve_members-specified_all_example = serve_members-specified_all texts calls tables

abbrev bakery_again : CreateCommunityBody
bakery_again = record {
  name = 8;
  description = none;
  issuer_public_key = 50;
  asset_code = 3;
  asset_issuer = 50;
}

create_name_taken_example :
    serve_registry texts 50 3 40 (creates_community bakery_again) tables
    ≡ (community_name_exists, tables)
create_name_taken_example = create_name_taken texts 50 3 40 bakery_again tables refl refl refl refl

-- The name of the closed bakery in capitals, which is free.
abbrev bakery_in_capitals : RegistryRequest
bakery_in_capitals = creates_community (record bakery_again { name = 108 })

tables-IsRegistry : IsRegistry texts tables.communities
unfolding IsDistinct
tables-IsRegistry = record { distinct = (refl, (refl, tt)); agreeing = refl }

serve_registry-IsRegistry_example :
    IsRegistry texts (serve_registry texts 50 3 40 bakery_in_capitals tables).1.communities
serve_registry-IsRegistry_example =
    serve_registry-IsRegistry texts 50 3 40 bakery_in_capitals tables tables-IsRegistry refl
