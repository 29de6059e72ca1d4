-- ===== src/Communities.antt =====
-- backend/src/api/routes/communities.ts: the rows of the tables that its routes read and write, and
-- the answers of the routes. Texts, addresses, ids and times are numbers, since they are only
-- compared, stored and passed to the library.
pub mod Store
pub mod Registry
pub mod Serve
pub mod Effects
pub mod Clashes
pub mod Names
pub mod Reuse
pub mod Membership
pub mod Roster
pub mod Views
pub mod Refinement
mod Examples
use coop_lumen_index.Base.{ℕ, Bool, ◌⊎◌, Option, List}
use coop_lumen_index.Http.Guards.{Member, Verdict}

-- `updated_at`, which a trigger sets, is left out.
pub record Community : Type 0 where
  pub id : ℕ
  pub name : ℕ
  pub description : Option ℕ
  pub issuer_public_key : ℕ
  pub asset_code : ℕ
  pub asset_issuer : ℕ
  pub avatar_url : Option ℕ
  pub created_at : ℕ
  pub deleted_at : Option ℕ

pub record CommunitySettings : Type 0 where
  pub community_id : ℕ
  pub settings : ℕ

-- A row of transactions_log for 'community_created'.
pub record CreatedEntry : Type 0 where
  pub community_id : ℕ
  pub actor_address : ℕ
  pub name : ℕ
  pub asset_code : ℕ

pub record Tables : Type 0 where
  pub communities : List Community
  pub members : List Member
  pub community_settings : List CommunitySettings
  pub transactions_log : List CreatedEntry

-- `admin` and so on, as the numbers that stand for the texts of VALID_ROLES.
abbrev pub role_admin : ℕ
role_admin = 1

abbrev pub role_treasurer : ℕ
role_treasurer = 2

abbrev pub role_member : ℕ
role_member = 3

-- The two ways a name is normalized, and the CHECK constraints on the columns of communities, which
-- look at the shapes of texts; `empty_settings` is the JSON text '{}', `is_uuid` zod's test and
-- `is_public_key` isValidStellarPublicKey.
pub record Texts : Type 0 where
  pub trim_lower : ℕ → ℕ
  pub lower_btrim : ℕ → ℕ
  pub row_checks : Community → Bool
  pub empty_settings : ℕ
  pub is_uuid : ℕ → Bool
  pub is_public_key : ℕ → Bool

-- Code 23505 with constraint communities_name_key, or another error.
pub data DatabaseError : Type 0 where
  name_taken other_error : DatabaseError

-- What the routes answer. `refused` is the answer of a guard.
pub data CommunityAnswer : Type 0 where
  refused : Verdict → CommunityAnswer
  created : Community → ℕ → CommunityAnswer
  updated : Option Community → ℕ → CommunityAnswer
  deleted : ℕ → CommunityAnswer
  avatar_set : ℕ → Option ℕ → CommunityAnswer
  issuer_mismatch community_name_exists community_not_found : CommunityAnswer
  community_create_failed community_update_failed : CommunityAnswer
  member_saved : ℕ → ℕ → CommunityAnswer
  member_removed : ℕ → CommunityAnswer
  invalid_id invalid_address member_not_found only_admin_removes : CommunityAnswer
  failed : CommunityAnswer
