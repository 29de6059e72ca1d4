-- ===== src/Communities/Membership.antt =====
-- communities.ts: the routes of /:id/members. A member is removed by setting `deleted_at`; the row
-- stays, and adding the address again brings it back.
use coop_lumen_index.Base.{
  ℕ, Bool, true, false, ◌&&◌, not, Option, none, some, List, [], ◌∷◌, ◌++◌, if◌then◌else◌, ◌==◌,
  any,
}
use coop_lumen_index.Http.Guards.{Member, is_member, find_member, require_community_role}
use coop_lumen_index.Communities.{
  Tables, Texts, CommunityAnswer, community_not_found, invalid_address, member_not_found,
  member_saved, member_removed, only_admin_removes, role_admin, role_member,
}
use coop_lumen_index.Communities.Store.{live_community, update_where}
use coop_lumen_index.Communities.Registry.{guarded, given_or}

abbrev pub has_key : ℕ → ℕ → Member → Bool
has_key community address m = (m.community_id == community) && (m.stellar_address == address)

abbrev pub revived : ℕ → Member → Member
revived role m = record m { role = role; deleted_at = none }

abbrev pub member_row : ℕ → ℕ → ℕ → ℕ → Member
member_row community address role now = record {
  community_id = community;
  stellar_address = address;
  role = role;
  joined_at = now;
  deleted_at = none;
}

-- INSERT INTO members … ON CONFLICT (community_id, stellar_address) DO UPDATE
unfoldable pub upsert_member : ℕ → ℕ → ℕ → ℕ → List Member → List Member
upsert_member community address role now ms =
    if any (has_key community address) ms
    then update_where (has_key community address) (revived role) ms
    else ms ++ member_row community address role now ∷ []

-- UPDATE members SET role = $1 WHERE … AND deleted_at IS NULL
unfoldable pub set_role : ℕ → ℕ → ℕ → List Member → List Member
set_role community address role =
    update_where (is_member community address) λ m. record m { role = role }

-- UPDATE members SET deleted_at = NOW() WHERE … AND deleted_at IS NULL
unfoldable pub soft_remove : ℕ → ℕ → ℕ → List Member → List Member
soft_remove community address now =
    update_where (is_member community address) λ m. record m { deleted_at = some now }

-- The requests on the members of a community; an address in a path is a text that may be no key.
pub data MemberRequest : Type 0 where
  reads_member : ℕ → ℕ → MemberRequest
  adds_member : ℕ → ℕ → Option ℕ → MemberRequest
  changes_role : ℕ → ℕ → ℕ → MemberRequest
  removes_member : ℕ → ℕ → MemberRequest

abbrev pub holds_admin : Option Member → Bool
holds_admin none = false
holds_admin (some m) = m.role == role_admin

module _ (T : Texts) where
  open T use {is_public_key}

  -- An id is a valid UUID; for any other text PostgreSQL fails, a 500, which is not modelled.
  unfoldable pub get_member : ℕ → ℕ → Tables → CommunityAnswer
  get_member community address db =
      if not (is_public_key address)
      then invalid_address
      else elim (find_member community address db.members) [
        | none ↦ member_not_found
        | some m ↦ member_saved address m.role
      ]

  unfoldable pub add_member : ℕ → ℕ → ℕ → Option ℕ → ℕ → Tables → CommunityAnswer × Tables
  add_member caller community address role now db =
      guarded (require_community_role (role_admin ∷ []) community db.members (some caller))
        (λ answer. (answer, db))
        elim (live_community community db.communities) [
          | none ↦ (community_not_found, db)
          | some _ ↦
              let held = given_or role role_member in
              (
                member_saved address held,
                record db { members = upsert_member community address held now db.members },
              )
        ]

  unfoldable pub update_member : ℕ → ℕ → ℕ → ℕ → Tables → CommunityAnswer × Tables
  update_member caller community address role db =
      guarded (require_community_role (role_admin ∷ []) community db.members (some caller))
        (λ answer. (answer, db))
        elim (is_public_key address) [
          | false ↦ (invalid_address, db)
          | true ↦ elim (find_member community address db.members) [
            | none ↦ (member_not_found, db)
            | some _ ↦ (
              member_saved address role,
              record db { members = set_role community address role db.members },
            )
          ]
        ]

  unfoldable pub remove_member : ℕ → ℕ → ℕ → ℕ → Tables → CommunityAnswer × Tables
  remove_member caller community address now db =
      if not (is_public_key address)
      then (invalid_address, db)
      else if not (caller == address) && not (holds_admin (find_member community caller db.members))
      then (only_admin_removes, db)
      else elim (find_member community address db.members) [
        | none ↦ (member_not_found, db)
        | some _ ↦ (
          member_removed address,
          record db { members = soft_remove community address now db.members },
        )
      ]

  unfoldable pub serve_member : ℕ → ℕ → MemberRequest → Tables → CommunityAnswer × Tables
  serve_member caller now (reads_member community address) db =
      (get_member community address db, db)
  serve_member caller now (adds_member community address role) db =
      add_member caller community address role now db
  serve_member caller now (changes_role community address role) db =
      update_member caller community address role db
  serve_member caller now (removes_member community address) db =
      remove_member caller community address now db
