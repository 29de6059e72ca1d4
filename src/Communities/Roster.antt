-- ===== src/Communities/Roster.antt =====
-- What the routes of /:id/members promise, without rows: who holds which role in which community.
use coop_lumen_index.Base.{ℕ, Bool, false, ◌&&◌, not, Option, none, some, if◌then◌else◌, ◌==◌}
use coop_lumen_index.Http.Guards.{requires_role}
use coop_lumen_index.Communities.{
  Texts, CommunityAnswer, refused, community_not_found, invalid_address, member_not_found,
  member_saved, member_removed, only_admin_removes, role_admin, role_member,
}
use coop_lumen_index.Communities.Registry.{given_or}
use coop_lumen_index.Communities.Membership.{
  MemberRequest, reads_member, adds_member, changes_role, removes_member,
}

-- The role of an address in a community.
abbrev pub Roster : Type 0
Roster = ℕ → ℕ → Option ℕ

abbrev pub is_admin : Option ℕ → Bool
is_admin none = false
is_admin (some role) = role == role_admin

abbrev pub assign : ℕ → ℕ → Option ℕ → Roster → Roster
assign community address role roster c a =
    if (community == c) && (address == a) then role else roster c a

module _ (T : Texts) (is_open : ℕ → Bool) where
  abbrev pub read_roster : ℕ → ℕ → Roster → CommunityAnswer
  read_roster community address roster =
      if not (T.is_public_key address) then invalid_address else elim (roster community address) [
        | none ↦ member_not_found
        | some role ↦ member_saved address role
      ]

  abbrev pub admit : ℕ → ℕ → ℕ → ℕ → Roster → CommunityAnswer × Roster
  admit caller community address role roster =
      if not (is_admin (roster community caller))
      then (refused requires_role, roster)
      else if not (is_open community)
      then (community_not_found, roster)
      else (member_saved address role, assign community address (some role) roster)

  abbrev pub promote : ℕ → ℕ → ℕ → ℕ → Roster → CommunityAnswer × Roster
  promote caller community address role roster =
      if not (is_admin (roster community caller))
      then (refused requires_role, roster)
      else if not (T.is_public_key address)
      then (invalid_address, roster)
      else elim (roster community address) [
        | none ↦ (member_not_found, roster)
        | some _ ↦ (member_saved address role, assign community address (some role) roster)
      ]

  abbrev pub dismiss : ℕ → ℕ → ℕ → Roster → CommunityAnswer × Roster
  dismiss caller community address roster =
      if not (T.is_public_key address)
      then (invalid_address, roster)
      else if not (caller == address) && not (is_admin (roster community caller))
      then (only_admin_removes, roster)
      else elim (roster community address) [
        | none ↦ (member_not_found, roster)
        | some _ ↦ (member_removed address, assign community address none roster)
      ]

  unfoldable pub specified : ℕ → MemberRequest → Roster → CommunityAnswer × Roster
  specified caller (reads_member community address) roster =
      (read_roster community address roster, roster)
  specified caller (adds_member community address role) roster =
      admit caller community address (given_or role role_member) roster
  specified caller (changes_role community address role) roster =
      promote caller community address role roster
  specified caller (removes_member community address) roster =
      dismiss caller community address roster
