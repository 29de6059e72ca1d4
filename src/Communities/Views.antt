-- ===== src/Communities/Views.antt =====
-- The roster that the table of members stands for, after each statement on the table.
use std.Path.{fun_ext}
use coop_lumen_index.Base.{
  ℕ, ◌≡◌, refl, inl, inr, Bool, true, false, ◌&&◌, Option, none, some, List, [], ◌∷◌, ◌++◌, arith,
  if◌then◌else◌, ◌==◌, any, Bool-cases, Option-cases,
}
use coop_lumen_index.Http.Guards.{
  Member, find_member, requires_role, passes, require_community_role,
}
use coop_lumen_index.Communities.{role_admin}
use coop_lumen_index.Communities.Store.{update_where}
use coop_lumen_index.Communities.Membership.{
  has_key, revived, member_row, upsert_member, set_role, soft_remove, holds_admin,
}
use coop_lumen_index.Communities.Roster.{Roster, assign, is_admin}

abbrev pub role_of : Option Member → Option ℕ
role_of none = none
role_of (some m) = some m.role

abbrev is_held : Option ℕ → Bool
is_held none = false
is_held (some _) = true

-- The roster that a table stands for.
unfoldable pub roster : List Member → Roster
roster ms community address = role_of (find_member community address ms)

roster-revive :
    (k d role c a : ℕ) (ms : List Member)
    → roster (update_where (has_key k d) (revived role) ms) c a
      ≡ (if (k == c) && (d == a) && any (has_key k d) ms then some role else roster ms c a)
unfolding roster find_member
roster-revive k d role c a [] = ground arith
roster-revive k d role c a (m ∷ ms) = let rest = roster-revive k d role c a ms in ground arith

roster-append :
    (k d role now c a : ℕ) (ms : List Member)
    → any (has_key k d) ms ≡ false
    → roster (ms ++ member_row k d role now ∷ []) c a
      ≡ (if (k == c) && (d == a) then some role else roster ms c a)
unfolding roster find_member
roster-append k d role now c a [] h = ground arith
roster-append k d role now c a (m ∷ ms) h =
    let rest = roster-append k d role now c a ms (ground arith) in ground arith

pub roster-upsert :
    (k d role now : ℕ) (ms : List Member) (c a : ℕ)
    → roster (upsert_member k d role now ms) c a ≡ assign k d (some role) (roster ms) c a
unfolding upsert_member
roster-upsert k d role now ms c a =
    let revive = roster-revive k d role c a ms in
    elim (Bool-cases (any (has_key k d) ms)) [
      | inl t ↦ ground arith
      | inr f ↦ let append = roster-append k d role now c a ms f in ground arith
    ]

roster-set_role_same :
    (k d role : ℕ) (ms : List Member)
    → roster (set_role k d role ms) k d ≡ (if is_held (roster ms k d) then some role else none)
unfolding roster set_role find_member
roster-set_role_same k d role [] = refl
roster-set_role_same k d role (m ∷ ms) = let rest = roster-set_role_same k d role ms in ground arith

roster-set_role_other :
    (k d role c a : ℕ) (ms : List Member)
    → (k == c) && (d == a) ≡ false
    → roster (set_role k d role ms) c a ≡ roster ms c a
unfolding roster set_role find_member
roster-set_role_other k d role c a [] h = refl
roster-set_role_other k d role c a (m ∷ ms) h =
    let rest = roster-set_role_other k d role c a ms h in ground arith

pub roster-soft_remove :
    (k d now : ℕ) (ms : List Member) (c a : ℕ)
    → roster (soft_remove k d now ms) c a ≡ assign k d none (roster ms) c a
unfolding roster soft_remove find_member
roster-soft_remove k d now [] c a = ground arith
roster-soft_remove k d now (m ∷ ms) c a =
    let rest = roster-soft_remove k d now ms c a in ground arith

pub admin_verdict :
    (k caller : ℕ) (ms : List Member)
    → require_community_role (role_admin ∷ []) k ms (some caller)
      ≡ (if is_admin (roster ms k caller) then passes caller else requires_role)
unfolding require_community_role roster
admin_verdict k caller ms = elim (Option-cases (find_member k caller ms)) [
  | inl e ↦ ground arith
  | inr (m, e) ↦ ground arith
]

pub roster-none : (k d : ℕ) (ms : List Member) → find_member k d ms ≡ none → roster ms k d ≡ none
unfolding roster
roster-none k d ms e = rw e refl

pub roster-some :
    (k d : ℕ) (ms : List Member) (m : Member)
    → find_member k d ms ≡ some m
    → roster ms k d ≡ some m.role
unfolding roster
roster-some k d ms m e = rw e refl

pub holds_admin-roster :
    (k d : ℕ) (ms : List Member) → holds_admin (find_member k d ms) ≡ is_admin (roster ms k d)
unfolding roster
holds_admin-roster k d ms = elim (Option-cases (find_member k d ms)) [
  | inl e ↦ ground arith
  | inr (m, e) ↦ ground arith
]

pub roster-set_role :
    (k d role : ℕ) (ms : List Member) (m : Member)
    → find_member k d ms ≡ some m
    → (c a : ℕ) → roster (set_role k d role ms) c a ≡ assign k d (some role) (roster ms) c a
roster-set_role k d role ms m e c a =
    let held = roster-some k d ms m e in
    let same = roster-set_role_same k d role ms in
    elim (Bool-cases ((k == c) && (d == a))) [
      | inr f ↦ let other = roster-set_role_other k d role c a ms f in ground arith
      | inl t ↦ ground arith
    ]

pub roster_path : (r s : Roster) → ((c a : ℕ) → r c a ≡ s c a) → r ≡ s
roster_path r s h = fun_ext λ c. fun_ext λ a. h c a
