-- ===== src/Communities/Refinement.antt =====
-- The routes of /:id/members on the table against the roster of `Communities.Roster`.
use coop_lumen_index.Base.{
  ℕ, ◌≡◌, refl, ap, inl, inr, Bool, true, false, ◌&&◌, not, Option, none, some, List, [], ◌∷◌,
  arith, ◌==◌, Bool-cases, Option-cases,
}
use coop_lumen_index.Http.Guards.{find_member}
use coop_lumen_index.Communities.{Community, Tables, Texts, CommunityAnswer, role_member}
use coop_lumen_index.Communities.Registry.{given_or}
use coop_lumen_index.Communities.Store.{live_community}
use coop_lumen_index.Communities.Membership.{
  upsert_member, set_role, soft_remove, MemberRequest, reads_member, adds_member, changes_role,
  removes_member, get_member, add_member, update_member, remove_member, serve_member,
}
use coop_lumen_index.Communities.Roster.{
  Roster, assign, is_admin, read_roster, admit, promote, dismiss, specified,
}
use coop_lumen_index.Communities.Views.{
  roster, admin_verdict, roster_path, roster-none, roster-some, holds_admin-roster, roster-set_role,
  roster-upsert, roster-soft_remove,
}

abbrev pub is_open_in : List Community → ℕ → Bool
is_open_in cs id = elim (live_community id cs) [ none ↦ false | some _ ↦ true ]

module _ (T : Texts) (caller now : ℕ) (db : Tables) where
  abbrev seen : CommunityAnswer × Tables → CommunityAnswer × Roster
  seen (answer, after) = (answer, roster after.members)

  get_refines :
      (k d : ℕ)
      → get_member T k d db ≡ read_roster T (is_open_in db.communities) k d (roster db.members)
  unfolding get_member roster
  get_refines k d = elim (Option-cases (find_member k d db.members)) [
    | inl e ↦ ground arith
    | inr (m, e) ↦ ground arith
  ]

  add_refines :
      (k d : ℕ) (role : Option ℕ)
      → seen (add_member T caller k d role now db)
        ≡ admit T
            (is_open_in db.communities)
            caller
            k
            d
            (given_or role role_member)
            (roster db.members)
  unfolding add_member
  add_refines k d role =
      let verdict = admin_verdict k caller db.members in
      let upsert =
        roster_path (roster (upsert_member k d (given_or role role_member) now db.members))
          (assign k d (some (given_or role role_member)) (roster db.members))
          (roster-upsert k d (given_or role role_member) now db.members) in
      elim (Bool-cases (is_admin (roster db.members k caller))) [
        | inr f ↦ ground arith
        | inl t ↦ elim (Option-cases (live_community k db.communities)) [
          | inl e ↦ ground arith
          | inr (c, e) ↦ ground arith
        ]
      ]

  update_refines :
      (k d role : ℕ)
      → seen (update_member T caller k d role db)
        ≡ promote T (is_open_in db.communities) caller k d role (roster db.members)
  unfolding update_member
  update_refines k d role =
      let verdict = admin_verdict k caller db.members in
      elim (Bool-cases (is_admin (roster db.members k caller))) [
        | inr f ↦ ground arith
        | inl t ↦ elim (Bool-cases (T.is_public_key d)) [
          | inr f ↦ ground arith
          | inl v ↦ elim (Option-cases (find_member k d db.members)) [
            | inl e ↦ let absent = roster-none k d db.members e in ground arith
            | inr (m, e) ↦
                let present = roster-some k d db.members m e in
                let written =
                  roster_path (roster (set_role k d role db.members))
                    (assign k d (some role) (roster db.members))
                    (roster-set_role k d role db.members m e) in
                ground arith
          ]
        ]
      ]

  remove_refines :
      (k d : ℕ)
      → seen (remove_member T caller k d now db)
        ≡ dismiss T (is_open_in db.communities) caller k d (roster db.members)
  unfolding remove_member
  remove_refines k d =
      let held = holds_admin-roster k caller db.members in
      elim (Bool-cases (T.is_public_key d)) [
        | inr f ↦ ground arith
        | inl v ↦
            elim (Bool-cases (not (caller == d) && not (is_admin (roster db.members k caller)))) [
              | inl t ↦ ground arith
              | inr g ↦ elim (Option-cases (find_member k d db.members)) [
                | inl e ↦ let absent = roster-none k d db.members e in ground arith
                | inr (m, e) ↦
                    let present = roster-some k d db.members m e in
                    let written =
                      roster_path (roster (soft_remove k d now db.members))
                        (assign k d none (roster db.members))
                        (roster-soft_remove k d now db.members) in
                    ground arith
              ]
            ]
      ]

  add_keeps :
      (k d : ℕ) (role : Option ℕ)
      → (add_member T caller k d role now db).1.communities ≡ db.communities
  unfolding add_member
  add_keeps k d role =
      let verdict = admin_verdict k caller db.members in
      elim (Bool-cases (is_admin (roster db.members k caller))) [
        | inr f ↦ ground arith
        | inl t ↦ elim (Option-cases (live_community k db.communities)) [
          | inl e ↦ ground arith
          | inr (c, e) ↦ ground arith
        ]
      ]

  update_keeps :
      (k d role : ℕ) → (update_member T caller k d role db).1.communities ≡ db.communities
  unfolding update_member
  update_keeps k d role =
      let verdict = admin_verdict k caller db.members in
      elim (Bool-cases (is_admin (roster db.members k caller))) [
        | inr f ↦ ground arith
        | inl t ↦ elim (Option-cases (find_member k d db.members)) [
          | inl e ↦ ground arith
          | inr (m, e) ↦ ground arith
        ]
      ]

  remove_keeps : (k d : ℕ) → (remove_member T caller k d now db).1.communities ≡ db.communities
  unfolding remove_member
  remove_keeps k d = elim (Option-cases (find_member k d db.members)) [
    | inl e ↦ ground arith
    | inr (m, e) ↦ ground arith
  ]

  serve_member-specified :
      (request : MemberRequest)
      → (seen (serve_member T caller now request db)
          ≡ specified T (is_open_in db.communities) caller request (roster db.members))
        × ((serve_member T caller now request db).1.communities ≡ db.communities)
  unfolding serve_member specified
  serve_member-specified (reads_member k d) =
      (ap (λ x. (x, roster db.members)) (get_refines k d), refl)
  serve_member-specified (adds_member k d role) = (add_refines k d role, add_keeps k d role)
  serve_member-specified (changes_role k d role) = (update_refines k d role, update_keeps k d role)
  serve_member-specified (removes_member k d) = (remove_refines k d, remove_keeps k d)

-- A request on the members, with its caller and its time.
pub record MemberCall : Type 0 where
  pub caller : ℕ
  pub now : ℕ
  pub request : MemberRequest

module _ (T : Texts) where
  -- The requests one after the other, with their answers.
  unfoldable pub serve_members : List MemberCall → Tables → List CommunityAnswer × Tables
  serve_members [] db = ([], db)
  serve_members (c ∷ cs) db =
      let (answer, db') = serve_member T c.caller c.now c.request db in
      let (answers, after) = serve_members cs db' in (answer ∷ answers, after)

  unfoldable pub specified_all :
      (ℕ → Bool) → List MemberCall → Roster → List CommunityAnswer × Roster
  specified_all is_open [] roster = ([], roster)
  specified_all is_open (c ∷ cs) roster =
      let (answer, roster') = specified T is_open c.caller c.request roster in
      let (answers, after) = specified_all is_open cs roster' in (answer ∷ answers, after)

  -- Whatever requests on members come one after the other, from whatever tables: their answers,
  -- and the roles that can be read from the table after them, are those of the abstract roster,
  -- a map from communities and addresses to roles that an addition sets, a change of role
  -- overwrites and a removal clears, and that knows nothing of rows and soft deletion.
  pub serve_members-specified_all :
      (calls : List MemberCall) (db : Tables)
      → ((serve_members calls db).0, roster (serve_members calls db).1.members)
        ≡ specified_all (is_open_in db.communities) calls (roster db.members)
  unfolding serve_members specified_all
  serve_members-specified_all [] db = refl
  serve_members-specified_all (c ∷ cs) db =
      let (step, kept) = serve_member-specified T c.caller c.now db c.request in
      let rest = serve_members-specified_all cs (serve_member T c.caller c.now c.request db).1 in
      ground arith
