-- ===== src/Communities/Effects.antt =====
-- What a request on the registry may do to the rows of communities.
use coop_lumen_index.Base.{
  ℕ, ◌≡◌, inl, inr, false, ◌&&◌, not, none, some, [], ◌∷◌, ◌++◌, arith, ◌⊎◌, ◌==◌, find, any,
  Bool-cases, Option-cases,
}
use coop_lumen_index.Communities.{Community, Tables, Texts, DatabaseError, name_taken, other_error}
use coop_lumen_index.Http.Guards.{Member}
use coop_lumen_index.Communities.Store.{
  is_live, live_community, update_where, in_transaction, insert_community, update_community,
  insert_member, insert_created_entry, upsert_settings,
}
use coop_lumen_index.Communities.Registry.{
  CreateCommunityBody, UpdateCommunityBody, new_community, first_admin, renamed, create_tx,
  create_commit, mark_deleted, save_avatar, with_avatar, update_tx, update_commit,
}
use coop_lumen_index.Communities.Membership.{has_key}

module _ (T : Texts) where
  pub insert_community_cases :
      (row : Community) (db : Tables)
      → ((e : DatabaseError) × (insert_community T row db ≡ inl e))
        ⊎ ((any (λ c. c.id == row.id) db.communities ≡ false)
            × (any (λ c. c.name == row.name) db.communities ≡ false)
            × (insert_community T row db
                ≡ inr (row, record db { communities = db.communities ++ row ∷ [] })))
  unfolding insert_community
  insert_community_cases row db = elim (Bool-cases (T.row_checks row)) [
    | inr f ↦ inl (other_error, ground arith)
    | inl k ↦ elim (Bool-cases (any (λ c. c.id == row.id) db.communities)) [
      | inl t ↦ inl (other_error, ground arith)
      | inr g ↦ elim (Bool-cases (any (λ c. c.name == row.name) db.communities)) [
        | inl t ↦ inl (name_taken, ground arith)
        | inr n ↦ inr (g, n, ground arith)
      ]
    ]
  ]

  pub insert_member_cases :
      (row : Member) (db : Tables)
      → ((e : DatabaseError) × (insert_member row db ≡ inl e))
        ⊎ (insert_member row db ≡ inr (tt, record db { members = db.members ++ row ∷ [] }))
  unfolding insert_member
  insert_member_cases row db =
      elim (Bool-cases (any (has_key row.community_id row.stellar_address) db.members)) [
        | inl t ↦ inl (other_error, ground arith)
        | inr f ↦ inr (ground arith)
      ]

  pub create_effect :
      (fresh now : ℕ) (body : CreateCommunityBody) (db : Tables)
      → ((create_commit T body fresh now db).1.communities ≡ db.communities)
        ⊎ ((any (λ c. c.id == fresh) db.communities ≡ false)
            × ((create_commit T body fresh now db).1.communities
                ≡ db.communities ++ new_community body fresh now ∷ []))
  unfolding create_commit in_transaction create_tx insert_created_entry
  create_effect fresh now body db =
      let row = new_community body fresh now in
      elim (insert_community_cases row db) [
        | inl (e, f) ↦ inl (ground arith)
        | inr (g, n, f) ↦
            elim (insert_member_cases (first_admin body fresh now)
              (record db { communities = db.communities ++ row ∷ [] })) [
                | inl (e, k) ↦ inl (ground arith)
                | inr k ↦ inr (g, ground arith)
              ]
      ]

  pub update_community_cases :
      (write : Community → Community) (id : ℕ) (db : Tables)
      → ((e : DatabaseError) × (update_community T write id db ≡ inl e))
        ⊎ (update_community T write id db ≡ inr (none, db))
        ⊎ ((c : Community) × (update_community T write id db
              ≡ inr (
                some c,
                record db { communities = update_where (λ d. d.id == id) write db.communities },
              )))
  unfolding update_community
  update_community_cases write id db = elim (Option-cases (find (λ c. c.id == id) db.communities)) [
    | inl e ↦ inr (inl (ground arith))
    | inr (c, e) ↦ elim (Bool-cases (T.row_checks (write c))) [
      | inr f ↦ inl (other_error, ground arith)
      | inl k ↦
          elim (Bool-cases
            (any (λ d. not (d.id == id) && (d.name == (write c).name)) db.communities)) [
              | inl t ↦ inl (name_taken, ground arith)
              | inr m ↦ inr (inr (write c, ground arith))
            ]
    ]
  ]

  pub update_effect :
      (id settings : ℕ) (body : UpdateCommunityBody) (db : Tables)
      → ((update_commit T id body settings db).1.communities ≡ db.communities)
        ⊎ ((update_commit T id body settings db).1.communities
            ≡ update_where (λ c. c.id == id) (renamed body) db.communities)
  unfolding update_commit in_transaction update_tx upsert_settings
  update_effect id settings body db =
      let saved = Option-cases body.settings in
      elim (update_community_cases (renamed body) id db) [
        | inl (e, f) ↦ inl (ground arith)
        | inr (inl f) ↦ elim saved [ inl n ↦ inl (ground arith) | inr (s, n) ↦ inl (ground arith) ]
        | inr (inr (c, f)) ↦ elim saved [
          | inl n ↦ inr (ground arith)
          | inr (s, n) ↦ inr (ground arith)
        ]
      ]

  pub mark_deleted_effect :
      (id now : ℕ) (db : Tables)
      → ((mark_deleted T id now db).1.communities ≡ db.communities)
        ⊎ ((mark_deleted T id now db).1.communities
            ≡ update_where (is_live id) (λ c. record c { deleted_at = some now }) db.communities)
  unfolding mark_deleted
  mark_deleted_effect id now db = elim (Bool-cases (T.is_uuid id)) [
    | inr f ↦ inl (ground arith)
    | inl u ↦ elim (Option-cases (live_community id db.communities)) [
      | inl l ↦ inl (ground arith)
      | inr (c, l) ↦ inr (ground arith)
    ]
  ]

  pub save_avatar_effect :
      (id url : ℕ) (db : Tables)
      → ((save_avatar T id url db).1.communities ≡ db.communities)
        ⊎ ((save_avatar T id url db).1.communities
            ≡ update_where (is_live id) (with_avatar T url) db.communities)
  unfolding save_avatar
  save_avatar_effect id url db = elim (Option-cases (live_community id db.communities)) [
    | inl l ↦ inl (ground arith)
    | inr (c, l) ↦ elim (Bool-cases (T.row_checks (with_avatar T url c))) [
      | inr f ↦ inl (ground arith)
      | inl k ↦ inr (ground arith)
    ]
  ]
