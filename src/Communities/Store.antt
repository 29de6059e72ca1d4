-- ===== src/Communities/Store.antt =====
-- The statements that communities.ts sends to PostgreSQL, on the tables of `Tables`, and
-- `db.transaction` of backend/src/db/index.ts around them.
use coop_lumen_index.Base.{
  ℕ, Bool, true, false, ◌&&◌, ◌||◌, not, ◌⊎◌, inl, inr, Option, none, some, List, [], ◌∷◌, ◌++◌,
  if◌then◌else◌, ◌==◌, find, any,
}
use coop_lumen_index.Communities.{
  Community, CreatedEntry, Tables, Texts, DatabaseError, name_taken, other_error,
}
use coop_lumen_index.Http.Guards.{Member}

-- A statement or several: an error, or a result and the tables after it.
abbrev pub Statement : Type 0 → Type 0
Statement A = Tables → DatabaseError ⊎ (A × Tables)

abbrev pub followed_by : {A B : Type 0} → Statement A → (A → Statement B) → Statement B
followed_by m f db = elim (m db) [ inl e ↦ inl e | inr (a, db') ↦ f a db' ]

-- `db.transaction`: an error rolls back, and is thrown to the route's `catch`.
unfoldable pub in_transaction : {A : Type 0} → Statement A → Tables → (DatabaseError ⊎ A) × Tables
in_transaction m db = elim (m db) [ inl e ↦ (inl e, db) | inr (a, db') ↦ (inr a, db') ]

abbrev pub is_null : Option ℕ → Bool
is_null none = true
is_null (some _) = false

abbrev pub is_live : ℕ → Community → Bool
is_live id c = (c.id == id) && is_null c.deleted_at

-- … WHERE id = $1 AND deleted_at IS NULL
abbrev pub live_community : ℕ → List Community → Option Community
live_community id cs = find (is_live id) cs

abbrev pub update_where : {A : Type 0} → (A → Bool) → (A → A) → List A → List A
update_where p f [] = []
update_where p f (x ∷ xs) = (if p x then f x else x) ∷ update_where p f xs

-- `excludeId` of findCommunityByNormalizedName.
abbrev pub is_excluded : Option ℕ → Community → Bool
is_excluded none c = false
is_excluded (some id) c = c.id == id

module _ (T : Texts) where
  open T use {trim_lower, lower_btrim, row_checks}

  abbrev pub has_name : ℕ → Option ℕ → Community → Bool
  has_name name excluded c =
      (lower_btrim c.name == trim_lower name)
      && is_null c.deleted_at
      && not (is_excluded excluded c)

  unfoldable pub find_community_by_normalized_name :
      ℕ → Option ℕ → List Community → Option Community
  find_community_by_normalized_name name excluded cs = find (has_name name excluded) cs

  -- INSERT INTO communities: the CHECKs and the primary key, and the UNIQUE constraint on the name.
  unfoldable pub insert_community : Community → Statement Community
  insert_community row db =
      if not (row_checks row) || any (λ c. c.id == row.id) db.communities
      then inl other_error
      else if any (λ c. c.name == row.name) db.communities
      then inl name_taken
      else inr (row, record db { communities = db.communities ++ row ∷ [] })

  -- UPDATE communities … WHERE id = $5 RETURNING *
  unfoldable pub update_community : (Community → Community) → ℕ → Statement (Option Community)
  update_community write id db = elim (find (λ c. c.id == id) db.communities) [
    | none ↦ inr (none, db)
    | some old ↦
        let row = write old in
        if not (row_checks row)
        then inl other_error
        else if any (λ c. not (c.id == id) && (c.name == row.name)) db.communities
        then inl name_taken
        else inr (
          some row,
          record db { communities = update_where (λ c. c.id == id) write db.communities },
        )
  ]

-- INSERT INTO members (community_id, stellar_address, role), with its primary key.
unfoldable pub insert_member : Member → Statement (Unit {0})
insert_member row db =
    if any (λ m. (m.community_id == row.community_id) && (m.stellar_address == row.stellar_address))
      db.members
    then inl other_error
    else inr (tt, record db { members = db.members ++ row ∷ [] })

-- INSERT INTO transactions_log
unfoldable pub insert_created_entry : CreatedEntry → Statement (Unit {0})
insert_created_entry e db = inr (tt, record db { transactions_log = db.transactions_log ++ e ∷ [] })

-- INSERT INTO community_settings … ON CONFLICT (community_id) DO UPDATE
unfoldable pub upsert_settings : ℕ → ℕ → Statement (Unit {0})
upsert_settings id settings db = inr (
  tt,
  record db {
    community_settings =
        if any (λ s. s.community_id == id) db.community_settings
        then update_where (λ s. s.community_id == id) (λ s. record s { settings = settings })
            db.community_settings
        else db.community_settings ++ record { community_id = id; settings = settings } ∷ [];
  },
)
