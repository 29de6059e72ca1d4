-- ===== src/Communities/Reuse.antt =====
-- Registering a community: the name of a row that is still in the table, and what a creation writes.
use coop_lumen_index.Base.{ℕ, ◌≡◌, inl, inr, true, false, none, arith, ◌==◌, any, Option-cases}
use coop_lumen_index.Communities.{Community, Tables, Texts, name_taken, community_name_exists}
use coop_lumen_index.Communities.Store.{
  in_transaction, find_community_by_normalized_name, insert_community,
}
use coop_lumen_index.Communities.Registry.{
  CreateCommunityBody, new_community, create_check, create_tx, create_commit,
}
use coop_lumen_index.Communities.Serve.{creates_community, serve_registry}

module _ (T : Texts) where
  insert_taken :
      (row : Community) (db : Tables)
      → T.row_checks row ≡ true
      → any (λ c. c.id == row.id) db.communities ≡ false
      → any (λ c. c.name == row.name) db.communities ≡ true
      → insert_community T row db ≡ inl name_taken
  unfolding insert_community
  insert_taken row db k i n = ground arith

  -- The creation of a community with exactly the name of a row in the table, deleted or not, is
  -- answered as a duplicate and writes nothing, if its issuer sends it, its columns pass the
  -- checks of the schema and its id is new.
  pub create_name_taken :
      (caller fresh now : ℕ) (body : CreateCommunityBody) (db : Tables)
      → caller ≡ body.issuer_public_key
      → T.row_checks (new_community body fresh now) ≡ true
      → any (λ c. c.id == fresh) db.communities ≡ false
      → any (λ c. c.name == body.name) db.communities ≡ true
      → serve_registry T caller fresh now (creates_community body) db ≡ (community_name_exists, db)
  unfolding serve_registry create_check create_commit create_tx in_transaction
  create_name_taken caller fresh now body db own k i n =
      let taken = insert_taken (new_community body fresh now) db k i n in
      elim (Option-cases (find_community_by_normalized_name T body.name none db.communities)) [
        | inl e ↦ ground arith
        | inr (c, e) ↦ ground arith
      ]
