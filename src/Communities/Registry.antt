-- ===== src/Communities/Registry.antt =====
-- communities.ts: POST /, PUT /:id, DELETE /:id and POST /:id/avatar. The routes that await between
-- their guards and their transaction are a `…_check` and a `…_commit`; a validated body is given,
-- and so is the address that `requireAuth` has found.
use coop_lumen_index.Base.{
  ℕ, ◌≡◌, refl, Bool, true, false, not, ◌⊎◌, inl, inr, Option, none, some, List, [], ◌∷◌,
  if◌then◌else◌, ◌==◌, find,
}
use coop_lumen_index.Http.Guards.{
  Member, Verdict, authentication_required, invalid_token, requires_role, requires_operator, passes,
  require_community_role,
}
use coop_lumen_index.Communities.{
  Community, CommunitySettings, Tables, Texts, DatabaseError, name_taken, other_error,
  CommunityAnswer, refused, created, updated, deleted, avatar_set, issuer_mismatch,
  community_name_exists, community_not_found, community_create_failed, community_update_failed,
  invalid_id, failed, role_admin, role_treasurer,
}
use coop_lumen_index.Communities.Store.{
  Statement, followed_by, in_transaction, is_live, live_community, update_where,
  find_community_by_normalized_name, insert_community, update_community, insert_member,
  insert_created_entry, upsert_settings,
}

pub record CreateCommunityBody : Type 0 where
  pub name : ℕ
  pub description : Option ℕ
  pub issuer_public_key : ℕ
  pub asset_code : ℕ
  pub asset_issuer : ℕ

-- A field that the body does not have is none; `description` may also be null.
pub record UpdateCommunityBody : Type 0 where
  pub name : Option ℕ
  pub description : Option (Option ℕ)
  pub settings : Option ℕ

abbrev pub new_community : CreateCommunityBody → ℕ → ℕ → Community
new_community body fresh now = record {
  id = fresh;
  name = body.name;
  description = body.description;
  issuer_public_key = body.issuer_public_key;
  asset_code = body.asset_code;
  asset_issuer = body.asset_issuer;
  avatar_url = none;
  created_at = now;
  deleted_at = none;
}

abbrev pub first_admin : CreateCommunityBody → ℕ → ℕ → Member
first_admin body fresh now = record {
  community_id = fresh;
  stellar_address = body.issuer_public_key;
  role = role_admin;
  joined_at = now;
  deleted_at = none;
}

-- The guard of a route goes on only with the verdict `passes`.
abbrev pub guarded : {A : Type 0} → Verdict → (CommunityAnswer → A) → A → A
guarded (passes _) answer rest = rest
guarded authentication_required answer rest = answer (refused authentication_required)
guarded invalid_token answer rest = answer (refused invalid_token)
guarded requires_role answer rest = answer (refused requires_role)
guarded requires_operator answer rest = answer (refused requires_operator)

pub guarded_cases :
    {A : Type 0} (v : Verdict) (answer : CommunityAnswer → A) (rest : A)
    → ((guarded v answer rest ≡ answer (refused v))) ⊎ (guarded v answer rest ≡ rest)
guarded_cases authentication_required answer rest = inl refl
guarded_cases invalid_token answer rest = inl refl
guarded_cases requires_role answer rest = inl refl
guarded_cases requires_operator answer rest = inl refl
guarded_cases (passes a) answer rest = inr refl

-- COALESCE(cs.settings, '{}') of getCommunityWithSettings.
abbrev pub settings_of : ℕ → ℕ → List CommunitySettings → ℕ
settings_of default id rows = elim (find (λ s. s.community_id == id) rows) [
  | none ↦ default
  | some s ↦ s.settings
]

abbrev pub given_or {ℓ} : {A : Type ℓ} → Option A → A → A
given_or none old = old
given_or (some new) old = new

-- The CASEs of the UPDATE.
abbrev pub renamed : UpdateCommunityBody → Community → Community
renamed body c = record c {
  name = given_or body.name c.name;
  description = given_or body.description c.description;
}

abbrev pub save_settings : Option ℕ → ℕ → Statement (Unit {0})
save_settings none id db = inr (tt, db)
save_settings (some settings) id db = upsert_settings id settings db

module _ (T : Texts) where
  open T use {trim_lower, empty_settings, is_uuid}

  unfoldable pub create_check : ℕ → CreateCommunityBody → Tables → Option CommunityAnswer
  create_check caller body db =
      if not (caller == body.issuer_public_key)
      then some issuer_mismatch
      else elim (find_community_by_normalized_name T body.name none db.communities) [
        | some _ ↦ some community_name_exists
        | none ↦ none
      ]

  unfoldable pub create_tx : CreateCommunityBody → ℕ → ℕ → Statement Community
  create_tx body fresh now = followed_by (insert_community T (new_community body fresh now)) λ row.
      followed_by (insert_member (first_admin body fresh now)) λ _.
        followed_by
          (insert_created_entry record {
            community_id = fresh;
            actor_address = body.issuer_public_key;
            name = body.name;
            asset_code = body.asset_code;
          })
          λ _ db. inr (row, db)

  -- The `catch` of the route.
  abbrev pub create_answer : DatabaseError ⊎ Community → CommunityAnswer
  create_answer (inr row) = created row empty_settings
  create_answer (inl name_taken) = community_name_exists
  create_answer (inl other_error) = community_create_failed

  unfoldable pub create_commit : CreateCommunityBody → ℕ → ℕ → Tables → CommunityAnswer × Tables
  create_commit body fresh now db =
      let (result, db') = in_transaction (create_tx body fresh now) db in
      (create_answer result, db')

  abbrev pub is_duplicate : Option ℕ → Community → List Community → Bool
  is_duplicate none c cs = false
  is_duplicate (some name) c cs =
      if trim_lower name == trim_lower c.name
      then false
      else elim (find_community_by_normalized_name T name (some c.id) cs) [
        | some _ ↦ true
        | none ↦ false
      ]

  -- PUT /:id after requireCommunityRole: an answer, or the settings that the transaction's answer
  -- falls back on.
  unfoldable pub check_update : ℕ → UpdateCommunityBody → Tables → CommunityAnswer ⊎ ℕ
  check_update id body db = elim (is_uuid id) [
    | false ↦ inl invalid_id
    | true ↦ elim (live_community id db.communities) [
      | none ↦ inl community_not_found
      | some c ↦
          if is_duplicate body.name c db.communities
          then inl community_name_exists
          else inr (settings_of empty_settings id db.community_settings)
    ]
  ]

  unfoldable pub update_check : ℕ → ℕ → UpdateCommunityBody → Tables → CommunityAnswer ⊎ ℕ
  update_check caller id body db =
      guarded
        (require_community_role (role_admin ∷ role_treasurer ∷ []) id db.members (some caller)) inl
        (check_update id body db)

  unfoldable pub update_tx : ℕ → UpdateCommunityBody → Statement (Option Community)
  update_tx id body =
      followed_by (update_community T (renamed body) id)
        λ row. followed_by (save_settings body.settings id) λ _ db. inr (row, db)

  abbrev pub update_answer : ℕ → DatabaseError ⊎ Option Community → CommunityAnswer
  update_answer settings (inr row) = updated row settings
  update_answer settings (inl name_taken) = community_name_exists
  update_answer settings (inl other_error) = community_update_failed

  unfoldable pub update_commit : ℕ → UpdateCommunityBody → ℕ → Tables → CommunityAnswer × Tables
  update_commit id body old_settings db =
      let (result, db') = in_transaction (update_tx id body) db in
      (update_answer (given_or body.settings old_settings) result, db')

  -- UPDATE communities SET deleted_at = NOW() WHERE id = $1 AND deleted_at IS NULL RETURNING id
  unfoldable pub mark_deleted : ℕ → ℕ → Tables → CommunityAnswer × Tables
  mark_deleted id now db = elim (is_uuid id) [
    | false ↦ (invalid_id, db)
    | true ↦ elim (live_community id db.communities) [
      | none ↦ (community_not_found, db)
      | some c ↦ (
        deleted c.id,
        record db {
          communities =
              update_where (is_live id) (λ c. record c { deleted_at = some now }) db.communities;
        },
      )
    ]
  ]

  unfoldable pub delete_community : ℕ → ℕ → ℕ → Tables → CommunityAnswer × Tables
  delete_community caller id now db =
      guarded (require_community_role (role_admin ∷ []) id db.members (some caller))
        (λ answer. (answer, db)) (mark_deleted id now db)

  abbrev pub with_avatar : ℕ → Community → Community
  with_avatar url c = record c { avatar_url = some url }

  -- UPDATE communities SET avatar_url = $1 WHERE id = $2 AND deleted_at IS NULL RETURNING …
  unfoldable pub save_avatar : ℕ → ℕ → Tables → CommunityAnswer × Tables
  save_avatar id url db = elim (live_community id db.communities) [
    | none ↦ (community_not_found, db)
    | some c ↦ if not (T.row_checks (with_avatar url c)) then (failed, db) else (
      avatar_set c.id (some url),
      record db { communities = update_where (is_live id) (with_avatar url) db.communities },
    )
  ]

  unfoldable pub set_avatar : ℕ → ℕ → ℕ → Tables → CommunityAnswer × Tables
  set_avatar caller id url db =
      guarded
        (require_community_role (role_admin ∷ role_treasurer ∷ []) id db.members (some caller))
        (λ answer. (answer, db)) (save_avatar id url db)
