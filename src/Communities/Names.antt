-- ===== src/Communities/Names.antt =====
-- The names of communities under the routes that write the registry, one request at a time.
use coop_lumen_index.Communities.Serve.{
  RegistryRequest, creates_community, updates_community, deletes_community, sets_avatar,
  serve_registry,
}
use coop_lumen_index.Communities.Effects.{
  create_effect, update_effect, mark_deleted_effect, save_avatar_effect,
}
use coop_lumen_index.Base.{
  ℕ, ◌≡◌, refl, inl, inr, Bool, true, false, ◌&&◌, ◌||◌, not, Option, none, some, List, [], ◌∷◌,
  ◌++◌, arith, ◌==◌, find, any, all, Bool-cases, Option-cases, Sum-cases,
}
use coop_lumen_index.Communities.{Community, Tables, Texts, role_admin, role_treasurer}
use coop_lumen_index.Http.Guards.{require_community_role}
use coop_lumen_index.Communities.Store.{
  is_null, is_live, live_community, update_where, has_name, find_community_by_normalized_name,
}
use coop_lumen_index.Communities.Registry.{
  CreateCommunityBody, UpdateCommunityBody, new_community, renamed, create_check, create_commit,
  update_check, check_update, mark_deleted, save_avatar, with_avatar, guarded_cases, update_commit,
  delete_community, set_avatar, is_duplicate,
}
use coop_lumen_index.Communities.Clashes.{
  find-none, any-false, all-find, all-map, all-both, all-update, all-snoc, clash, IsDistinct,
  IsDistinct-snoc, IsDistinct-update, live-alone,
}

module _ (T : Texts) where
  open T use {lower_btrim, trim_lower}

  -- The database normalizes the name as the route does.
  abbrev pub agrees : ℕ → Bool
  agrees name = lower_btrim name == trim_lower name

  abbrev pub name_agrees : Option ℕ → Bool
  name_agrees none = true
  name_agrees (some name) = agrees name

  -- No two communities share an id, and no two active ones a normalized name.
  pub record IsRegistry (cs : List Community) : Type 0 where
    pub distinct : IsDistinct T cs
    pub agreeing : all (λ c. agrees c.name) cs ≡ true

  inserted :
      (row : Community) (db : Tables)
      → IsRegistry db.communities
      → agrees row.name ≡ true
      → find_community_by_normalized_name T row.name none db.communities ≡ none
      → any (λ c. c.id == row.id) db.communities ≡ false
      → IsRegistry (db.communities ++ row ∷ [])
  unfolding find_community_by_normalized_name
  inserted row db h a e i =
      let names = find-none (has_name T row.name none) db.communities e in
      let ids = any-false (λ c. c.id == row.id) db.communities i in
      let apart =
        all-map (λ c. not (has_name T row.name none c) && not (c.id == row.id))
          (λ c. not (clash T row c)) (λ c k. ground arith) db.communities
          (all-both (λ c. not (has_name T row.name none c)) (λ c. not (c.id == row.id))
            db.communities names ids) in
      record {
        distinct = IsDistinct-snoc T row db.communities h.distinct apart;
        agreeing = all-snoc (λ c. agrees c.name) db.communities row h.agreeing a;
      }

  create_keeps :
      (caller fresh now : ℕ) (body : CreateCommunityBody) (db : Tables)
      → IsRegistry db.communities
      → agrees body.name ≡ true
      → create_check T caller body db ≡ none
      → IsRegistry (create_commit T body fresh now db).1.communities
  unfolding create_check
  create_keeps caller fresh now body db h a e =
      elim (Option-cases (find_community_by_normalized_name T body.name none db.communities)) [
        | inr (c, f) ↦ absurd (ground arith)
        | inl f ↦ elim (create_effect T fresh now body db) [
          | inl same ↦ rw same h
          | inr (g, same) ↦ rw same (inserted (new_community body fresh now) db h a f g)
        ]
      ]

  -- The name is free for the community with this id.
  abbrev is_free_for : ℕ → ℕ → Community → Bool
  is_free_for id name d =
      (d.id == id) || not ((lower_btrim d.name == lower_btrim name) && is_null d.deleted_at)

  not_duplicate :
      (id name : ℕ) (cs : List Community) (c : Community)
      → IsRegistry cs
      → agrees name ≡ true
      → live_community id cs ≡ some c
      → is_duplicate T (some name) c cs ≡ false
      → all (is_free_for id name) cs ≡ true
  unfolding find_community_by_normalized_name
  not_duplicate id name cs c h a live free =
      let (read, own) = all-find (λ d. agrees d.name) (is_live id) cs c h.agreeing live in
      elim (Bool-cases (trim_lower name == trim_lower c.name)) [
        | inl same ↦
            all-map (λ d. (d.id == id) || not (clash T c d)) (is_free_for id name)
              (λ d k. ground arith) cs (live-alone T id cs c h.distinct live)
        | inr other ↦ elim (Option-cases (find (has_name T name (some c.id)) cs)) [
          | inr (d, e) ↦ absurd (ground arith)
          | inl e ↦
              all-map (λ d. not (has_name T name (some c.id) d)) (is_free_for id name)
                (λ d k. ground arith) cs (find-none (has_name T name (some c.id)) cs e)
        ]
      ]

  renamed-IsRegistry :
      (id : ℕ) (body : UpdateCommunityBody) (cs : List Community) (c : Community)
      → IsRegistry cs
      → name_agrees body.name ≡ true
      → live_community id cs ≡ some c
      → is_duplicate T body.name c cs ≡ false
      → IsRegistry (update_where (λ d. d.id == id) (renamed body) cs)
  renamed-IsRegistry id body cs c h a live free = elim (Option-cases body.name) [
    | inl n ↦ record {
      distinct =
          IsDistinct-update T (λ d. d.id == id) (λ d. true) (renamed body)
            (λ x y p q k. ground arith) cs h.distinct
            (all-map (λ d. agrees d.name) (λ d. true) (λ d k. refl) cs h.agreeing);
      agreeing =
          all-update (λ d. d.id == id) (λ d. agrees d.name) (renamed body) (λ d k. ground arith) cs
            h.agreeing;
    }
    | inr (name, n) ↦ record {
      distinct =
          IsDistinct-update T (λ d. d.id == id) (is_free_for id name) (renamed body)
            (λ x y p q k. ground arith) cs h.distinct
            (not_duplicate id name cs c h (ground arith) live (ground arith));
      agreeing =
          all-update (λ d. d.id == id) (λ d. agrees d.name) (renamed body) (λ d k. ground arith) cs
            h.agreeing;
    }
  ]

  update_keeps :
      (caller id settings : ℕ) (body : UpdateCommunityBody) (db : Tables)
      → IsRegistry db.communities
      → name_agrees body.name ≡ true
      → check_update T id body db ≡ inr settings
      → IsRegistry (update_commit T id body settings db).1.communities
  unfolding check_update
  update_keeps caller id settings body db h a e = elim (Bool-cases (T.is_uuid id)) [
    | inr f ↦ absurd (ground arith)
    | inl u ↦ elim (Option-cases (live_community id db.communities)) [
      | inl l ↦ absurd (ground arith)
      | inr (c, l) ↦ elim (Bool-cases (is_duplicate T body.name c db.communities)) [
        | inl t ↦ absurd (ground arith)
        | inr free ↦ elim (update_effect T id settings body db) [
          | inl same ↦ rw same h
          | inr same ↦ rw same (renamed-IsRegistry id body db.communities c h a l free)
        ]
      ]
    ]
  ]

  write_keeps :
      (p : Community → Bool) (f : Community → Community) (cs : List Community)
      → ((c : Community) → (f c).id ≡ c.id)
      → ((c : Community) → (f c).name ≡ c.name)
      → ((c : Community) → is_null c.deleted_at ≡ false → is_null (f c).deleted_at ≡ false)
      → IsRegistry cs
      → IsRegistry (update_where p f cs)
  write_keeps p f cs ids names dead h = record {
    distinct =
        IsDistinct-update T p (λ d. true) f
          (λ x y q r k.
            let ix = ids x in
            let iy = ids y in
            let nx = names x in
            let ny = names y in let dx = dead x in let dy = dead y in ground arith)
          cs h.distinct (all-map (λ d. agrees d.name) (λ d. true) (λ d k. refl) cs h.agreeing);
    agreeing =
        all-update p (λ d. agrees d.name) f (λ d k. let n = names d in ground arith) cs h.agreeing;
  }

  mark_deleted_keeps :
      (id now : ℕ) (db : Tables)
      → IsRegistry db.communities
      → IsRegistry (mark_deleted T id now db).1.communities
  mark_deleted_keeps id now db h = elim (mark_deleted_effect T id now db) [
    | inl same ↦ rw same h
    | inr same ↦ rw same (
        write_keeps (is_live id) (λ c. record c { deleted_at = some now }) db.communities
          (λ c. refl) (λ c. refl) (λ c k. refl) h)
  ]

  save_avatar_keeps :
      (id url : ℕ) (db : Tables)
      → IsRegistry db.communities
      → IsRegistry (save_avatar T id url db).1.communities
  save_avatar_keeps id url db h = elim (save_avatar_effect T id url db) [
    | inl same ↦ rw same h
    | inr same ↦ rw same (
        write_keeps (is_live id) (with_avatar T url) db.communities (λ c. refl) (λ c. refl)
          (λ c k. k) h)
  ]

  abbrev pub request_agrees : RegistryRequest → Bool
  request_agrees (creates_community body) = agrees body.name
  request_agrees (updates_community id body) = name_agrees body.name
  request_agrees (deletes_community id) = true
  request_agrees (sets_avatar id url) = true

  -- Each request that writes the registry, run with no other in between, keeps it so that no two
  -- communities share an id and no two active ones a name up to case and surrounding blanks, if
  -- the database normalizes the names at hand as the route does.
  pub serve_registry-IsRegistry :
      (caller fresh now : ℕ) (request : RegistryRequest) (db : Tables)
      → IsRegistry db.communities
      → request_agrees request ≡ true
      → IsRegistry (serve_registry T caller fresh now request db).1.communities
  unfolding serve_registry update_check delete_community set_avatar
  serve_registry-IsRegistry caller fresh now (creates_community body) db h a =
      elim (Option-cases (create_check T caller body db)) [
        | inr (answer, e) ↦ rw (e, serve_registry) h
        | inl e ↦ rw (e, serve_registry) (create_keeps caller fresh now body db h a e)
      ]
  serve_registry-IsRegistry caller fresh now (updates_community id body) db h a =
      elim (guarded_cases
        (require_community_role (role_admin ∷ role_treasurer ∷ []) id db.members (some caller)) inl
        (check_update T id body db)) [
          | inl v ↦ rw (v, serve_registry) h
          | inr v ↦ elim (Sum-cases (check_update T id body db)) [
            | inl (answer, e) ↦ rw (v, e, serve_registry) h
            | inr (settings, e) ↦
                rw (v, e, serve_registry) (update_keeps caller id settings body db h a e)
          ]
        ]
  serve_registry-IsRegistry caller fresh now (deletes_community id) db h a =
      elim (guarded_cases (require_community_role (role_admin ∷ []) id db.members (some caller))
        (λ answer. (answer, db)) (mark_deleted T id now db)) [
          | inl v ↦ rw (v, serve_registry) h
          | inr v ↦ rw (v, serve_registry) (mark_deleted_keeps id now db h)
        ]
  serve_registry-IsRegistry caller fresh now (sets_avatar id url) db h a =
      elim (guarded_cases
        (require_community_role (role_admin ∷ role_treasurer ∷ []) id db.members (some caller))
        (λ answer. (answer, db)) (save_avatar T id url db)) [
          | inl v ↦ rw (v, serve_registry) h
          | inr v ↦ rw (v, serve_registry) (save_avatar_keeps id url db h)
        ]
