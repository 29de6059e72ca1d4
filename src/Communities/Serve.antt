-- ===== src/Communities/Serve.antt =====
-- Requests on the registry of communities, each from its guards to its answer.
use coop_lumen_index.Base.{ℕ, inl, inr, none, some}
use coop_lumen_index.Communities.{Tables, Texts, CommunityAnswer}
use coop_lumen_index.Communities.Registry.{
  CreateCommunityBody, UpdateCommunityBody, create_check, create_commit, update_check,
  update_commit, delete_community, set_avatar,
}

pub data RegistryRequest : Type 0 where
  creates_community : CreateCommunityBody → RegistryRequest
  updates_community : ℕ → UpdateCommunityBody → RegistryRequest
  deletes_community : ℕ → RegistryRequest
  sets_avatar : ℕ → ℕ → RegistryRequest

module _ (T : Texts) where
  -- A request from its guards to its answer, with no other in between.
  unfoldable pub serve_registry : ℕ → ℕ → ℕ → RegistryRequest → Tables → CommunityAnswer × Tables
  serve_registry caller fresh now (creates_community body) db =
      elim (create_check T caller body db) [
        | some answer ↦ (answer, db)
        | none ↦ create_commit T body fresh now db
      ]
  serve_registry caller fresh now (updates_community id body) db =
      elim (update_check T caller id body db) [
        | inl answer ↦ (answer, db)
        | inr settings ↦ update_commit T id body settings db
      ]
  serve_registry caller fresh now (deletes_community id) db = delete_community T caller id now db
  serve_registry caller fresh now (sets_avatar id url) db = set_avatar T caller id url db
