-- ===== src/Indexing/Settings.antt =====
-- The settings of app/core/config.py that decide where vectors go, the active configuration that
-- app/rag/embedding_config.py reads off them, and the pinned settings of a build in
-- app/services/indexing/reindex_service.py.
use documents_rag.Base.{ℕ, ◌≡◌, refl, Option, none, some, Text, [], ◌∷◌}
use documents_rag.Indexing.Config.{EmbeddingIndexConfig, checked}

pub record Settings : Type 0 where
  pub qdrant_collection_name : Text
  pub embedding_provider : Text
  pub embedding_model : Option Text
  pub ollama_embedding_model : Text
  pub vector_size : ℕ
  pub embedding_version : Text
  pub chunking_version : Text
  pub chunk_size : ℕ
  pub chunk_overlap : ℕ

-- `self.embedding_model or self.ollama_embedding_model`
unfoldable pub resolved_embedding_model : Settings → Text
resolved_embedding_model settings = elim settings.embedding_model [
  | none ↦ settings.ollama_embedding_model
  | some model ↦ elim model [ [] ↦ settings.ollama_embedding_model | c ∷ cs ↦ c ∷ cs ]
]

-- `none` is the InvalidEmbeddingIndexConfigError of the configuration's check
unfoldable pub get_active_embedding_config : Settings → Option EmbeddingIndexConfig
unfolding resolved_embedding_model
get_active_embedding_config settings = checked (record {
  collection_prefix = settings.qdrant_collection_name;
  provider = settings.embedding_provider;
  model = resolved_embedding_model settings;
  dimension = settings.vector_size;
  embedding_version = settings.embedding_version;
  chunking_version = settings.chunking_version;
})

unfoldable pub build_settings_for_target : Settings → EmbeddingIndexConfig → ℕ → ℕ → Settings
build_settings_for_target base_settings target_config chunk_size chunk_overlap =
    record base_settings {
      embedding_provider = target_config.provider;
      embedding_model = some target_config.model;
      ollama_embedding_model = target_config.model;
      vector_size = target_config.dimension;
      embedding_version = target_config.embedding_version;
      chunking_version = target_config.chunking_version;
      qdrant_collection_name = target_config.collection_prefix;
      chunk_size = chunk_size;
      chunk_overlap = chunk_overlap;
    }

pinned_model :
    (s : Settings) (t : EmbeddingIndexConfig) (n m : ℕ)
    → resolved_embedding_model (build_settings_for_target s t n m) ≡ t.model
unfolding resolved_embedding_model build_settings_for_target
pinned_model s t n m = by_model t.model
  where
    by_model :
        (model : Text)
        → (elim (some model) [ none ↦ model | some x ↦ elim x [ [] ↦ model | c ∷ cs ↦ c ∷ cs ] ])
          ≡ model
    by_model [] = refl
    by_model (c ∷ cs) = refl

-- The settings pinned for a build resolve to the target configuration and no other, whatever the
-- live settings are, and carry the chunking numbers of the call.
pub get_active_embedding_config-build_settings_for_target :
    (base_settings : Settings) (target_config : EmbeddingIndexConfig) (chunk_size chunk_overlap : ℕ)
    → (let pinned =
          build_settings_for_target base_settings target_config chunk_size chunk_overlap in
        (get_active_embedding_config pinned ≡ checked target_config)
        × (pinned.chunk_size ≡ chunk_size)
        × (pinned.chunk_overlap ≡ chunk_overlap))
unfolding get_active_embedding_config build_settings_for_target
get_active_embedding_config-build_settings_for_target s t n m =
    (rw (pinned_model s t n m) refl, refl, refl)
