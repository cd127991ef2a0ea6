-- ===== src/Tests/Reports.antt =====
-- Reports of a collection, the names it accepts, and the pinned settings of a build.
use documents_rag.Base.{◌≡◌, [], ◌∷◌, none, codes, leb, length}
use documents_rag.Indexing.Config.{EmbeddingIndexConfig, collection_name, checked}
use documents_rag.Indexing.Settings.{
  Settings, get_active_embedding_config, build_settings_for_target,
  get_active_embedding_config-build_settings_for_target,
}
use documents_rag.Reconciliation.Report.{
  validate_collection_name, build_collection_reconciliation_report,
}
use documents_rag.Reconciliation.Report.Outcomes.{
  Replies, build_collection_reconciliation_report-Replies, validate_collection_name-collection_name,
}
use documents_rag.Tests.Data.{env, with_jobs}
use documents_rag.Tests.Stores.{vectors}

abbrev pub live : Settings
live = record {
  qdrant_collection_name = codes "docs";
  embedding_provider = codes "ollama";
  embedding_model = none;
  ollama_embedding_model = codes "bge-m3";
  vector_size = 2;
  embedding_version = codes "1";
  chunking_version = codes "1";
  chunk_size = 800;
  chunk_overlap = 100;
}

abbrev target : EmbeddingIndexConfig
target = record {
  collection_prefix = codes "docs";
  provider = codes "openai";
  model = codes "small";
  dimension = 3;
  embedding_version = codes "2";
  chunking_version = codes "1";
}

get_active_embedding_config-build_settings_for_target_example :
    (get_active_embedding_config (build_settings_for_target live target 500 50) ≡ checked target)
    × ((build_settings_for_target live target 500 50).chunk_size ≡ 500)
    × ((build_settings_for_target live target 500 50).chunk_overlap ≡ 50)
get_active_embedding_config-build_settings_for_target_example =
    get_active_embedding_config-build_settings_for_target live target 500 50

validate_collection_name-collection_name_example :
    validate_collection_name (collection_name target) ≡ leb (length (collection_name target)) 255
validate_collection_name-collection_name_example = validate_collection_name-collection_name target

build_collection_reconciliation_report-Replies_example :
    Replies vectors live (with_jobs []) ((codes "c1", 1) ∷ []) (codes "c1") (
      build_collection_reconciliation_report
        (λ t. t)
        vectors
        env
        live
        (with_jobs [])
        ((codes "c1", 1) ∷ [])
        (codes "c1"))
build_collection_reconciliation_report-Replies_example =
    build_collection_reconciliation_report-Replies (λ t. t) vectors env live (with_jobs [])
      ((codes "c1", 1) ∷ []) (codes "c1")
