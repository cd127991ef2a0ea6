-- ===== src/Indexing/Inspection.antt =====
-- app/services/indexing/reindex_inspection_service.py
pub mod Agreement
use documents_rag.Base.{
  ℕ, Bool, true, false, not, ◌&&◌, Option, none, some, Text, codes, text_eq, is_some, if◌then◌else◌,
}
use documents_rag.Db.{Db, same_text}
use documents_rag.Db.Models.{
  Document, ReindexJob, ReindexJobStatus, deletion_row, reindex_row, document_key,
}
use documents_rag.Db.Rows.{get, latest_for}
use documents_rag.Documents.Deletion.{get_active_reindex_job}
use documents_rag.Indexing.Config.{EmbeddingIndexConfig, collection_name}
use documents_rag.Indexing.Registry.{is_document_stale}

pub data ReindexLifecycleState : Type 0 where
  not_indexed up_to_date stale reindex_pending reindex_processing : ReindexLifecycleState
  target_built activated failed deletion_blocked : ReindexLifecycleState

pub record IndexConfigSnapshot : Type 0 where
  pub collection_name : Option Text
  pub provider : Option Text
  pub model : Option Text
  pub dimension : Option ℕ
  pub embedding_version : Option Text
  pub chunking_version : Option Text
  pub chunk_size : Option ℕ
  pub chunk_overlap : Option ℕ

pub record DocumentReindexState : Type 0 where
  pub document_id : ℕ
  pub state : ReindexLifecycleState
  pub is_stale : Bool
  pub active_index : IndexConfigSnapshot
  pub desired_index : IndexConfigSnapshot
  pub latest_job : Option ReindexJob
  pub can_schedule : Bool
  pub can_activate : Bool

unfoldable pub sanitize_reindex_error : Option Text → Option Text
sanitize_reindex_error none = none
sanitize_reindex_error (some raw_error_message) =
    some (codes "Re-index build failed. See server logs for the underlying error.")

abbrev pub active_index_snapshot : Document → IndexConfigSnapshot
active_index_snapshot document = record {
  collection_name = document.collection_name;
  provider = document.embedding_provider;
  model = document.embedding_model;
  dimension = document.embedding_dimension;
  embedding_version = document.embedding_version;
  chunking_version = document.chunking_version;
  chunk_size = none;
  chunk_overlap = none;
}

abbrev pub desired_index_snapshot : EmbeddingIndexConfig → ℕ → ℕ → IndexConfigSnapshot
desired_index_snapshot target_config chunk_size chunk_overlap = record {
  collection_name = some (collection_name target_config);
  provider = some target_config.provider;
  model = some target_config.model;
  dimension = some target_config.dimension;
  embedding_version = some target_config.embedding_version;
  chunking_version = some target_config.chunking_version;
  chunk_size = some chunk_size;
  chunk_overlap = some chunk_overlap;
}

-- the state that the job for the desired collection is in
abbrev pub job_state : ReindexJob → ReindexLifecycleState
job_state job = elim job.status [
  | ReindexJobStatus.pending ↦ ReindexLifecycleState.reindex_pending
  | ReindexJobStatus.processing ↦ ReindexLifecycleState.reindex_processing
  | ReindexJobStatus.failed ↦ ReindexLifecycleState.failed
  | ReindexJobStatus.completed ↦
      if is_some job.activated_at
      then ReindexLifecycleState.activated
      else ReindexLifecycleState.target_built
]

abbrev pub staleness : Bool → ReindexLifecycleState
staleness is_stale =
    if is_stale then ReindexLifecycleState.stale else ReindexLifecycleState.up_to_date

abbrev pub latest_state : Option ReindexJob → Text → Bool → ReindexLifecycleState
latest_state none desired_collection_name is_stale = staleness is_stale
latest_state (some job) desired_collection_name is_stale =
    if text_eq job.target_collection_name desired_collection_name
    then job_state job
    else staleness is_stale

unfoldable pub derive_state :
    Document → Option ReindexJob → Bool → Text → Bool → ReindexLifecycleState
derive_state document latest_job is_blocked_by_deletion desired_collection_name is_stale =
    if not (is_some document.collection_name)
    then ReindexLifecycleState.not_indexed
    else if is_blocked_by_deletion
    then ReindexLifecycleState.deletion_blocked
    else latest_state latest_job desired_collection_name is_stale

abbrev pub is_activatable : Option ReindexJob → Bool
is_activatable none = false
is_activatable (some job) = elim job.status [
  | ReindexJobStatus.completed ↦ not (is_some job.activated_at)
  | ReindexJobStatus.pending ↦ false
  | ReindexJobStatus.processing ↦ false
  | ReindexJobStatus.failed ↦ false
]

-- `desired` is the active configuration, with the settings' chunk size and overlap; every deletion
-- status blocks
unfoldable pub inspect_found : Db → EmbeddingIndexConfig → ℕ → ℕ → Document → DocumentReindexState
unfolding derive_state
inspect_found db desired chunk_size chunk_overlap document =
    let is_stale = is_document_stale document (collection_name desired) in
    let latest_job = latest_for document.id db.reindex_jobs in
    let active_job = get_active_reindex_job db document.id in
    let is_blocked = is_some (latest_for document.id db.deletion_jobs) in
    record {
      document_id = document.id;
      state = derive_state document latest_job is_blocked (collection_name desired) is_stale;
      is_stale = is_stale;
      active_index = active_index_snapshot document;
      desired_index = desired_index_snapshot desired chunk_size chunk_overlap;
      latest_job = latest_job;
      can_schedule =
          is_some document.collection_name
          && is_stale
          && not (is_some active_job)
          && not is_blocked;
      can_activate = is_activatable latest_job && not is_blocked;
    }

unfoldable pub inspect_document_reindex_state :
    Db → EmbeddingIndexConfig → ℕ → ℕ → ℕ → Option DocumentReindexState
unfolding inspect_found
inspect_document_reindex_state db desired chunk_size chunk_overlap document_id =
    elim (get document_id db.documents) [
      | none ↦ none
      | some document ↦ some (inspect_found db desired chunk_size chunk_overlap document)
    ]
