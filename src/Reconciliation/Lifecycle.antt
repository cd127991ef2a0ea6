-- ===== src/Reconciliation/Lifecycle.antt =====
-- app/services/reconciliation/document_audit_service.py: what the audit reads off the job tables.
-- `repr` is Python's `!r` of a text.
use documents_rag.Base.{
  ℕ, Bool, true, false, not, ◌&&◌, List, [], ◌∷◌, ◌++◌, Option, none, some, Text, codes, decimal,
  is_some, any, select, map, if◌then◌else◌, text_eq,
}
use documents_rag.Db.Env.{Env}
use documents_rag.Db.Models.{
  Document, IngestionJob, IngestionStatus, DocumentDeletionJob, DocumentDeletionStatus, ReindexJob,
  VectorCleanupJob, VectorCleanupStatus,
}
use documents_rag.Indexing.Vectors.{is_built, in_list}
use documents_rag.Ingestion.Retry.{is_stale_processing}
use documents_rag.Reconciliation.Findings.{
  FindingSeverity, DocumentLifecycleFinding, deletion_finding, index_metadata_incomplete,
  stale_ingestion_job, ingestion_in_progress, reindex_target_built_not_activated,
  reindex_cleanup_pending, vector_cleanup_incomplete,
}

-- `latest_deletion is not None and latest_deletion.status in (COMPLETED,)`
abbrev pub is_deleted : Option DocumentDeletionJob → Bool
is_deleted none = false
is_deleted (some job) = elim job.status [ DocumentDeletionStatus.completed ↦ true | _ ↦ false ]

abbrev pub deletion_findings : Option DocumentDeletionJob → List DocumentLifecycleFinding
deletion_findings none = []
deletion_findings (some job) = deletion_finding job

abbrev pub index_metadata_complete : Document → Bool
index_metadata_complete document =
    is_some document.collection_name
    && is_some document.embedding_provider
    && is_some document.embedding_model
    && is_some document.embedding_version
    && is_some document.chunking_version

abbrev pub metadata_incomplete : DocumentLifecycleFinding
metadata_incomplete = record {
  code = index_metadata_incomplete;
  severity = FindingSeverity.error;
  summary = codes "Ingestion completed but active index metadata is incomplete.";
  expected_state = codes "collection_name and embedding_* metadata are all set.";
  actual_state = codes "One or more active index metadata fields are null.";
  suggested_action =
      codes "Inspect the document's indexing history; do not re-index "
      ++ codes "automatically from this finding alone.";
  destructive_risk = false;
}

abbrev pub stale_ingestion : ℕ → DocumentLifecycleFinding
stale_ingestion stale_after_seconds = record {
  code = stale_ingestion_job;
  severity = FindingSeverity.warning;
  summary = codes "The active ingestion job has not progressed within the stale threshold.";
  expected_state =
      codes "A PROCESSING job updates within " ++ (decimal stale_after_seconds ++ codes "s.");
  actual_state = codes "The job has not been updated within that threshold.";
  suggested_action =
      codes "Consider running the existing stale-ingestion recovery "
      ++ codes "script; this audit never recovers it automatically.";
  destructive_risk = false;
}

abbrev pub ingestion_running : DocumentLifecycleFinding
ingestion_running = record {
  code = ingestion_in_progress;
  severity = FindingSeverity.info;
  summary = codes "Ingestion is actively in progress.";
  expected_state = codes "A PROCESSING job resolves to COMPLETED or FAILED.";
  actual_state = codes "The job is PROCESSING and within the stale threshold.";
  suggested_action = codes "No action needed; this is a normal transitional state.";
  destructive_risk = false;
}

abbrev pub ingestion_queued : DocumentLifecycleFinding
ingestion_queued = record {
  code = ingestion_in_progress;
  severity = FindingSeverity.info;
  summary = codes "Ingestion is queued but not yet started.";
  expected_state = codes "A PENDING job is eventually claimed by the ingestion worker.";
  actual_state = codes "The job is PENDING.";
  suggested_action = codes "No action needed; this is a normal transitional state.";
  destructive_risk = false;
}

unfoldable pub ingestion_findings :
    Env → ℕ → Document → Option IngestionJob → List DocumentLifecycleFinding
ingestion_findings env stale_after_seconds document none = []
ingestion_findings env stale_after_seconds document (some job) = elim job.status [
  | IngestionStatus.completed ↦
      if index_metadata_complete document then [] else metadata_incomplete ∷ []
  | IngestionStatus.processing ↦
      if is_stale_processing env stale_after_seconds job
      then stale_ingestion stale_after_seconds ∷ []
      else ingestion_running ∷ []
  | IngestionStatus.pending ↦ ingestion_queued ∷ []
  | IngestionStatus.failed ↦ []
]

abbrev pub cleanup_value : VectorCleanupStatus → Text
cleanup_value VectorCleanupStatus.pending = codes "pending"
cleanup_value VectorCleanupStatus.failed = codes "failed"
cleanup_value VectorCleanupStatus.completed = codes "completed"

-- `reindex_cleanup_collections`: the source of the latest re-index, once it is activated
abbrev pub cleanup_collections : Option ReindexJob → List Text
cleanup_collections none = []
cleanup_collections (some job) =
    if is_built job.status && is_some job.activated_at then job.source_collection_name ∷ [] else []

module _ (repr : Text → Text) where
  abbrev pub target_built : ReindexJob → DocumentLifecycleFinding
  target_built job = record {
    code = reindex_target_built_not_activated;
    severity = FindingSeverity.info;
    summary = codes "A re-index target was built successfully but has not been activated.";
    expected_state = codes "Either activation happens, or the build remains pending review.";
    actual_state =
        codes "Target "
        ++ (repr job.target_collection_name
            ++ codes " is built; the document still serves its prior collection.");
    suggested_action =
        codes "Activate explicitly via the existing re-index activation "
        ++ codes "path when ready; this audit never activates automatically.";
    destructive_risk = false;
  }

  abbrev pub cleanup_pending : ReindexJob → DocumentLifecycleFinding
  cleanup_pending job = record {
    code = reindex_cleanup_pending;
    severity = FindingSeverity.warning;
    summary = codes "Re-index activated; historical vector cleanup has not yet succeeded.";
    expected_state = codes "The vacated source collection's vectors are eventually cleaned up.";
    actual_state =
        codes "Cleanup for "
        ++ (repr job.source_collection_name ++ codes " is still pending or failed.");
    suggested_action =
        codes "The document may still be serving correctly from the "
        ++ (codes "target; allow the existing cleanup worker to retry, or inspect the "
            ++ codes "cleanup job directly.");
    destructive_risk = false;
  }

  abbrev pub cleanup_incomplete : VectorCleanupJob → DocumentLifecycleFinding
  cleanup_incomplete job = record {
    code = vector_cleanup_incomplete;
    severity = FindingSeverity.warning;
    summary = codes "A historical-vector cleanup job remains unresolved.";
    expected_state =
        codes "Cleanup for " ++ (repr job.collection_name ++ codes " eventually succeeds.");
    actual_state = codes "Cleanup job status is " ++ (cleanup_value job.status ++ codes ".");
    suggested_action =
        codes "Allow the existing cleanup worker to retry; this audit never "
        ++ codes "executes or creates cleanup work.";
    destructive_risk = false;
  }

  unfoldable pub reindex_findings :
      Option ReindexJob → List VectorCleanupJob → List DocumentLifecycleFinding
  reindex_findings none pending = []
  reindex_findings (some job) pending =
      if is_built job.status
      then elim job.activated_at [
        | none ↦ target_built job ∷ []
        | some t ↦
            if any (λ (c : VectorCleanupJob). text_eq c.collection_name job.source_collection_name)
              pending
            then cleanup_pending job ∷ []
            else []
      ]
      else []

  -- the cleanup jobs whose collection is not reported already
  unfoldable pub cleanup_findings :
      List Text → List VectorCleanupJob → List DocumentLifecycleFinding
  cleanup_findings reported pending =
      map cleanup_incomplete
        (select (λ (c : VectorCleanupJob). not (in_list c.collection_name reported)) pending)
