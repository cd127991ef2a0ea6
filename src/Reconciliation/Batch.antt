-- ===== src/Reconciliation/Batch.antt =====
-- app/services/reconciliation/document_audit_batch_service.py: the audit of a page of documents.
pub mod Counts
pub mod Order
pub mod Pages
pub mod Walk
use documents_rag.Base.{
  ℕ, suc, ◌+◌, Bool, true, false, not, ltb, leb, ◌==◌, ◌&&◌, ◌||◌, List, [], ◌∷◌, ◌++◌, Option,
  none, some, Result, ok, err, Text, any, all, select, take, length, if◌then◌else◌,
}
use documents_rag.Db.{Db}
use documents_rag.Db.Env.{Env}
use documents_rag.Db.Models.{Document}
use documents_rag.Db.Rows.{order_by}
use documents_rag.External.{VectorStore, FileStorage}
use documents_rag.Reconciliation.Audit.{audit_document_lifecycle}
use documents_rag.Reconciliation.Cursor.{
  Codec, AuditCursor, CursorError, encode_audit_cursor, decode_audit_cursor,
}
use documents_rag.Reconciliation.Findings.{
  AuditOverallStatus, FindingSeverity, DocumentLifecycleFinding, DocumentLifecycleFindingCode,
  DocumentLifecycleAuditResult, document_missing, object_missing, storage_inspection_unavailable,
  active_collection_missing, active_vectors_missing, vector_inspection_unavailable,
  index_metadata_incomplete, ingestion_in_progress, stale_ingestion_job, deletion_pending,
  deletion_processing, deletion_partially_failed, vector_cleanup_incomplete,
  reindex_target_built_not_activated, reindex_cleanup_pending,
}
use documents_rag.Reconciliation.Triage.{
  BatchCounters, DocumentAuditClassification, DocumentAuditSummary,
  DocumentLifecycleAuditBatchResult, FindingCounts, add_all, add_findings, add_one, add_unavailable,
  audit_page, classify_document_audit, consistent, count_class, default_batch_limit, get_count,
  inconsistent, is_info, is_unavailable, lacks_dependency, max_batch_limit, min_batch_limit,
  no_counts, not_found, position, record_summary, same_code, summary_of, transitional, warning,
}

-- InvalidAuditBatchLimitError and InvalidAuditCursorError
pub data BatchError : Type 0 where
  invalid_limit : ℕ → BatchError
  invalid_cursor : CursorError → BatchError

-- the order of texts, code point by code point
unfoldable pub text_lt : Text → Text → Bool
text_lt [] [] = false
text_lt [] (d ∷ ds) = true
text_lt (c ∷ cs) [] = false
text_lt (c ∷ cs) (d ∷ ds) = ltb c d || ((c == d) && text_lt cs ds)

-- `ORDER BY created_at ASC, id ASC`
abbrev pub older_first : Document → Document → Bool
older_first a b = ltb a.created_at b.created_at || ((a.created_at == b.created_at) && leb a.id b.id)

abbrev pub is_after : Env → Option AuditCursor → Document → Bool
is_after env none document = true
is_after env (some cursor) document =
    ltb cursor.created_at document.created_at
    || ((document.created_at == cursor.created_at)
        && text_lt cursor.document_id (env.show_uuid document.id))

-- the rows in order, those after the cursor, one more than the limit
unfoldable pub select_document_page : Env → Db → ℕ → Option AuditCursor → List Document
select_document_page env db limit cursor =
    take (suc limit) (select (is_after env cursor) (order_by older_first db.documents))

module _ (codec : Codec) where
  -- `page[-1]`
  unfoldable pub last_cursor : Env → List Document → Option Text
  last_cursor env [] = none
  last_cursor env (d ∷ ds) = elim ds [
    | [] ↦ some (encode_audit_cursor codec env d.created_at d.id)
    | e ∷ es ↦ last_cursor env ds
  ]

  abbrev pub batch_of :
      List DocumentAuditSummary × BatchCounters
      → Option Text
      → Bool
      → DocumentLifecycleAuditBatchResult
  batch_of (summaries, counters) next_cursor has_more = record {
    scanned_count = length summaries;
    counters = counters;
    documents = summaries;
    next_cursor = next_cursor;
    has_more = has_more;
  }

  unfoldable pub batch_from :
      Env
      → Db
      → (ℕ → DocumentLifecycleAuditResult)
      → ℕ
      → Option AuditCursor
      → DocumentLifecycleAuditBatchResult
  unfolding last_cursor select_document_page audit_page
  batch_from env db audit limit cursor =
      let rows = select_document_page env db limit cursor in
      let page = take limit rows in
      let has_more = ltb limit (length rows) in
      batch_of (audit_page audit ([], no_counts) page)
        (if has_more then last_cursor env page else none) has_more

  -- `decode_audit_cursor(cursor) if cursor is not None else None`
  abbrev pub decode_optional : Option Text → Result CursorError (Option AuditCursor)
  decode_optional none = ok none
  decode_optional (some cursor) = elim (decode_audit_cursor codec cursor) [
    | ok c ↦ ok (some c)
    | err e ↦ err e
  ]

  abbrev pub batch_at :
      Env
      → Db
      → (ℕ → DocumentLifecycleAuditResult)
      → ℕ
      → Result CursorError (Option AuditCursor)
      → Result BatchError DocumentLifecycleAuditBatchResult
  batch_at env db audit limit (err e) = err (invalid_cursor e)
  batch_at env db audit limit (ok cursor) = ok (batch_from env db audit limit cursor)

  unfoldable pub audit_batch :
      Env
      → Db
      → (ℕ → DocumentLifecycleAuditResult)
      → ℕ
      → Option Text
      → Result BatchError DocumentLifecycleAuditBatchResult
  unfolding batch_from
  audit_batch env db audit limit cursor =
      if ltb limit min_batch_limit || ltb max_batch_limit limit
      then err (invalid_limit limit)
      else batch_at env db audit limit (decode_optional cursor)

  -- `seen i` are the tables when document `i` is audited: other transactions may have committed
  -- since the page was read.
  unfoldable pub audit_document_lifecycle_batch :
      (Text → Text)
      → (store : VectorStore) (files : FileStorage) → Env
      → ℕ
      → Db
      → (ℕ → Db)
      → files.State
      → store.State
      → ℕ
      → Option Text
      → Result BatchError DocumentLifecycleAuditBatchResult
  unfolding audit_batch
  audit_document_lifecycle_batch repr store files env stale_after_seconds db seen f v limit cursor =
      audit_batch env db
        (λ i. audit_document_lifecycle repr store files env stale_after_seconds (seen i) f v i)
        limit cursor
