-- ===== src/Reconciliation/Triage.antt =====
-- app/services/reconciliation/document_audit_batch_service.py: the class of an audited document and
-- the counters of a batch.
use documents_rag.Base.{
  ℕ, ◌+◌, Bool, true, false, ◌==◌, List, [], ◌∷◌, ◌++◌, Option, Text, any, all, if◌then◌else◌,
}
use documents_rag.Db.Models.{Document}
use documents_rag.Reconciliation.Findings.{
  AuditOverallStatus, FindingSeverity, DocumentLifecycleFinding, DocumentLifecycleFindingCode,
  DocumentLifecycleAuditResult, document_missing, object_missing, storage_inspection_unavailable,
  active_collection_missing, active_vectors_missing, vector_inspection_unavailable,
  index_metadata_incomplete, ingestion_in_progress, stale_ingestion_job, deletion_pending,
  deletion_processing, deletion_partially_failed, vector_cleanup_incomplete,
  reindex_target_built_not_activated, reindex_cleanup_pending,
}

abbrev pub min_batch_limit : ℕ
min_batch_limit = 1

abbrev pub default_batch_limit : ℕ
default_batch_limit = 20

abbrev pub max_batch_limit : ℕ
max_batch_limit = 50

pub data DocumentAuditClassification : Type 0 where
  not_found inconsistent consistent transitional warning : DocumentAuditClassification

pub record DocumentAuditSummary : Type 0 where
  pub document_id : ℕ
  pub original_filename : Text
  pub created_at : ℕ
  pub overall_status : AuditOverallStatus
  pub classification : DocumentAuditClassification
  pub findings : List DocumentLifecycleFinding

abbrev pub is_info : DocumentLifecycleFinding → Bool
is_info finding = elim finding.severity [ FindingSeverity.info ↦ true | _ ↦ false ]

unfoldable pub classify_document_audit :
    AuditOverallStatus → List DocumentLifecycleFinding → DocumentAuditClassification
classify_document_audit AuditOverallStatus.not_found findings =
    DocumentAuditClassification.not_found
classify_document_audit AuditOverallStatus.inconsistent findings =
    DocumentAuditClassification.inconsistent
classify_document_audit AuditOverallStatus.consistent [] = DocumentAuditClassification.consistent
classify_document_audit AuditOverallStatus.consistent (finding ∷ findings) =
    if all is_info (finding ∷ findings)
    then DocumentAuditClassification.transitional
    else DocumentAuditClassification.warning

-- the codes in the order of their declaration
unfoldable pub position : DocumentLifecycleFindingCode → ℕ
position document_missing = 0
position object_missing = 1
position storage_inspection_unavailable = 2
position active_collection_missing = 3
position active_vectors_missing = 4
position vector_inspection_unavailable = 5
position index_metadata_incomplete = 6
position ingestion_in_progress = 7
position stale_ingestion_job = 8
position deletion_pending = 9
position deletion_processing = 10
position deletion_partially_failed = 11
position vector_cleanup_incomplete = 12
position reindex_target_built_not_activated = 13
position reindex_cleanup_pending = 14

abbrev pub same_code : DocumentLifecycleFindingCode → DocumentLifecycleFindingCode → Bool
same_code a b = position a == position b

-- `code in _DEPENDENCY_UNAVAILABLE_CODES`
abbrev pub is_unavailable : DocumentLifecycleFindingCode → Bool
is_unavailable storage_inspection_unavailable = true
is_unavailable vector_inspection_unavailable = true
is_unavailable _ = false

abbrev pub FindingCounts : Type 0
FindingCounts = List (DocumentLifecycleFindingCode × ℕ)

-- `counts.get(code, 0)`
unfoldable pub get_count : DocumentLifecycleFindingCode → FindingCounts → ℕ
get_count code [] = 0
get_count code ((c, n) ∷ counts) = if same_code c code then n else get_count code counts

-- `counts[code] = counts.get(code, 0) + 1`
unfoldable pub add_one : DocumentLifecycleFindingCode → FindingCounts → FindingCounts
add_one code [] = (code, 1) ∷ []
add_one code ((c, n) ∷ counts) =
    if same_code c code then (c, n + 1) ∷ counts else (c, n) ∷ add_one code counts

unfoldable pub add_all : List DocumentLifecycleFinding → FindingCounts → FindingCounts
unfolding add_one
add_all [] counts = counts
add_all (finding ∷ findings) counts = add_all findings (add_one finding.code counts)

pub record BatchCounters : Type 0 where
  pub consistent_count : ℕ
  pub transitional_count : ℕ
  pub warning_count : ℕ
  pub inconsistent_count : ℕ
  pub not_found_count : ℕ
  pub dependency_unavailable_count : ℕ
  pub finding_counts : FindingCounts

abbrev pub no_counts : BatchCounters
no_counts = record {
  consistent_count = 0;
  transitional_count = 0;
  warning_count = 0;
  inconsistent_count = 0;
  not_found_count = 0;
  dependency_unavailable_count = 0;
  finding_counts = [];
}

unfoldable pub count_class : DocumentAuditClassification → BatchCounters → BatchCounters
count_class DocumentAuditClassification.not_found c = record c {
  not_found_count = c.not_found_count + 1;
}
count_class DocumentAuditClassification.inconsistent c = record c {
  inconsistent_count = c.inconsistent_count + 1;
}
count_class DocumentAuditClassification.consistent c = record c {
  consistent_count = c.consistent_count + 1;
}
count_class DocumentAuditClassification.transitional c = record c {
  transitional_count = c.transitional_count + 1;
}
count_class DocumentAuditClassification.warning c = record c { warning_count = c.warning_count + 1 }

abbrev pub add_findings : List DocumentLifecycleFinding → BatchCounters → BatchCounters
add_findings findings c = record c { finding_counts = add_all findings c.finding_counts }

abbrev pub add_unavailable : Bool → BatchCounters → BatchCounters
add_unavailable true c = record c {
  dependency_unavailable_count = c.dependency_unavailable_count + 1;
}
add_unavailable false c = c

abbrev pub lacks_dependency : DocumentAuditSummary → Bool
lacks_dependency summary =
    any (λ (f : DocumentLifecycleFinding). is_unavailable f.code) summary.findings

-- `_BatchCounters.record`
unfoldable pub record_summary : DocumentAuditSummary → BatchCounters → BatchCounters
unfolding count_class add_all
record_summary summary c =
    add_unavailable (lacks_dependency summary)
      (add_findings summary.findings (count_class summary.classification c))

abbrev pub summary_of : Document → DocumentLifecycleAuditResult → DocumentAuditSummary
summary_of document audit = record {
  document_id = document.id;
  original_filename = document.original_filename;
  created_at = document.created_at;
  overall_status = audit.overall_status;
  classification = classify_document_audit audit.overall_status audit.findings;
  findings = audit.findings;
}

-- the loop over the page; `audit` is the audit of one document
unfoldable pub audit_page :
    (ℕ → DocumentLifecycleAuditResult)
    → List DocumentAuditSummary × BatchCounters
    → List Document
    → List DocumentAuditSummary × BatchCounters
unfolding record_summary
audit_page audit (summaries, counters) [] = (summaries, counters)
audit_page audit (summaries, counters) (document ∷ documents) =
    let summary = summary_of document (audit document.id) in
    audit_page audit (summaries ++ summary ∷ [], record_summary summary counters) documents

pub record DocumentLifecycleAuditBatchResult : Type 0 where
  pub scanned_count : ℕ
  pub counters : BatchCounters
  pub documents : List DocumentAuditSummary
  pub next_cursor : Option Text
  pub has_more : Bool
