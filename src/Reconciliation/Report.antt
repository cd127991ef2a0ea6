-- ===== src/Reconciliation/Report.antt =====
-- app/services/reconciliation/collection_reconciliation_report_service.py
pub mod Outcomes
use documents_rag.Base.{
  ℕ, ℤ, sub_ℕ, is_negative, ◌==◌, Bool, true, false, not, ltb, leb, ◌&&◌, List, [], ◌∷◌, ◌++◌,
  Option, none, some, Result, ok, err, Text, text_eq, codes, decimal, select, length, all,
  if◌then◌else◌,
}
use documents_rag.Db.{Db, same_text}
use documents_rag.Db.Env.{Env}
use documents_rag.Db.Models.{Document, IndexCollection, IndexCollectionStatus}
use documents_rag.Documents.Query.{option_map}
use documents_rag.External.{VectorStore}
use documents_rag.Indexing.Config.{EmbeddingIndexConfig, collection_name, is_name_char}
use documents_rag.Indexing.Registry.{get_collection}
use documents_rag.Indexing.Settings.{Settings, get_active_embedding_config}
use documents_rag.Reconciliation.Findings.{FindingSeverity}

pub data CollectionReportClassification : Type 0 where
  healthy inconsistent missing unmanaged : CollectionReportClassification

pub data CollectionReportFindingCode : Type 0 where
  collection_missing collection_unmanaged vector_count_deficit : CollectionReportFindingCode

pub record CollectionReportFinding : Type 0 where
  pub code : CollectionReportFindingCode
  pub severity : FindingSeverity
  pub summary : Text
  pub expected_state : Text
  pub actual_state : Text

pub record CollectionReconciliationReport : Type 0 where
  pub collection_name : Text
  pub classification : CollectionReportClassification
  pub exists : Bool
  pub is_active : Bool
  pub index_collection_status : Option IndexCollectionStatus
  pub embedding_provider : Option Text
  pub embedding_model : Option Text
  pub embedding_dimension : Option ℕ
  pub embedding_version : Option Text
  pub chunking_version : Option Text
  pub document_count : ℕ
  pub expected_vector_count : ℕ
  pub actual_vector_count : ℕ
  pub difference : ℤ
  pub findings : List CollectionReportFinding
  pub generated_at : ℕ

-- What the report raises.
pub data ReportError : Type 0 where
  invalid_collection_name invalid_embedding_config : ReportError
  vector_store_failed : Text → ReportError

-- `^[a-z0-9_-]{1,255}$` on the whole name
unfoldable pub validate_collection_name : Text → Bool
validate_collection_name name =
    leb 1 (length name) && leb (length name) 255 && all is_name_char name

abbrev pub document_count_for_collection : Db → Text → ℕ
document_count_for_collection db name =
    length (select (λ (d : Document). same_text d.collection_name (some name)) db.documents)

module _ (repr : Text → Text) where
  abbrev pub missing_finding : Text → CollectionReportFinding
  missing_finding name = record {
    code = collection_missing;
    severity = FindingSeverity.error;
    summary = codes "The collection does not exist in Qdrant.";
    expected_state = codes "Collection " ++ (repr name ++ codes " exists.");
    actual_state = codes "No such collection was found.";
  }

abbrev pub unmanaged_finding : CollectionReportFinding
unmanaged_finding = record {
  code = collection_unmanaged;
  severity = FindingSeverity.warning;
  summary = codes "The collection exists in Qdrant but has no persisted IndexCollection row.";
  expected_state =
      codes "Every collection this platform serves from has a persisted "
      ++ codes "IndexCollection row.";
  actual_state = codes "No IndexCollection row was found for this collection name.";
}

abbrev pub deficit_finding : ℕ → ℕ → CollectionReportFinding
deficit_finding document_count actual = record {
  code = vector_count_deficit;
  severity = FindingSeverity.error;
  summary = codes "Fewer vectors exist than documents currently claim this collection.";
  expected_state =
      codes "At least "
      ++ (decimal document_count ++ codes " vectors (one per claiming document).");
  actual_state = decimal actual ++ codes " vectors found.";
}

-- what both returns share
abbrev pub report_of :
    Env
    → Text
    → Bool
    → Option IndexCollection
    → ℕ
    → Bool
    → ℕ
    → CollectionReportClassification × List CollectionReportFinding
    → CollectionReconciliationReport
report_of env name is_active row document_count exists actual (classification, findings) = record {
  collection_name = name;
  classification = classification;
  exists = exists;
  is_active = is_active;
  index_collection_status = option_map (λ (c : IndexCollection). c.status) row;
  embedding_provider = option_map (λ (c : IndexCollection). c.embedding_provider) row;
  embedding_model = option_map (λ (c : IndexCollection). c.embedding_model) row;
  embedding_dimension = option_map (λ (c : IndexCollection). c.embedding_dimension) row;
  embedding_version = option_map (λ (c : IndexCollection). c.embedding_version) row;
  chunking_version = option_map (λ (c : IndexCollection). c.chunking_version) row;
  document_count = document_count;
  expected_vector_count = document_count;
  actual_vector_count = actual;
  difference = sub_ℕ actual document_count;
  findings = findings;
  generated_at = env.now;
}

-- a collection that exists
unfoldable pub classify_existing :
    Option IndexCollection → ℕ → ℕ → CollectionReportClassification × List CollectionReportFinding
classify_existing none document_count actual = (unmanaged, unmanaged_finding ∷ [])
classify_existing (some row) document_count actual =
    if is_negative (sub_ℕ actual document_count)
    then (inconsistent, deficit_finding document_count actual ∷ [])
    else (healthy, [])

abbrev pub Reply : Type 0
Reply = Result ReportError CollectionReconciliationReport

module _ (repr : Text → Text) (store : VectorStore) where
  unfoldable pub report_counted :
      Env → Text → Bool → Option IndexCollection → ℕ → Result Text (Option ℕ) → Reply
  unfolding classify_existing
  report_counted env name is_active row document_count (err e) = err (vector_store_failed e)
  report_counted env name is_active row document_count (ok none) = ok (
      report_of env name is_active row document_count false 0
        (missing, missing_finding repr name ∷ []))
  report_counted env name is_active row document_count (ok (some actual)) = ok (
      report_of env name is_active row document_count true actual
        (classify_existing row document_count actual))

  unfoldable pub report_configured :
      Env → Db → store.State → Text → Option EmbeddingIndexConfig → Reply
  unfolding report_counted
  report_configured env db v name none = err invalid_embedding_config
  report_configured env db v name (some active) =
      report_counted env name (text_eq name (collection_name active))
        (get_collection name db.collections) (document_count_for_collection db name)
        (store.count_collection_vectors name v)

  unfoldable pub build_collection_reconciliation_report :
      Env → Settings → Db → store.State → Text → Reply
  unfolding report_configured
  build_collection_reconciliation_report env settings db v name =
      if validate_collection_name name
      then report_configured env db v name (get_active_embedding_config settings)
      else err invalid_collection_name
