-- ===== src/Documents/Views/Outcomes.antt =====
-- The failure view of app/services/documents/query_service.py.
use documents_rag.Base.{
  ℕ, ◌≡◌, refl, Bool, true, ◌&&◌, ◌==◌, List, [], ◌∷◌, Option, none, some, any, select, first,
  is_some, arith, if◌then◌else◌, ap, ◌∙◌,
}
use documents_rag.Db.{Db}
use documents_rag.Db.Models.{Document, IngestionJob, document_key, ingestion_row}
use documents_rag.Db.Rows.{get, order_desc, insert_desc}
use documents_rag.Documents.Query.{
  get_latest_failed_ingestion_job, is_failed, sanitize_ingestion_error, option_map, to_summary,
  DocumentSummaryResponse, get_latest_ingestion_job, get_latest_deletion_job,
}
use documents_rag.Documents.Views.{
  get_document_detail_result, get_document_ingestion_result, DocumentDetailResponse,
  get_document_failure_result, failure_of, IngestionFailureResponse,
}

abbrev failed_for : ℕ → IngestionJob → Bool
failed_for d j = (j.document_id == d) && is_failed j.status

some_inserted :
    (x : IngestionJob) (xs : List IngestionJob) → is_some (first (insert_desc x xs)) ≡ true
unfolding insert_desc
some_inserted x [] = refl
some_inserted x (y ∷ ys) = ground arith

some_ordered :
    (p : IngestionJob → Bool) (xs : List IngestionJob)
    → is_some (first (order_desc (select p xs))) ≡ any p xs
unfolding order_desc
some_ordered p [] = refl
some_ordered p (x ∷ xs) =
    ground (arith, some_ordered p xs, some_inserted x (order_desc (select p xs)))

-- The three views of one document against its rows.
pub record ViewsAgree (db : Db) (document_id : ℕ) : Type 0 where
  pub detail_status :
      (get_document_detail_result db document_id).status_code
      ≡ (if is_some (get document_id db.documents) then 200 else 404)
  pub ingestion_status :
      (get_document_ingestion_result db document_id).status_code
      ≡ (if is_some (get document_id db.documents) then 200 else 404)
  pub failure_status : (get_document_failure_result db document_id).status_code ≡ (
      if is_some (get document_id db.documents) && any (failed_for document_id) db.ingestion_jobs
      then 200
      else 404)
  pub lifecycle :
      option_map
        (λ (r : DocumentDetailResponse). r.status)
        (get_document_detail_result db document_id).response
      ≡ option_map
          (λ (s : DocumentSummaryResponse). s.status)
          (option_map
            (λ d.
              to_summary d
                (get_latest_ingestion_job db document_id)
                (get_latest_deletion_job db document_id))
            (get document_id db.documents))
  pub failure_text :
      option_map
        (λ (r : IngestionFailureResponse). r.safe_message)
        (get_document_failure_result db document_id).response
      ≡ option_map
          (λ j. sanitize_ingestion_error none)
          (get_document_failure_result db document_id).response

failure_code :
    (document_id : ℕ) (job : Option IngestionJob)
    → (failure_of document_id job).status_code ≡ (if is_some job then 200 else 404)
unfolding failure_of
failure_code d none = refl
failure_code d (some j) = refl

failure_message :
    (document_id : ℕ) (job : Option IngestionJob)
    → option_map
        (λ (r : IngestionFailureResponse). r.safe_message)
        (failure_of document_id job).response
      ≡ option_map (λ j. sanitize_ingestion_error none) (failure_of document_id job).response
unfolding failure_of sanitize_ingestion_error
failure_message d none = refl
failure_message d (some j) = refl

views_of :
    (db : Db) (document_id : ℕ) (found : Option Document)
    → get document_id db.documents ≡ found
    → ViewsAgree db document_id
unfolding get_document_detail_result get_document_ingestion_result get_document_failure_result
    get_latest_failed_ingestion_job to_summary
views_of db d none e = record {
  detail_status = rw e refl;
  ingestion_status = rw e refl;
  failure_status = rw e refl;
  lifecycle = rw e refl;
  failure_text = rw e refl;
}
views_of db d (some document) e = record {
  detail_status = rw e refl;
  ingestion_status = rw e refl;
  failure_status = rw e (
      failure_code d (get_latest_failed_ingestion_job db d)
      ∙ ap (λ b. if b then 200 else 404) (some_ordered (failed_for d) db.ingestion_jobs));
  lifecycle = rw e refl;
  failure_text = rw e (failure_message d (get_latest_failed_ingestion_job db d));
}

-- The detail and the ingestion view answer 200 exactly if the document exists, the failure view
-- exactly if it also has a failed ingestion job, and 404 otherwise; the detail view shows the same
-- lifecycle as the list; the failure view shows a fixed text, whatever the job's error says.
pub get_document_results-ViewsAgree : (db : Db) (document_id : ℕ) → ViewsAgree db document_id
get_document_results-ViewsAgree db document_id =
    views_of db document_id (get document_id db.documents) refl
