-- ===== src/Documents/Query/Outcomes.antt =====
-- The list of documents, and the lifecycle that it derives.
use documents_rag.Base.{ℕ, ◌≡◌, refl, true, List, [], ◌∷◌, ◌==◌, any, map, arith}
use documents_rag.Db.{Db}
use documents_rag.Db.Models.{Document, ingestion_row, deletion_row}
use documents_rag.Documents.Query.{
  DocumentSummaryResponse, list_documents, get_latest_ingestion_job, get_latest_deletion_job,
  to_summary, dict_get, get_latest_jobs_for_documents, get_latest_deletion_jobs_for_documents,
  build_document_list_response,
}
use documents_rag.Documents.Query.Batch.{dict_get-latest_by_document}

abbrev ids : List Document → List ℕ
ids documents = map (λ (d : Document). d.id) documents

any-ids-weaken :
    (i : ℕ) (d : Document) (rest : List Document)
    → any (λ k. i == k) (ids rest) ≡ true
    → any (λ k. i == k) (ids (d ∷ rest)) ≡ true
any-ids-weaken i d rest h = ground arith

-- The summary of a document on its own.
abbrev pub summary : Db → Document → DocumentSummaryResponse
summary db d = to_summary d (get_latest_ingestion_job db d.id) (get_latest_deletion_job db d.id)

module _ (db : Db) (all_ids : List ℕ) where
  summaries :
      (documents : List Document)
      → ((i : ℕ) → any (λ k. i == k) (ids documents) ≡ true → any (λ k. i == k) all_ids ≡ true)
      → map
          (λ (d : Document).
            to_summary d
              (dict_get d.id (get_latest_jobs_for_documents db all_ids))
              (dict_get d.id (get_latest_deletion_jobs_for_documents db all_ids)))
          documents
        ≡ map (summary db) documents
  unfolding get_latest_jobs_for_documents get_latest_deletion_jobs_for_documents
  summaries [] h = refl
  summaries (d ∷ rest) h =
      let asked = h d.id (ground arith) in
      cc (
        summaries rest (λ i m. h i (any-ids-weaken i d rest m)),
        dict_get-latest_by_document d.id all_ids db.ingestion_jobs asked,
        dict_get-latest_by_document d.id all_ids db.deletion_jobs asked,
      )

-- Each item of a page is the summary of that document from its own latest ingestion and deletion
-- jobs: the two batch queries of a page never mix up documents or attempts.
pub build_document_list_response-items :
    (db : Db) (limit offset : ℕ)
    → (build_document_list_response db limit offset).items
      ≡ map (summary db) (list_documents db limit offset).0
unfolding build_document_list_response
build_document_list_response-items db limit offset =
    let documents = (list_documents db limit offset).0 in
    summaries db (ids documents) documents (λ i m. m)
