-- ===== src/Tests/Audits.antt =====
-- Audits of a document whose vectors are gone.
use documents_rag.Base.{ℕ, ◌≡◌, refl, [], ◌∷◌, some, Text, codes, List}
use documents_rag.Db.{Db}
use documents_rag.Db.Models.{Document, IngestionStatus, document_key}
use documents_rag.Db.Rows.{get}
use documents_rag.Reconciliation.Audit.{audit_document_lifecycle}
use documents_rag.Reconciliation.Audit.Outcomes.{verdict, audit_document_lifecycle-verdict}
use documents_rag.Reconciliation.Audit.Snapshots.{Snapshots, audit_document_lifecycle-Snapshots}
use documents_rag.Tests.Data.{env, paper, failed_job, with_jobs, schema}
use documents_rag.Tests.Stores.{files, vectors}

abbrev indexed : Document
indexed = record paper {
  collection_name = some (codes "c1");
  embedding_provider = some (codes "ollama");
  embedding_model = some (codes "bge");
  embedding_version = some (codes "1");
  chunking_version = some (codes "1");
}

abbrev audited_db : Db
audited_db = record (with_jobs (record failed_job { status = IngestionStatus.completed } ∷ [])) {
  documents = indexed ∷ [];
}

abbrev held_files : List Text
held_files = codes "documents/1/f1.txt" ∷ []

abbrev held_vectors : List (Text × ℕ)
held_vectors = (codes "c1", 2) ∷ []

audit_document_lifecycle-verdict_example :
    (audit_document_lifecycle
      (λ t. t)
      vectors
      files
      env
      900
      audited_db
      held_files
      held_vectors
      1).overall_status
    ≡ verdict
        (λ t. t)
        vectors
        files
        audited_db
        held_files
        held_vectors
        1
        (get 1 audited_db.documents)
audit_document_lifecycle-verdict_example =
    audit_document_lifecycle-verdict (λ t. t) vectors files env 900 audited_db held_files
      held_vectors 1

found : get 1 audited_db.documents ≡ some indexed
unfolding schema
found = refl

audit_document_lifecycle-Snapshots_example :
    Snapshots vectors files audited_db held_files held_vectors 1 indexed
      (audit_document_lifecycle (λ t. t) vectors files env 900 audited_db held_files held_vectors 1)
audit_document_lifecycle-Snapshots_example =
    audit_document_lifecycle-Snapshots (λ t. t) vectors files env 900 audited_db held_files
      held_vectors 1 indexed found
