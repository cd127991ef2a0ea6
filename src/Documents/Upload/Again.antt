-- ===== src/Documents/Upload/Again.antt =====
-- What an upload leaves, and the same upload a second time.
use documents_rag.Base.{
  ℕ, ◌≡◌, ◌≢◌, refl, sym, ap, ◌∙◌, true, List, [], ◌∷◌, ◌++◌, Option, none, some, Result, ok, err,
  Text, if_holds,
}
use mathlib.Core.Path.{subst, ap₂}
use documents_rag.Db.{Db, DbError, commit}
use documents_rag.Db.Env.{Env}
use documents_rag.Db.Commit.{IsConsistent, commit-saved}
use documents_rag.Db.Models.{Document, IngestionJob, ingestion_row, deletion_row, IngestionStatus}
use documents_rag.Db.Rows.{latest_for}
use documents_rag.Documents.Upload.Inserted.{find-insert, latest_for-insert}
use documents_rag.External.{FileStorage}
use documents_rag.Documents.Dedup.{
  UploadOutcome, UploadDecision, UploadError, decide_upload, decide_found, decide_known,
  decide_reuse, find_document_by_content_hash, is_content_hash_violation,
}
use documents_rag.Documents.Upload.{
  UploadResult, Settings, Upload, new_document, new_key, new_job, decision_to_result, reuse_result,
  winner_of, Reply, settle_upload, insert_document, upload_decided, upload_document, winner_by,
  upload_by,
}

-- The answer's outcome is not CREATED.
abbrev Reuses : Result UploadError UploadResult → Type 0
Reuses r = (result : UploadResult) → r ≡ ok result → result.outcome ≢ UploadOutcome.created

Reuses-reuse_result :
    (outcome : UploadOutcome) (document : Option Document) (job : Option IngestionJob)
    → outcome ≢ UploadOutcome.created
    → Reuses (reuse_result outcome document job)
Reuses-reuse_result outcome none job ne result q = absurd (cc)
Reuses-reuse_result outcome (some document) none ne result q = absurd (cc)
Reuses-reuse_result outcome (some document) (some job) ne result q = λ c. ne (cc)

Reuses-result :
    (decision : UploadDecision)
    → decision.outcome ≢ UploadOutcome.created
    → Reuses (decision_to_result decision)
Reuses-result decision =
    Reuses-reuse_result decision.outcome decision.document decision.ingestion_job

Reuses-winner_by :
    (o : UploadOutcome) (t : Text) (decision : UploadDecision)
    → decision.outcome ≡ o
    → Reuses (winner_by o t decision)
unfolding winner_by
Reuses-winner_by UploadOutcome.created t decision e = λ result q. absurd (cc)
Reuses-winner_by UploadOutcome.reused_active t decision e =
    Reuses-result decision (λ c. absurd (cc))
Reuses-winner_by UploadOutcome.reused_indexed t decision e =
    Reuses-result decision (λ c. absurd (cc))
Reuses-winner_by UploadOutcome.reused_failed t decision e =
    Reuses-result decision (λ c. absurd (cc))

Reuses-winner :
    (t : Text) (decision : Result UploadError UploadDecision) → Reuses (winner_of t decision)
unfolding winner_of
Reuses-winner t (err e) = λ result q. absurd (cc)
Reuses-winner t (ok decision) = Reuses-winner_by decision.outcome t decision refl

module _ (files : FileStorage) (hash : List ℕ → Text) (env : Env) (settings : Settings)
    (upload : Upload) (document : Document) (job : IngestionJob) where
  abbrev content_hash : Text
  content_hash = hash upload.content

  -- The reply says CREATED, with this document and this job.
  abbrev pub Created : Reply files hash → Type 0
  Created r =
      r.2
      ≡ ok (record { document = document; ingestion_job = job; outcome = UploadOutcome.created })

  -- The reply says that they are there already.
  abbrev pub reused : Result UploadError UploadResult
  reused =
      ok
        (record { document = document; ingestion_job = job; outcome = UploadOutcome.reused_active })

  -- The document's object is stored, and the same content is decided to be this document.
  abbrev pub Stored : Reply files hash → Type 0
  Stored r =
      IsConsistent r.0
      × ((key : Text) × (document.storage_key ≡ some key) × (files.holds r.1 key ≡ true))
      × (decide_upload r.0 content_hash
          ≡ ok (record {
            outcome = UploadOutcome.reused_active;
            document = some document;
            ingestion_job = some job;
          }))

  settled :
      (d : Document) (j : IngestionJob) (key : Text) (later : Db → Db) (saved : Db × Option DbError)
      (f : files.State)
      → Created (settle_upload files hash d j key content_hash later saved f)
      → (saved.1 ≡ none)
        × (d ≡ document)
        × (j ≡ job)
        × ((settle_upload files hash d j key content_hash later saved f).0 ≡ saved.0)
        × ((settle_upload files hash d j key content_hash later saved f).1 ≡ f)
  unfolding settle_upload
  settled d j key later (db, none) f h = (refl, cc, cc, refl, refl)
  settled d j key later (db, some raised) f h = absurd (
      if_holds Reuses (is_content_hash_violation raised)
        (winner_of content_hash (decide_upload (later db) content_hash))
        (err (UploadError.db_error raised))
        (λ e. Reuses-winner content_hash (decide_upload (later db) content_hash))
        (λ e result q. absurd (cc)) _ h refl)

  -- the database that holds the new document and its job
  abbrev extended : Db → Document → IngestionJob → Db
  extended seen d j = record seen {
    documents = seen.documents ++ d ∷ [];
    ingestion_jobs = seen.ingestion_jobs ++ j ∷ [];
  }

  decide_upload-extended :
      (seen : Db) (d : Document) (j : IngestionJob)
      → IsConsistent (extended seen d j)
      → d.content_hash ≡ some content_hash
      → j.document_id ≡ d.id
      → j.status ≡ IngestionStatus.pending
      → latest_for d.id seen.deletion_jobs ≡ none
      → latest_for d.id seen.ingestion_jobs ≡ none
      → decide_upload (extended seen d j) content_hash
        ≡ ok (record {
          outcome = UploadOutcome.reused_active;
          document = some d;
          ingestion_job = some j;
        })
  unfolding decide_upload find_document_by_content_hash decide_found decide_known decide_reuse
  decide_upload-extended seen d j fine e same pending no_deletion no_job =
      rw (find-insert content_hash seen.documents d e fine.hash_unique) (
        rw no_deletion (
          rw
            (ap (λ i. latest_for i (seen.ingestion_jobs ++ j ∷ [])) (sym same)
              ∙ latest_for-insert seen.ingestion_jobs j
                  (ap (λ i. latest_for i seen.ingestion_jobs) same ∙ no_job))
            (rw pending refl)))

  module _ (others later : Db → Db) (db : Db) (f : files.State)
      (no_deletion : latest_for (env.uuid 0) (others db).deletion_jobs ≡ none)
      (no_job : latest_for (env.uuid 0) (others db).ingestion_jobs ≡ none) where
    insert_document-Stored :
        (saved : files.State × Result Text (Text × Option Text))
        → files.save (new_key env upload) upload.content upload.content_type f ≡ saved
        → Created (insert_document files hash env settings others later db upload saved)
        → Stored (insert_document files hash env settings others later db upload saved)
    unfolding insert_document
    insert_document-Stored (f', err raised) e h = absurd (cc)
    insert_document-Stored (f', ok stored) e h =
        let seen = others db in
        let d = new_document env settings upload (new_key env upload) stored content_hash in
        let (went, same_d, same_j, db_is, f_is) =
          settled d (new_job env) (new_key env upload) later
            (commit seen (extended seen d (new_job env))) f' h in
        let (final, fine) = commit-saved seen (extended seen d (new_job env)) went in
        (
          rw db_is (rw final fine),
          (
            stored.0,
            ap (λ (x : Document). x.storage_key) (sym same_d),
            rw f_is (
                subst
                  (λ (x : files.State × Result Text (Text × Option Text)).
                    files.holds x.0 stored.0 ≡ true)
                  e
                  (files.save-holds (new_key env upload) upload.content upload.content_type f stored
                    (ap (λ (x : files.State × Result Text (Text × Option Text)). x.1) e))),
          ),
          rw db_is (
              rw final (
                decide_upload-extended seen d (new_job env) fine refl refl refl no_deletion no_job
                ∙ ap₂
                    (λ x y. ok (record {
                      outcome = UploadOutcome.reused_active;
                      document = some x;
                      ingestion_job = some y;
                    }))
                    same_d same_j)),
        )

    upload_by-Stored :
        (o : UploadOutcome) (decision : UploadDecision)
        → decision.outcome ≡ o
        → Created (upload_by files hash env settings others later db f upload o decision)
        → Stored (upload_by files hash env settings others later db f upload o decision)
    unfolding upload_by
    upload_by-Stored UploadOutcome.created decision e h =
        insert_document-Stored
          (files.save (new_key env upload) upload.content upload.content_type f) refl h
    upload_by-Stored UploadOutcome.reused_active decision e h =
        absurd (Reuses-result decision (λ c. absurd (cc)) _ h refl)
    upload_by-Stored UploadOutcome.reused_indexed decision e h =
        absurd (Reuses-result decision (λ c. absurd (cc)) _ h refl)
    upload_by-Stored UploadOutcome.reused_failed decision e h =
        absurd (Reuses-result decision (λ c. absurd (cc)) _ h refl)

    upload_decided-Stored :
        (decision : Result UploadError UploadDecision)
        → Created (upload_decided files hash env settings others later db f upload decision)
        → Stored (upload_decided files hash env settings others later db f upload decision)
    unfolding upload_decided
    upload_decided-Stored (err e) h = absurd (cc)
    upload_decided-Stored (ok decision) h = upload_by-Stored decision.outcome decision refl h

    upload_document-Stored :
        Created (upload_document files hash env settings others later db f upload)
        → Stored (upload_document files hash env settings others later db f upload)
    unfolding upload_document
    upload_document-Stored h = upload_decided-Stored (decide_upload db content_hash) h

    -- An upload that answers CREATED leaves a consistent database and the document's object in the
    -- storage; and whoever uploads the same content next (under whatever name, settings and clock,
    -- and whatever others do meanwhile) is given the same document and job as REUSED_ACTIVE, with
    -- the database and the storage untouched. The new document's id must be fresh: no deletion and
    -- no ingestion job carries it.
    pub upload_document-again :
        Created (upload_document files hash env settings others later db f upload)
        → let r = upload_document files hash env settings others later db f upload in
          IsConsistent r.0
          × ((key : Text) × (document.storage_key ≡ some key) × (files.holds r.1 key ≡ true))
          × ((env' : Env) (settings' : Settings) (others' later' : Db → Db) (name : Text)
                (kind : Text)
              → upload_document files hash env' settings' others' later' r.0 r.1
                  (record upload { original_filename = name; content_type = kind })
                ≡ (r.0, r.1, reused))
    unfolding upload_document upload_decided upload_by
    upload_document-again h =
        let (fine, object, decision) = upload_document-Stored h in
        (fine, object, λ env' settings' others' later' name kind. rw decision refl)
