-- ===== src/Documents/Upload.antt =====
-- app/services/documents/upload_service.py. `others` is what other transactions commit between the
-- first decision and the commit; `hash` is hashlib's SHA-256 as a hex text.
pub mod Inserted
pub mod Again
use documents_rag.Base.{
  ℕ, Bool, true, false, List, [], ◌∷◌, ◌++◌, Option, none, some, Result, ok, err, Text, codes,
  text_eq, length, if◌then◌else◌,
}
use documents_rag.Db.{Db, DbError, commit}
use documents_rag.Db.Env.{Env}
use documents_rag.Db.Models.{Document, IngestionJob, IngestionStatus}
use documents_rag.External.{FileStorage}
use documents_rag.Ingestion.Status.{create_pending_job}
use documents_rag.Storage.Keys.{generate_object_key, base_name}
use documents_rag.Documents.Dedup.{
  UploadOutcome, UploadDecision, UploadError, decide_upload, is_content_hash_violation,
}

pub record UploadResult : Type 0 where
  pub document : Document
  pub ingestion_job : IngestionJob
  pub outcome : UploadOutcome

-- the two settings that an upload reads
pub record Settings : Type 0 where
  pub file_storage_provider : Text
  pub minio_bucket : Text

-- what the caller sends
pub record Upload : Type 0 where
  pub content : List ℕ
  pub original_filename : Text
  pub content_type : Text

abbrev pub bucket_of : Settings → Option Text
bucket_of settings =
    if text_eq settings.file_storage_provider (codes "minio")
    then some settings.minio_bucket
    else none

abbrev pub new_document : Env → Settings → Upload → Text → Text × Option Text → Text → Document
new_document env settings upload key stored content_hash = record {
  id = env.uuid 0;
  original_filename = upload.original_filename;
  stored_filename = base_name key;
  content_type = upload.content_type;
  file_size = length upload.content;
  stored_path = key;
  created_at = env.db_now;
  storage_provider = some settings.file_storage_provider;
  storage_bucket = bucket_of settings;
  storage_key = some stored.0;
  storage_etag = stored.1;
  content_hash = some content_hash;
  embedding_provider = none;
  embedding_model = none;
  embedding_dimension = none;
  embedding_version = none;
  chunking_version = none;
  collection_name = none;
  indexed_at = none;
}

-- the uuid of the document, then that of the key, then that of the job
abbrev pub new_key : Env → Upload → Text
new_key env upload = generate_object_key env 1 (env.uuid 0) upload.original_filename

abbrev pub new_job : Env → IngestionJob
new_job env = create_pending_job env 2 (env.uuid 0)

abbrev pub reuse_result :
    UploadOutcome → Option Document → Option IngestionJob → Result UploadError UploadResult
reuse_result outcome none job = err UploadError.assertion_failed
reuse_result outcome (some document) none = err UploadError.assertion_failed
reuse_result outcome (some document) (some job) =
    ok (record { document = document; ingestion_job = job; outcome = outcome })

-- `_decision_to_result`
abbrev pub decision_to_result : UploadDecision → Result UploadError UploadResult
decision_to_result decision = reuse_result decision.outcome decision.document decision.ingestion_job

-- the second decision, after a lost race
unfoldable pub winner_by : UploadOutcome → Text → UploadDecision → Result UploadError UploadResult
winner_by UploadOutcome.created content_hash decision =
    err (UploadError.missing_winner_after_race content_hash)
winner_by _ content_hash decision = decision_to_result decision

unfoldable pub winner_of :
    Text → Result UploadError UploadDecision → Result UploadError UploadResult
unfolding winner_by
winner_of content_hash (err e) = err e
winner_of content_hash (ok decision) = winner_by decision.outcome content_hash decision

module _ (files : FileStorage) (hash : List ℕ → Text) where
  abbrev pub Reply : Type 0
  Reply = Db × files.State × Result UploadError UploadResult

  -- After the commit. A failed commit deletes the stored object, whatever the delete answers, and
  -- the decision is made again in a new transaction; `later` is what others commit before it.
  unfoldable pub settle_upload :
      Document → IngestionJob → Text → Text → (Db → Db) → Db × Option DbError → files.State → Reply
  unfolding winner_of
  settle_upload document job key content_hash later (db, none) f = (
    db,
    f,
    ok (record { document = document; ingestion_job = job; outcome = UploadOutcome.created }),
  )
  settle_upload document job key content_hash later (db, some raised) f = (
    (if is_content_hash_violation raised then later db else db),
    (files.delete key f).0,
    if is_content_hash_violation raised
        then winner_of content_hash (decide_upload (later db) content_hash)
        else err (UploadError.db_error raised),
  )

  unfoldable pub insert_document :
      Env
      → Settings
      → (Db → Db)
      → (Db → Db)
      → Db
      → Upload
      → files.State × Result Text (Text × Option Text)
      → Reply
  unfolding settle_upload
  insert_document env settings others later db upload (f, err raised) =
      (db, f, err (UploadError.storage_error raised))
  insert_document env settings others later db upload (f, ok stored) =
      let seen = others db in
      let key = new_key env upload in
      let content_hash = hash upload.content in
      let document = new_document env settings upload key stored content_hash in
      settle_upload document (new_job env) key content_hash later
        (commit seen (record seen {
          documents = seen.documents ++ document ∷ [];
          ingestion_jobs = seen.ingestion_jobs ++ new_job env ∷ [];
        }))
        f

  unfoldable pub upload_by :
      Env
      → Settings
      → (Db → Db)
      → (Db → Db)
      → Db
      → files.State
      → Upload
      → UploadOutcome
      → UploadDecision
      → Reply
  unfolding insert_document
  upload_by env settings others later db f upload UploadOutcome.created decision =
      insert_document env settings others later db upload
        (files.save (new_key env upload) upload.content upload.content_type f)
  upload_by env settings others later db f upload _ decision = (db, f, decision_to_result decision)

  unfoldable pub upload_decided :
      Env
      → Settings
      → (Db → Db)
      → (Db → Db)
      → Db
      → files.State
      → Upload
      → Result UploadError UploadDecision
      → Reply
  unfolding upload_by
  upload_decided env settings others later db f upload (err e) = (db, f, err e)
  upload_decided env settings others later db f upload (ok decision) =
      upload_by env settings others later db f upload decision.outcome decision

  unfoldable pub upload_document :
      Env → Settings → (Db → Db) → (Db → Db) → Db → files.State → Upload → Reply
  unfolding upload_decided
  upload_document env settings others later db f upload =
      upload_decided env settings others later db f upload (decide_upload db (hash upload.content))
