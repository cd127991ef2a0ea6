-- ===== src/Tests/Data.antt =====
-- A small database that the tests share.
use documents_rag.Base.{◌+◌, List, [], ◌∷◌, none, some, codes, decimal, text_eq}
use documents_rag.Db.{Db, violation, commit, hash_clash, filename_clash, collection_clash}
use documents_rag.Db.Rows.{
  insert_by, order_by, insert_desc, order_desc, rows_of, has_clash, has_active, get, update_row,
  latest_for, latest_active_for,
}
use documents_rag.Db.Env.{Env}
use documents_rag.Db.Models.{Document, IngestionJob, IngestionStatus}

abbrev pub env : Env
env = record {
  now = 5000000000;
  db_now = 5000000001;
  uuid = λ n. 900 + n;
  show_uuid = λ n. decimal n;
}

abbrev pub paper : Document
paper = record {
  id = 1;
  original_filename = codes "a.txt";
  stored_filename = codes "f1.txt";
  content_type = codes "text/plain";
  file_size = 3;
  stored_path = codes "documents/1/f1.txt";
  created_at = 100;
  storage_provider = some (codes "local");
  storage_bucket = none;
  storage_key = some (codes "documents/1/f1.txt");
  storage_etag = none;
  content_hash = some (codes "abc");
  embedding_provider = none;
  embedding_model = none;
  embedding_dimension = none;
  embedding_version = none;
  chunking_version = none;
  collection_name = none;
  indexed_at = none;
}

abbrev pub failed_job : IngestionJob
failed_job = record {
  id = 10;
  document_id = 1;
  status = IngestionStatus.failed;
  error_message = some (codes "boom");
  created_at = 100;
  updated_at = 200;
}

abbrev pub hung_job : IngestionJob
hung_job = record failed_job {
  id = 11;
  status = IngestionStatus.processing;
  error_message = none;
  created_at = 300;
}

abbrev pub with_jobs : List IngestionJob → Db
with_jobs jobs = record {
  documents = paper ∷ [];
  ingestion_jobs = jobs;
  deletion_jobs = [];
  reindex_jobs = [];
  cleanup_jobs = [];
  collections = [];
}

-- What a run of the schema's checks computes with.
unfoldable pub schema : Unit {0}
unfolding insert_by order_by insert_desc order_desc rows_of violation has_clash has_active
    hash_clash filename_clash collection_clash text_eq commit get update_row latest_for
    latest_active_for
schema = tt
