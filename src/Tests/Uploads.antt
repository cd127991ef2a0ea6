-- ===== src/Tests/Uploads.antt =====
-- An upload into an empty library, and again.
use documents_rag.Base.{ℕ, ◌≡◌, refl, List, [], ◌∷◌, none, some, true, Text, codes, decimal}
use documents_rag.Db.{Db}
use documents_rag.Db.Env.{Env}
use documents_rag.Db.Commit.{IsConsistent}
use documents_rag.Db.Models.{Document}
use documents_rag.Db.Rows.{latest_for}
use documents_rag.Documents.Dedup.{decide_upload}
use documents_rag.Documents.Upload.{
  Settings, Upload, new_document, new_job, new_key, upload_document, Reply,
}
use documents_rag.Documents.Upload.Again.{Created, reused, upload_document-again}
use documents_rag.Storage.Keys.{generate_object_key}
use documents_rag.Tests.Data.{env, with_jobs, schema}
use documents_rag.Tests.Stores.{files}

abbrev empty_db : Db
empty_db = record (with_jobs []) { documents = [] }

abbrev note : Upload
note = record {
  content = 104 ∷ 105 ∷ [];
  original_filename = codes "a.md";
  content_type = codes "text/markdown";
}

abbrev local : Settings
local = record { file_storage_provider = codes "local"; minio_bucket = codes "docs" }

abbrev digest : List ℕ → Text
digest content = content

abbrev note_document : Document
note_document =
    new_document env local note (new_key env note) (new_key env note, none) (digest note.content)

abbrev first_upload : Reply files digest
first_upload = upload_document files digest env local (λ db. db) (λ db. db) empty_db [] note

note_key : new_key env note ≡ codes "documents/900/901.md"
unfolding schema generate_object_key decimal
note_key = refl

upload_answers : Created files digest env local note note_document (new_job env) first_upload
unfolding schema upload_document decide_upload
upload_answers = refl

upload_document-again_example :
    IsConsistent first_upload.0
    × ((key : Text) × (note_document.storage_key ≡ some key)
        × (files.holds first_upload.1 key ≡ true))
    × ((env' : Env) (settings' : Settings) (others' later' : Db → Db) (name : Text) (kind : Text)
        → upload_document files digest env' settings' others' later' first_upload.0 first_upload.1
            (record note { original_filename = name; content_type = kind })
          ≡ (
            first_upload.0,
            first_upload.1,
            reused files digest env local note note_document (new_job env),
          ))
unfolding latest_for
upload_document-again_example =
    upload_document-again files digest env local note note_document (new_job env) (λ db. db)
      (λ db. db) empty_db [] refl refl upload_answers
