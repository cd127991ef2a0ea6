-- ===== src/Db.antt =====
-- The PostgreSQL database as the services see it: the tables, what a commit checks, and the
-- lookups by primary key. The checks are the unique indexes of
-- alembic/versions/a1a302e871c3_current_schema_baseline.py and the widths of the message columns;
-- foreign keys and the uniqueness of fresh UUIDs are not modelled.
pub mod Rows
pub mod Models
pub mod Env
pub mod Latest
pub mod Active
pub mod Members
pub mod Distinct
pub mod Commit
pub mod Lookup
use documents_rag.Base.{
  ℕ, Bool, true, false, ◌||◌, ◌&&◌, Option, none, some, List, [], ◌∷◌, Text, text_eq, length, leb,
  any, all, if◌then◌else◌,
}
use Rows.{has_clash}
use Models.{
  IngestionJob, DocumentDeletionJob, ReindexJob, VectorCleanupJob, IndexCollection, Document,
  ingestion_row, deletion_row, reindex_row,
}

pub record Db : Type 0 where
  pub documents : List Document
  pub ingestion_jobs : List IngestionJob
  pub deletion_jobs : List DocumentDeletionJob
  pub reindex_jobs : List ReindexJob
  pub cleanup_jobs : List VectorCleanupJob
  pub collections : List IndexCollection

pub data Constraint : Type 0 where
  one_active_ingestion one_active_deletion one_active_reindex content_hash stored_filename :
      Constraint
  collection_key : Constraint

-- What `session.commit()` raises.
pub data DbError : Type 0 where
  integrity_error : Constraint → DbError
  value_too_long : DbError

abbrev pub same_text : Option Text → Option Text → Bool
same_text (some a) (some b) = text_eq a b
same_text _ _ = false

unfoldable pub hash_clash : List Document → Bool
hash_clash [] = false
hash_clash (d ∷ ds) = any (λ e. same_text d.content_hash e.content_hash) ds || hash_clash ds

unfoldable pub filename_clash : List Document → Bool
filename_clash [] = false
filename_clash (d ∷ ds) =
    any (λ (e : Document). text_eq d.stored_filename e.stored_filename) ds || filename_clash ds

unfoldable pub collection_clash : List IndexCollection → Bool
collection_clash [] = false
collection_clash (c ∷ cs) =
    any (λ (d : IndexCollection). text_eq c.collection_name d.collection_name) cs
    || collection_clash cs

-- `String(2048)`
abbrev pub max_message_length : ℕ
max_message_length = 2048

abbrev pub fits : Option Text → Bool
fits none = true
fits (some t) = leb (length t) max_message_length

-- What the flush and the commit refuse in the tables that the transaction leaves, if anything.
unfoldable pub violation : Db → Option DbError
violation db =
    if has_clash db.ingestion_jobs
    then some (integrity_error one_active_ingestion)
    else if has_clash db.deletion_jobs
    then some (integrity_error one_active_deletion)
    else if has_clash db.reindex_jobs
    then some (integrity_error one_active_reindex)
    else if hash_clash db.documents
    then some (integrity_error content_hash)
    else if filename_clash db.documents
    then some (integrity_error stored_filename)
    else if collection_clash db.collections
    then some (integrity_error collection_key)
    else if all (λ (j : IngestionJob). fits j.error_message) db.ingestion_jobs
        && all (λ (j : DocumentDeletionJob). fits j.error_message) db.deletion_jobs
        && all (λ (j : ReindexJob). fits j.error_message) db.reindex_jobs
    then none
    else some value_too_long

-- `await session.commit()` of a transaction that takes `before` to `after`: a refused transaction
-- is rolled back.
unfoldable pub commit : Db → Db → Db × Option DbError
commit before after = elim (violation after) [ none ↦ (after, none) | some e ↦ (before, some e) ]
