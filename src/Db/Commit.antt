-- ===== src/Db/Commit.antt =====
-- When a commit goes through.
use documents_rag.Base.{◌⊎◌, some, List, ◌≡◌, true, false, none, arith, all, Option-cases, inl, inr}
use documents_rag.Db.{
  DbError, integrity_error, Constraint, Db, violation, commit, hash_clash, filename_clash,
  collection_clash, fits, value_too_long,
}
use documents_rag.Db.Rows.{has_clash}
use documents_rag.Db.Models.{
  IngestionJob, DocumentDeletionJob, ReindexJob, ingestion_row, deletion_row, reindex_row,
}

-- Every constraint of the schema holds.
pub record IsConsistent (db : Db) : Type 0 where
  pub ingestion_unique : has_clash db.ingestion_jobs ≡ false
  pub deletion_unique : has_clash db.deletion_jobs ≡ false
  pub reindex_unique : has_clash db.reindex_jobs ≡ false
  pub hash_unique : hash_clash db.documents ≡ false
  pub filename_unique : filename_clash db.documents ≡ false
  pub collection_unique : collection_clash db.collections ≡ false
  pub ingestion_fits : all (λ (j : IngestionJob). fits j.error_message) db.ingestion_jobs ≡ true
  pub deletion_fits :
      all (λ (j : DocumentDeletionJob). fits j.error_message) db.deletion_jobs ≡ true
  pub reindex_fits : all (λ (j : ReindexJob). fits j.error_message) db.reindex_jobs ≡ true

pub commit_ok : (before after : Db) → IsConsistent after → commit before after ≡ (after, none)
unfolding commit violation
commit_ok before after h = ground arith

pub violation-none : (db : Db) → violation db ≡ none → IsConsistent db
unfolding violation
violation-none db h = ground arith

-- A transaction that changes only the ingestion jobs is refused for integrity only by their index.
pub violation-ingestion :
    (db : Db) (jobs : List IngestionJob) (c : Constraint)
    → IsConsistent db
    → violation (record db { ingestion_jobs = jobs }) ≡ some (integrity_error c)
    → has_clash jobs ≡ true
unfolding violation
violation-ingestion db jobs c h q = ground arith

pub ingestion-IsConsistent :
    (db : Db) (jobs : List IngestionJob)
    → IsConsistent db
    → has_clash jobs ≡ false
    → all (λ (j : IngestionJob). fits j.error_message) jobs ≡ true
    → IsConsistent (record db { ingestion_jobs = jobs })
ingestion-IsConsistent db jobs h c f = record {
  ingestion_unique = c;
  deletion_unique = h.deletion_unique;
  reindex_unique = h.reindex_unique;
  hash_unique = h.hash_unique;
  filename_unique = h.filename_unique;
  collection_unique = h.collection_unique;
  ingestion_fits = f;
  deletion_fits = h.deletion_fits;
  reindex_fits = h.reindex_fits;
}

-- A commit goes through or leaves the database as it was.
pub commit-cases :
    (before after : Db)
    → (commit before after ≡ (after, none))
      ⊎ ((e : DbError) × (commit before after ≡ (before, some e)))
unfolding commit
commit-cases before after = elim (Option-cases (violation after)) [
  | inl e ↦ inl (rw (e, commit))
  | inr (x, e) ↦ inr (x, rw (e, commit))
]

-- A message that does not fit is refused by its column.
pub violation-too_long :
    (db : Db) (jobs : List IngestionJob)
    → IsConsistent db
    → has_clash jobs ≡ false
    → all (λ (j : IngestionJob). fits j.error_message) jobs ≡ false
    → violation (record db { ingestion_jobs = jobs }) ≡ some value_too_long
unfolding violation
violation-too_long db jobs h c f = ground arith

pub commit_refused :
    (before after : Db) (e : DbError)
    → violation after ≡ some e
    → commit before after ≡ (before, some e)
unfolding commit
commit_refused before after e h = rw (h, commit)

-- A commit that raises nothing has saved its transaction.
pub commit-saved :
    (before after : Db)
    → (commit before after).1 ≡ none
    → ((commit before after).0 ≡ after) × IsConsistent after
unfolding commit
commit-saved before after h = ground (arith, violation-none after)

pub reindex-IsConsistent :
    (db : Db) (jobs : List ReindexJob)
    → IsConsistent db
    → has_clash jobs ≡ false
    → all (λ (j : ReindexJob). fits j.error_message) jobs ≡ true
    → IsConsistent (record db { reindex_jobs = jobs })
reindex-IsConsistent db jobs h c f = record {
  ingestion_unique = h.ingestion_unique;
  deletion_unique = h.deletion_unique;
  reindex_unique = c;
  hash_unique = h.hash_unique;
  filename_unique = h.filename_unique;
  collection_unique = h.collection_unique;
  ingestion_fits = h.ingestion_fits;
  deletion_fits = h.deletion_fits;
  reindex_fits = f;
}
