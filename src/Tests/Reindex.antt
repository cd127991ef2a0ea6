-- ===== src/Tests/Reindex.antt =====
-- A round of the re-index worker whose build raises.
use documents_rag.Base.{◌≡◌, ◌≢◌, refl, [], ◌∷◌, none, some, false, Text, codes}
use mathlib.Core.Path.{subst}
use documents_rag.Db.{Db}
use documents_rag.Db.Commit.{IsConsistent, violation-none}
use documents_rag.Db.Models.{
  Document, IndexCollection, ReindexJob, ReindexJobStatus, reindex_row, reindex_key,
}
use documents_rag.Indexing.Config.{checked, EmbeddingIndexConfig}
use documents_rag.Indexing.Registry.{get_collection}
use documents_rag.Indexing.ReindexWorker.{
  Build, claim_next_pending_reindex_job, process_next_reindex_job, config_of,
}
use documents_rag.Indexing.ReindexWorker.Closing.{Closes, Holds, IsSpelled}
use documents_rag.Indexing.ReindexWorker.Terminal.{started, process_next_reindex_job-Closes}
use documents_rag.Tests.Data.{env, schema}
use documents_rag.Tests.Indexing.{build, built_db, second_collection}

abbrev pinned : Text
pinned = codes "docs__p__m__e2__c1__d8"

abbrev waiting : ReindexJob
waiting = record build {
  target_collection_name = pinned;
  status = ReindexJobStatus.pending;
  completed_at = none;
}

abbrev pinned_collection : IndexCollection
pinned_collection = record second_collection { collection_name = pinned }

abbrev waiting_db : Db
waiting_db = record built_db { reindex_jobs = waiting ∷ []; collections = pinned_collection ∷ [] }

abbrev same : Text → Text
same t = t

abbrev failing : Build
failing = λ document config size overlap db. (db, some (codes "boom"))

claimed : claim_next_pending_reindex_job (λ i. false) waiting_db ≡ some waiting
unfolding schema claim_next_pending_reindex_job
claimed = refl

waiting_db-IsConsistent : IsConsistent waiting_db
unfolding schema
waiting_db-IsConsistent = violation-none waiting_db refl

waiting_db-IsSpelled : IsSpelled same (codes "docs") failing env waiting waiting_db
unfolding schema get_collection checked
waiting_db-IsSpelled c h =
    let same_row : pinned_collection ≡ c = cc in
    subst (λ x. checked (config_of same (codes "docs") failing env x) ≢ none) same_row
      (λ q. absurd (cc))

started-Holds_build :
    (document : Document) (config : EmbeddingIndexConfig)
    → Holds waiting
        (failing document config 1000 200
          (started same (codes "docs") failing env waiting waiting_db)).0
unfolding schema
started-Holds_build document config = (violation-none _ refl, (_, refl))

process_next_reindex_job-Closes_example :
    Closes waiting
      (process_next_reindex_job same (codes "docs") failing env (λ i. false) waiting_db)
process_next_reindex_job-Closes_example =
    process_next_reindex_job-Closes same (codes "docs") failing env waiting (λ i. false) waiting_db
      claimed waiting_db-IsConsistent (tt, tt) waiting_db-IsSpelled started-Holds_build
