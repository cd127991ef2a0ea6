-- ===== src/Ingestion/Status.antt =====
-- app/services/ingestion/status.py
use documents_rag.Base.{ℕ, ◌++◌, none, Text, codes, decimal, some}
use documents_rag.Db.Env.{Env}
use documents_rag.Db.Models.{IngestionJob, IngestionStatus}

unfoldable pub stale_recovery_error_prefix : Text
stale_recovery_error_prefix = codes "STALE_PROCESSING_RECOVERED"

unfoldable pub stale_recovery_message : ℕ → Text
unfolding stale_recovery_error_prefix
stale_recovery_message stale_after_seconds =
    stale_recovery_error_prefix
    ++ (codes ": PROCESSING job not updated for over "
        ++ (decimal stale_after_seconds
            ++ codes "s, treated as abandoned by a dead/crashed worker."))

-- The row that the transaction will insert; `n` counts the UUIDs drawn before it.
abbrev pub create_pending_job : Env → ℕ → ℕ → IngestionJob
create_pending_job env n document_id = record {
  id = env.uuid n;
  document_id = document_id;
  status = IngestionStatus.pending;
  error_message = none;
  created_at = env.db_now;
  updated_at = env.db_now;
}

-- PROCESSING to FAILED with the fixed marker; `updated_at` follows by `onupdate`.
abbrev pub abandon : Env → ℕ → IngestionJob → IngestionJob
abandon env stale_after_seconds job = record job {
  status = IngestionStatus.failed;
  error_message = some (stale_recovery_message stale_after_seconds);
  updated_at = env.db_now;
}
