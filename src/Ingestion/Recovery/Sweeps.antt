-- ===== src/Ingestion/Recovery/Sweeps.antt =====
-- The loop of app/services/ingestion/stale_recovery_service.py: the job table under it.
use documents_rag.Base.{
  ℕ, ◌≡◌, refl, ◌≢◌, true, false, List, [], ◌∷◌, ◌++◌, arith, Memᴰ, All, if_holds,
}
use documents_rag.Db.Env.{Env}
use documents_rag.Db.Models.{IngestionJob, ingestion_row, ingestion_key, ingestion_active}
use documents_rag.Db.Rows.{has_active, has_clash, update_row}
use documents_rag.Db.Active.{
  has_active-append, has_clash-insert, has_clash-append_left, has_clash-update_left,
}
use documents_rag.Db.Members.{has_active-retire, has_active-beside}
use documents_rag.Db.Distinct.{DistinctIds, mem-update_ne}
use documents_rag.Ingestion.Status.{abandon, create_pending_job}
use documents_rag.Ingestion.Recovery.{Sweep, replace_one, recover_one, sweep, is_recent}
use mathlib.Core.List.{append_assoc}

-- What the loop needs of its state and of the candidates still to come.
pub record IsReady (s : Sweep) (rest : List IngestionJob) : Type 0 where
  pub no_clash : has_clash (s.jobs ++ s.rows) ≡ false
  pub distinct : DistinctIds rest
  pub active : All (λ (c : IngestionJob). ingestion_active c.status ≡ true) rest
  pub there : All (λ (c : IngestionJob). Memᴰ c s.jobs) rest

module _ (env : Env) (stale : ℕ) where
  abbrev retire : IngestionJob → IngestionJob
  retire = abandon env stale

  there-update :
      (i : ℕ) (jobs rest : List IngestionJob)
      → All (λ (c : IngestionJob). c.id ≢ i) rest
      → All (λ (c : IngestionJob). Memᴰ c jobs) rest
      → All (λ (c : IngestionJob). Memᴰ c (update_row i retire jobs)) rest
  there-update i jobs [] ne m = tt
  there-update i jobs (c ∷ rest) ne m =
      (mem-update_ne i retire jobs c ne.0 m.0, there-update i jobs rest ne.1 m.1)

  -- After the UPDATE of an active job its document has no active row, inserted ones included.
  quiet :
      (jobs rows : List IngestionJob) (c : IngestionJob)
      → has_clash (jobs ++ rows) ≡ false
      → Memᴰ c jobs
      → ingestion_active c.status ≡ true
      → has_active c.document_id (update_row c.id retire jobs ++ rows) ≡ false
  quiet jobs rows c clash m a = ground (
    arith,
    has_active-append c.document_id (update_row c.id retire jobs) rows,
    has_active-retire retire (λ j. refl) (λ j. refl) jobs c (has_clash-append_left jobs rows clash)
        m a,
    has_active-beside jobs rows c clash m a,
  )

  pub recover_one-IsReady :
      (s : Sweep) (c : IngestionJob) (rest : List IngestionJob)
      → IsReady s (c ∷ rest)
      → IsReady (recover_one env stale s c) rest
  unfolding recover_one
  recover_one-IsReady s c rest h =
      let jobs = update_row c.id retire s.jobs in
      let new_job = create_pending_job env s.drawn c.document_id in
      if_holds (λ t. IsReady t rest) (is_recent env stale c) s (replace_one env stale s c)
        (λ e. record {
          no_clash = h.no_clash;
          distinct = h.distinct.1;
          active = h.active.1;
          there = h.there.1;
        })
        (λ e. record {
          no_clash = rw (← append_assoc jobs s.rows (new_job ∷ [])) (
              ground (
                arith,
                has_clash-insert (jobs ++ s.rows) new_job,
                has_clash-update_left c.id retire (λ j. refl) (λ j a. absurd (cc)) s.jobs s.rows
                    h.no_clash,
                quiet s.jobs s.rows c h.no_clash h.there.0 h.active.0,
              ));
          distinct = h.distinct.1;
          active = h.active.1;
          there = there-update c.id s.jobs rest h.distinct.0 h.there.1;
        })

  pub sweep-no_clash :
      (s : Sweep) (rest : List IngestionJob)
      → IsReady s rest
      → has_clash ((sweep env stale s rest).jobs ++ (sweep env stale s rest).rows) ≡ false
  unfolding sweep
  sweep-no_clash s [] h = h.no_clash
  sweep-no_clash s (c ∷ rest) h =
      sweep-no_clash (recover_one env stale s c) rest (recover_one-IsReady s c rest h)
