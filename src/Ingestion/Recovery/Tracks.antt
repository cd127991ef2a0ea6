-- ===== src/Ingestion/Recovery/Tracks.antt =====
-- The loop of app/services/ingestion/stale_recovery_service.py: the entries of its report.
use documents_rag.Base.{
  ℕ, ◌≡◌, refl, sym, ◌∙◌, ◌≢◌, true, false, List, [], ◌∷◌, Memᴰ, All, if_holds,
}
use mathlib.Core.List.Memᴰ
use documents_rag.Db.Env.{Env}
use documents_rag.Db.Models.{IngestionJob, ingestion_row, ingestion_key}
use documents_rag.Db.Distinct.{All-map, All-append, mem-update_ne, mem-update_self}
use documents_rag.Ingestion.Status.{abandon, create_pending_job}
use documents_rag.Ingestion.Recovery.{
  RecoveredJob, Sweep, replace_one, recover_one, sweep, is_recent, is_processing,
}
use documents_rag.Ingestion.Recovery.Sweeps.{IsReady, recover_one-IsReady}

-- An entry of the report: a job of `before` that was processing and stale is failed with the
-- recovery marker in the updated rows, and a fresh pending job of its document is in the new ones.
pub record IsReplaced (env : Env) (stale : ℕ) (before updated inserted : List IngestionJob)
    (e : RecoveredJob) : Type 0 where
  pub old : IngestionJob
  pub draw : ℕ
  pub was_there : Memᴰ old before
  pub was_processing : is_processing old.status ≡ true
  pub was_stale : is_recent env stale old ≡ false
  pub named : e.stale_job_id ≡ old.id
  pub failed_now : Memᴰ (abandon env stale old) updated
  pub replaced_by : e.replacement_job_id ≡ env.uuid draw
  pub replacement : Memᴰ (create_pending_job env draw old.document_id) inserted

module _ (env : Env) (stale : ℕ) (before : List IngestionJob) where
  abbrev pub Candidate : IngestionJob → Type 0
  Candidate c = (is_processing c.status ≡ true) × Memᴰ c before

  pub record Tracks (s : Sweep) (rest : List IngestionJob) : Type 0 where
    pub ready : IsReady s rest
    pub chosen : All Candidate rest
    pub recorded : All (IsReplaced env stale before s.jobs s.rows) s.recovered
    pub apart :
        All
          (λ (e : RecoveredJob). All (λ (c : IngestionJob). c.id ≢ e.stale_job_id) rest)
          s.recovered

  kept :
      (s : Sweep) (c : IngestionJob) (e : RecoveredJob)
      → c.id ≢ e.stale_job_id
      → IsReplaced env stale before s.jobs s.rows e
      → IsReplaced env stale before
          (replace_one env stale s c).jobs
          (replace_one env stale s c).rows
          e
  kept s c e ne r = record {
    old = r.old;
    draw = r.draw;
    was_there = r.was_there;
    was_processing = r.was_processing;
    was_stale = r.was_stale;
    named = r.named;
    failed_now =
        mem-update_ne c.id (abandon env stale) s.jobs (abandon env stale r.old)
          (λ q. ne (sym (r.named ∙ q))) r.failed_now;
    replaced_by = r.replaced_by;
    replacement = Memᴰ.append_left _ r.replacement;
  }

  added :
      (s : Sweep) (c : IngestionJob)
      → Candidate c
      → is_recent env stale c ≡ false
      → Memᴰ c s.jobs
      → IsReplaced env stale before
          (replace_one env stale s c).jobs
          (replace_one env stale s c).rows
          (record { stale_job_id = c.id; replacement_job_id = env.uuid s.drawn })
  added s c chosen old there = record {
    old = c;
    draw = s.drawn;
    was_there = chosen.1;
    was_processing = chosen.0;
    was_stale = old;
    named = refl;
    failed_now = mem-update_self (abandon env stale) s.jobs c there;
    replaced_by = refl;
    replacement = Memᴰ.append_right s.rows (Memᴰ.head refl);
  }

  kept-All :
      (s : Sweep) (c : IngestionJob) (rest : List IngestionJob) (es : List RecoveredJob)
      → All (λ (e : RecoveredJob). All (λ (d : IngestionJob). d.id ≢ e.stale_job_id) (c ∷ rest)) es
      → All (IsReplaced env stale before s.jobs s.rows) es
      → All
          (IsReplaced env stale before
            (replace_one env stale s c).jobs
            (replace_one env stale s c).rows)
          es
  kept-All s c rest [] a r = tt
  kept-All s c rest (e ∷ es) a r = (kept s c e a.0.0 r.0, kept-All s c rest es a.1 r.1)

  recover_one-Tracks :
      (s : Sweep) (c : IngestionJob) (rest : List IngestionJob)
      → Tracks s (c ∷ rest)
      → Tracks (recover_one env stale s c) rest
  recover_one-Tracks s c rest h =
      let steady = recover_one-IsReady env stale s c rest h.ready in
      unfold recover_one in
      if_holds (λ t. IsReady t rest → Tracks t rest) (is_recent env stale c) s
        (replace_one env stale s c)
        (λ e ready. record {
          ready = ready;
          chosen = h.chosen.1;
          recorded = h.recorded;
          apart = All-map _ _ s.recovered (λ x a. a.1) h.apart;
        })
        (λ e ready. record {
          ready = ready;
          chosen = h.chosen.1;
          recorded =
              All-append _ s.recovered _ (kept-All s c rest s.recovered h.apart h.recorded)
                (added s c h.chosen.0 e h.ready.there.0, tt);
          apart =
              All-append _ s.recovered _ (All-map _ _ s.recovered (λ x a. a.1) h.apart)
                (h.ready.distinct.0, tt);
        })
        steady

  pub sweep-Tracks :
      (s : Sweep) (rest : List IngestionJob) → Tracks s rest → Tracks (sweep env stale s rest) []
  unfolding sweep
  sweep-Tracks s [] h = h
  sweep-Tracks s (c ∷ rest) h =
      sweep-Tracks (recover_one env stale s c) rest (recover_one-Tracks s c rest h)
