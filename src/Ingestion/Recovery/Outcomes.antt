-- ===== src/Ingestion/Recovery/Outcomes.antt =====
-- What a recovery does to the job table and what it reports.
use documents_rag.Base.{
  ℕ, ◌≡◌, refl, sym, ap, ◌∙◌, ◌⊎◌, inl, inr, Bool, true, false, List, [], ◌∷◌, ◌++◌, some, ok,
  arith, Memᴰ, All, all, if_holds,
}
use mathlib.Core.List.Memᴰ
use mathlib.Core.List.{append-nil}
use mathlib.Core.Path.{subst}
use mathlib.Core.Bool.{true≢false}
use documents_rag.Db.{Db, fits}
use documents_rag.Db.Env.{Env}
use documents_rag.Db.Commit.{IsConsistent, commit_ok, ingestion-IsConsistent, commit-cases}
use documents_rag.Db.Models.{IngestionJob, ingestion_row, ingestion_key, ingestion_active}
use documents_rag.Db.Distinct.{DistinctIds, DistinctIds-eq, All-map, mem-update_ne}
use documents_rag.Ingestion.Messages.{all_fit-update, all_fit-insert, all_fit-append}
use documents_rag.Ingestion.Status.{abandon, stale_recovery_message}
use documents_rag.Ingestion.Recovery.{
  RecoveredJob, RecoveryResult, Sweep, replace_one, recover_one, sweep, is_recent, is_processing,
  candidates, finish_recovery, recover_stale_ingestion_jobs,
}
use documents_rag.Ingestion.Recovery.Order.{DistinctIds-candidates, All-candidates}
use documents_rag.Ingestion.Recovery.Tracks.{IsReplaced, Candidate, Tracks, sweep-Tracks}

module _ (env : Env) (stale : ℕ) (before : List IngestionJob) where
  -- Jobs that are not processing, or recent, are left as they are.
  sweep-untouched :
      (j : IngestionJob)
      → DistinctIds before
      → Memᴰ j before
      → (is_processing j.status ≡ false) ⊎ (is_recent env stale j ≡ true)
      → (s : Sweep) (rest : List IngestionJob) → All (Candidate env stale before) rest
      → Memᴰ j s.jobs
      → Memᴰ j (sweep env stale s rest).jobs
  unfolding sweep
  sweep-untouched j keys there other s [] chosen m = m
  sweep-untouched j keys there other s (c ∷ rest) chosen m =
      sweep-untouched j keys there other (recover_one env stale s c) rest chosen.1 (
        unfold recover_one in
        if_holds (λ t. Memᴰ j t.jobs) (is_recent env stale c) s (replace_one env stale s c) (λ e. m)
          (λ e.
            mem-update_ne c.id (abandon env stale) s.jobs j
              (λ q. differs e (DistinctIds-eq before j c keys there chosen.0.1 q) other) m))
    where
      differs :
          is_recent env stale c ≡ false
          → j ≡ c
          → (is_processing j.status ≡ false) ⊎ (is_recent env stale j ≡ true)
          → ⊥
      differs e same (inl p) =
          true≢false
            (sym chosen.0.0 ∙ ap (λ (x : IngestionJob). is_processing x.status) (sym same) ∙ p)
      differs e same (inr r) = true≢false (sym r ∙ ap (is_recent env stale) same ∙ e)

abbrev AllFit : List IngestionJob → Type 0
AllFit jobs = all (λ (j : IngestionJob). fits j.error_message) jobs ≡ true

recover_one-fits :
    (env : Env) (stale : ℕ)
    → fits (some (stale_recovery_message stale)) ≡ true
    → (s : Sweep) (c : IngestionJob) → AllFit s.jobs × AllFit s.rows
    → AllFit (recover_one env stale s c).jobs × AllFit (recover_one env stale s c).rows
unfolding recover_one
recover_one-fits env stale short s c h =
    if_holds (λ (t : Sweep). AllFit t.jobs × AllFit t.rows) (is_recent env stale c) s
      (replace_one env stale s c) (λ e. h)
      (λ e. (
        all_fit-update c.id (abandon env stale) (λ j f. short) s.jobs h.0,
        all_fit-insert s.rows _ h.1 refl,
      ))

sweep-fits :
    (env : Env) (stale : ℕ)
    → fits (some (stale_recovery_message stale)) ≡ true
    → (s : Sweep) (rest : List IngestionJob) → AllFit s.jobs × AllFit s.rows
    → AllFit (sweep env stale s rest).jobs × AllFit (sweep env stale s rest).rows
unfolding sweep
sweep-fits env stale short s [] h = h
sweep-fits env stale short s (c ∷ rest) h =
    sweep-fits env stale short (recover_one env stale s c) rest
      (recover_one-fits env stale short s c h)

finish-mem :
    (db : Db) (s : Sweep) (report : List RecoveredJob) (j : IngestionJob)
    → Memᴰ j db.ingestion_jobs
    → Memᴰ j s.jobs
    → Memᴰ j (finish_recovery db s report).0.ingestion_jobs
unfolding finish_recovery
finish-mem db s [] j m n = m
finish-mem db s (r ∷ rs) j m n =
    elim (commit-cases db (record db { ingestion_jobs = s.jobs ++ s.rows })) [
      | inl e ↦ rw e (Memᴰ.append_left _ n)
      | inr (x, e) ↦ rw e m
    ]

processing-active :
    (job : IngestionJob) → is_processing job.status ≡ true → ingestion_active job.status ≡ true
processing-active job h = ground arith

module _ (env : Env) (locked : ℕ → Bool) (batch_size stale : ℕ) (db : Db)
    (keys : DistinctIds db.ingestion_jobs) where
  abbrev start : Sweep
  start = record { jobs = db.ingestion_jobs; rows = []; recovered = []; drawn = 0 }

  abbrev swept : Sweep
  swept = sweep env stale start (candidates locked batch_size db)

  -- A recovery leaves a job alone that is not processing or was updated within the threshold: its
  -- row stays in the table unchanged. (The table's ids are distinct.)
  pub recover_stale_ingestion_jobs-untouched :
      (j : IngestionJob)
      → Memᴰ j db.ingestion_jobs
      → (is_processing j.status ≡ false) ⊎ (is_recent env stale j ≡ true)
      → Memᴰ j (recover_stale_ingestion_jobs env locked batch_size stale db).0.ingestion_jobs
  unfolding recover_stale_ingestion_jobs
  recover_stale_ingestion_jobs-untouched j m other = finish-mem db swept swept.recovered j m (
      sweep-untouched env stale db.ingestion_jobs j keys m other start
        (candidates locked batch_size db) (All-candidates locked batch_size db) m)

  module _ (fine : IsConsistent db)
      (short : fits (some (stale_recovery_message stale)) ≡ true) where
    swept-Tracks : Tracks env stale db.ingestion_jobs swept []
    swept-Tracks =
        sweep-Tracks env stale db.ingestion_jobs start (candidates locked batch_size db) (record {
          ready = record {
            no_clash = rw append-nil fine.ingestion_unique;
            distinct = DistinctIds-candidates locked batch_size db keys;
            active =
                All-map _ _ (candidates locked batch_size db) (λ c h. processing-active c h.0)
                  (All-candidates locked batch_size db);
            there =
                All-map _ _ (candidates locked batch_size db) (λ c h. h.1)
                  (All-candidates locked batch_size db);
          };
          chosen = All-candidates locked batch_size db;
          recorded = tt;
          apart = tt;
        })

    swept-IsConsistent : IsConsistent (record db { ingestion_jobs = swept.jobs ++ swept.rows })
    swept-IsConsistent =
        let (f, g) =
          sweep-fits env stale short start (candidates locked batch_size db)
            (fine.ingestion_fits, refl) in
        ingestion-IsConsistent db (swept.jobs ++ swept.rows) fine swept-Tracks.ready.no_clash
          (all_fit-append swept.jobs swept.rows f g)

    -- In a consistent database a recovery never fails: it answers with a report, leaves a
    -- consistent database, and every entry of the report names a job that was processing and stale,
    -- that is now failed with the recovery marker, and for whose document a fresh pending job of
    -- the named id is there. (The table's ids are distinct, and the marker fits its column.)
    pub recover_stale_ingestion_jobs-report :
        let (db', answer) = recover_stale_ingestion_jobs env locked batch_size stale db in
        (report : RecoveryResult) × (answer ≡ ok report)
        × IsConsistent db'
        × All (IsReplaced env stale db.ingestion_jobs db'.ingestion_jobs db'.ingestion_jobs) report
    unfolding recover_stale_ingestion_jobs
    recover_stale_ingestion_jobs-report = finish-report swept.recovered swept-Tracks.recorded
      where
        widen :
            (e : RecoveredJob)
            → IsReplaced env stale db.ingestion_jobs swept.jobs swept.rows e
            → let rows = swept.jobs ++ swept.rows in
              IsReplaced env stale db.ingestion_jobs rows rows e
        widen e r = record {
          old = r.old;
          draw = r.draw;
          was_there = r.was_there;
          was_processing = r.was_processing;
          was_stale = r.was_stale;
          named = r.named;
          failed_now = Memᴰ.append_left _ r.failed_now;
          replaced_by = r.replaced_by;
          replacement = Memᴰ.append_right swept.jobs r.replacement;
        }

        finish-report :
            (report : List RecoveredJob)
            → All (IsReplaced env stale db.ingestion_jobs swept.jobs swept.rows) report
            → let (db', answer) = finish_recovery db swept report in
              (out : RecoveryResult) × (answer ≡ ok out)
              × IsConsistent db'
              × All
                  (IsReplaced env stale db.ingestion_jobs db'.ingestion_jobs db'.ingestion_jobs)
                  out
        finish-report [] rs = ([], refl, fine, tt)
        finish-report (e ∷ es) rs =
            let after : Db = record db { ingestion_jobs = swept.jobs ++ swept.rows } in
            let goes = commit_ok db after swept-IsConsistent in
            let final : (finish_recovery db swept (e ∷ es)).0 ≡ after =
              rw (goes, finish_recovery) in
            (
              e ∷ es,
              rw (goes, finish_recovery),
              rw (goes, finish_recovery) swept-IsConsistent,
              subst
                  (λ (d : Db).
                    All (IsReplaced env stale db.ingestion_jobs d.ingestion_jobs d.ingestion_jobs)
                      (e ∷ es))
                  (sym final) (All-map _ _ (e ∷ es) widen rs),
            )
