-- ===== src/Ingestion/Recovery/Order.antt =====
-- The candidates of app/services/ingestion/stale_recovery_service.py.
use documents_rag.Base.{
  ℕ, ◌≡◌, sym, ◌≢◌, Bool, true, not, ◌&&◌, ◌||◌, List, [], ◌∷◌, arith, Memᴰ, All, select, if_holds,
  ltb, ◌==◌,
}
use documents_rag.Db.{Db}
use documents_rag.Db.Distinct.{
  All-of_mem, All-take, DistinctIds, DistinctIds-select, DistinctIds-take,
}
use documents_rag.Db.Members.{mem-select}
use documents_rag.Db.Models.{IngestionJob, ingestion_key}
use documents_rag.Ingestion.Recovery.{insert_oldest, order_oldest, candidates, is_processing}

abbrev before : IngestionJob → IngestionJob → Bool
before y x = ltb y.updated_at x.updated_at || ((y.updated_at == x.updated_at) && ltb y.id x.id)

All-insert_oldest :
    (P : IngestionJob → Type 0) (x : IngestionJob) (ys : List IngestionJob)
    → P x
    → All P ys
    → All P (insert_oldest x ys)
unfolding insert_oldest
All-insert_oldest P x [] h hs = (h, tt)
All-insert_oldest P x (y ∷ ys) h hs =
    if_holds (All P) (before y x) (y ∷ insert_oldest x ys) (x ∷ y ∷ ys)
      (λ e. (hs.0, All-insert_oldest P x ys h hs.1)) (λ e. (h, hs))

DistinctIds-insert_oldest :
    (x : IngestionJob) (ys : List IngestionJob)
    → All (λ (y : IngestionJob). y.id ≢ x.id) ys
    → DistinctIds ys
    → DistinctIds (insert_oldest x ys)
unfolding insert_oldest
DistinctIds-insert_oldest x [] h hs = (tt, tt)
DistinctIds-insert_oldest x (y ∷ ys) h hs =
    if_holds DistinctIds (before y x) (y ∷ insert_oldest x ys) (x ∷ y ∷ ys)
      (λ e. (
        All-insert_oldest (λ (z : IngestionJob). z.id ≢ y.id) x ys (λ q. h.0 (sym q)) hs.0,
        DistinctIds-insert_oldest x ys h.1 hs.1,
      ))
      (λ e. (h, hs))

All-order_oldest :
    (P : IngestionJob → Type 0) (xs : List IngestionJob) → All P xs → All P (order_oldest xs)
unfolding order_oldest
All-order_oldest P [] h = h
All-order_oldest P (x ∷ xs) h =
    All-insert_oldest P x (order_oldest xs) h.0 (All-order_oldest P xs h.1)

DistinctIds-order_oldest : (xs : List IngestionJob) → DistinctIds xs → DistinctIds (order_oldest xs)
unfolding order_oldest
DistinctIds-order_oldest [] h = h
DistinctIds-order_oldest (x ∷ xs) h =
    DistinctIds-insert_oldest x (order_oldest xs)
      (All-order_oldest (λ (y : IngestionJob). y.id ≢ x.id) xs h.0)
      (DistinctIds-order_oldest xs h.1)

module _ (locked : ℕ → Bool) (batch_size : ℕ) (db : Db) where
  pub DistinctIds-candidates :
      DistinctIds db.ingestion_jobs → DistinctIds (candidates locked batch_size db)
  unfolding candidates
  DistinctIds-candidates h =
      let p = λ (j : IngestionJob). is_processing j.status && not (locked j.id) in
      let rows = select p db.ingestion_jobs in
      DistinctIds-take batch_size (order_oldest rows)
        (DistinctIds-order_oldest rows (DistinctIds-select p db.ingestion_jobs h))

  pub All-candidates :
      All
        (λ (j : IngestionJob). (is_processing j.status ≡ true) × Memᴰ j db.ingestion_jobs)
        (candidates locked batch_size db)
  unfolding candidates
  All-candidates =
      let p = λ (j : IngestionJob). is_processing j.status && not (locked j.id) in
      let rows = select p db.ingestion_jobs in
      All-take _ batch_size (order_oldest rows) (
        All-order_oldest _ rows (
          All-of_mem _ rows λ j m.
            let (q, there) = mem-select p db.ingestion_jobs j m in (ground (arith, q), there)))
