-- ===== src/Ingestion/Messages.antt =====
-- The message column of the ingestion jobs.
use documents_rag.Base.{
  ℕ, ◌≡◌, refl, sym, ap, ◌∙◌, false, Memᴰ, true, List, [], ◌∷◌, ◌++◌, arith, all,
}
use documents_rag.Db.{fits}
use documents_rag.Db.Models.{IngestionJob, ingestion_key}
use documents_rag.Db.Rows.{update_row}

pub all_fit-update :
    (i : ℕ) (f : IngestionJob → IngestionJob)
    → ((j : IngestionJob) → fits j.error_message ≡ true → fits (f j).error_message ≡ true)
    → (jobs : List IngestionJob) → all (λ (j : IngestionJob). fits j.error_message) jobs ≡ true
    → all (λ (j : IngestionJob). fits j.error_message) (update_row i f jobs) ≡ true
unfolding update_row
all_fit-update i f g [] h = refl
all_fit-update i f g (j ∷ jobs) h = ground (arith, g j, all_fit-update i f g jobs)

pub all_fit-insert :
    (jobs : List IngestionJob) (x : IngestionJob)
    → all (λ (j : IngestionJob). fits j.error_message) jobs ≡ true
    → fits x.error_message ≡ true
    → all (λ (j : IngestionJob). fits j.error_message) (jobs ++ x ∷ []) ≡ true
all_fit-insert [] x h g = ground arith
all_fit-insert (j ∷ jobs) x h g = ground (arith, all_fit-insert jobs x)

pub all_fit-append :
    (xs ys : List IngestionJob)
    → all (λ (j : IngestionJob). fits j.error_message) xs ≡ true
    → all (λ (j : IngestionJob). fits j.error_message) ys ≡ true
    → all (λ (j : IngestionJob). fits j.error_message) (xs ++ ys) ≡ true
all_fit-append [] ys h g = g
all_fit-append (x ∷ xs) ys h g = ground (arith, all_fit-append xs ys)

-- One message that is too long makes the table unacceptable.
pub all_fit-mem :
    (jobs : List IngestionJob) (j : IngestionJob)
    → Memᴰ j jobs
    → fits j.error_message ≡ false
    → all (λ (x : IngestionJob). fits x.error_message) jobs ≡ false
all_fit-mem [] j m h = elim m [ ]
all_fit-mem (x ∷ xs) j (Memᴰ.head e) h =
    ground (arith, sym (ap (λ (y : IngestionJob). fits y.error_message) e) ∙ h)
all_fit-mem (x ∷ xs) j (Memᴰ.tail m) h = ground (arith, all_fit-mem xs j m h)
