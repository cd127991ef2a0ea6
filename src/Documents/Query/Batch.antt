-- ===== src/Documents/Query/Batch.antt =====
-- The batch lookups of app/services/documents/query_service.py.
use documents_rag.Base.{
  ℕ, ◌≡◌, refl, sym, ap, ◌∙◌, true, List, [], ◌∷◌, Option, none, some, ◌==◌, any, select, arith,
  if◌then◌else◌, Bool-cases, inl, inr, ==_iff,
}
use mathlib.Core.Bool.{true≢false}
use documents_rag.Db.Rows.{Row, latest_for, rows_of}
use documents_rag.Db.Latest.{newer, newest, newer_assoc, latest_for-newest}
use documents_rag.Documents.Query.{dict_get, put_if_later, collect_latest, latest_by_document}

module _ {ℓ} {J : Type ℓ} ⦃r : Row J⦄ where
  -- One round of the loop, at the key of its row and at the others.
  dict_get-put_if_later :
      (d : ℕ) (m : List (ℕ × J)) (j : J) (current : Option J)
      → dict_get (r.document_id j) m ≡ current
      → dict_get d (put_if_later m j current)
        ≡ (if r.document_id j == d then newer current (some j) else dict_get d m)
  dict_get-put_if_later d m j none e = ground arith
  dict_get-put_if_later d m j (some c) e = ground arith

  dict_get-collect_latest :
      (d : ℕ) (m : List (ℕ × J)) (jobs : List J)
      → dict_get d (collect_latest m jobs) ≡ newer (dict_get d m) (newest (rows_of d jobs))
  unfolding collect_latest rows_of
  dict_get-collect_latest d m [] = ground arith
  dict_get-collect_latest d m (j ∷ jobs) =
      let current = dict_get (r.document_id j) m in
      dict_get-collect_latest d (put_if_later m j current) jobs
      ∙ ap (λ o. newer o (newest (rows_of d jobs))) (dict_get-put_if_later d m j current refl)
      ∙ regroup d m j (rows_of d jobs)
    where
      regroup :
          (d : ℕ) (m : List (ℕ × J)) (j : J) (rest : List J)
          → newer
              (if r.document_id j == d
                then newer (dict_get (r.document_id j) m) (some j)
                else dict_get d m)
              (newest rest)
            ≡ newer (dict_get d m) (newest (if r.document_id j == d then j ∷ rest else rest))
      regroup d m j rest = elim (Bool-cases (r.document_id j == d)) [
        | inl e ↦ rw e (
            newer_assoc (dict_get (r.document_id j) m) (some j) (newest rest)
            ∙ ap (λ k. newer (dict_get k m) (newer (some j) (newest rest)))
                ((==_iff (r.document_id j) d).0 e))
        | inr e ↦ rw e
      ]

  rows_of-select :
      (d : ℕ) (ids : List ℕ) (jobs : List J)
      → any (λ k. d == k) ids ≡ true
      → rows_of d (select (λ j. any (λ k. r.document_id j == k) ids) jobs) ≡ rows_of d jobs
  unfolding rows_of
  rows_of-select d ids [] h = refl
  rows_of-select d ids (j ∷ jobs) h = elim (Bool-cases (any (λ k. r.document_id j == k) ids)) [
    | inl e ↦ rw (e, select) (rw (rows_of-select d ids jobs h))
    | inr e ↦ elim (Bool-cases (r.document_id j == d)) [
      | inl q ↦ absurd (
          true≢false
            (sym h ∙ ap (λ i. any (λ k. i == k) ids) (sym ((==_iff (r.document_id j) d).0 q)) ∙ e))
      | inr q ↦ rw e (rw q (rows_of-select d ids jobs h))
    ]
  ]

  -- For a document that is asked for, the batch has what the lookup of that document finds.
  pub dict_get-latest_by_document :
      (d : ℕ) (ids : List ℕ) (jobs : List J)
      → any (λ k. d == k) ids ≡ true
      → dict_get d (latest_by_document ids jobs) ≡ latest_for d jobs
  unfolding latest_by_document
  dict_get-latest_by_document d [] jobs h = absurd (cc)
  dict_get-latest_by_document d (i ∷ ids) jobs h =
      dict_get-collect_latest d [] (select (λ j. any (λ k. r.document_id j == k) (i ∷ ids)) jobs)
      ∙ ap newest (rows_of-select d (i ∷ ids) jobs h)
      ∙ sym (latest_for-newest d jobs)
