-- ===== src/Indexing/Vectors/Outcomes.antt =====
-- Which collections a full vector deletion tries, and what its success means.
use documents_rag.Base.{
  ℕ, ◌≡◌, refl, ap, ◌∙◌, ◌||◌, ◌&&◌, Bool, true, false, List, [], ◌∷◌, ◌++◌, Option, none, some,
  Text, text_eq, text_eq_iff, any, all, arith, map, Bool-cases, inl, inr, ◌==◌, select,
}
use documents_rag.Db.{Db}
use documents_rag.Db.Models.{Document, VectorCleanupJob, ReindexJob}
use mathlib.Core.Path.{subst, ap₂}
use documents_rag.External.{VectorStore}
use documents_rag.Indexing.Vectors.{
  in_list, append_new, append_all_new, collections_to_attempt, attempt_all, fully_deleted,
  delete_all_tracked_document_vectors, outcome_of, CollectionVectorDeletionResult,
  current_collection, is_unresolved, is_built,
}

in_list-append :
    (c : Text) (xs ys : List Text) → in_list c (xs ++ ys) ≡ in_list c xs || in_list c ys
in_list-append c [] ys = refl
in_list-append c (x ∷ xs) ys = ground (arith, in_list-append c xs ys)

in_list-append_new :
    (c name : Text) (names : List Text)
    → in_list c (append_new name names) ≡ text_eq name c || in_list c names
unfolding append_new
in_list-append_new c name names = elim (Bool-cases (in_list name names)) [
  | inl e ↦ rw e (elim (Bool-cases (text_eq name c)) [
    | inl q ↦ cc (e, q, (text_eq_iff name c).0 q)
    | inr q ↦ ground arith
  ])
  | inr e ↦ rw e (ground (arith, in_list-append c names (name ∷ [])))
]

in_list-append_all_new :
    (c : Text) (more names : List Text)
    → in_list c (append_all_new more names) ≡ in_list c more || in_list c names
unfolding append_all_new
in_list-append_all_new c [] names = refl
in_list-append_all_new c (m ∷ more) names =
    ground (arith, in_list-append_all_new c more (append_new m names), in_list-append_new c m names)

succeeded-none :
    (n : Text) (raised : Option Text) → (outcome_of n raised).succeeded ≡ true → raised ≡ none
succeeded-none n none h = refl
succeeded-none n (some e) h = absurd (cc)

in_list-map-select {ℓ} :
    {A : Type ℓ} (name : A → Text) (p : A → Bool) (c : Text) (xs : List A)
    → in_list c (map name (select p xs)) ≡ any (λ x. p x && text_eq (name x) c) xs
in_list-map-select name p c [] = refl
in_list-map-select name p c (x ∷ xs) = elim (Bool-cases (p x)) [
  | inl e ↦ rw (e, select) (ground (arith, in_list-map-select name p c xs))
  | inr e ↦ rw (e, select) (in_list-map-select name p c xs)
]

in_list-map-select_twice {ℓ} :
    {A : Type ℓ} (name : A → Text) (p q : A → Bool) (c : Text) (xs : List A)
    → in_list c (map name (select p (select q xs))) ≡ any (λ x. p x && q x && text_eq (name x) c) xs
in_list-map-select_twice name p q c [] = refl
in_list-map-select_twice name p q c (x ∷ xs) = elim (Bool-cases (q x)) [
  | inl e ↦ elim (Bool-cases (p x)) [
    | inl f ↦
        rw (e, select) (rw (f, select) (ground (arith, in_list-map-select_twice name p q c xs)))
    | inr f ↦ rw (e, select) (rw (f, select) (in_list-map-select_twice name p q c xs))
  ]
  | inr e ↦ rw (e, select) (ground (arith, in_list-map-select_twice name p q c xs))
]

rotate_or : (a b c : Bool) → a || (b || c) ≡ c || b || a
rotate_or a b c = ground arith

-- The collection may still hold vectors of the document: it is the document's current one, the
-- collection of a cleanup that has not succeeded, or the target of a completed re-index build.
abbrev pub is_tracked : Db → Document → Text → Bool
is_tracked db document c =
    in_list c (current_collection document.collection_name)
    || any
        (λ (j : VectorCleanupJob).
          (j.document_id == document.id) && is_unresolved j.status && text_eq j.collection_name c)
        db.cleanup_jobs
    || any
        (λ (j : ReindexJob).
          ((j.document_id == document.id) && is_built j.status)
          && text_eq j.target_collection_name c)
        db.reindex_jobs

-- The collections that a full deletion tries are exactly the tracked ones.
pub in_list-collections_to_attempt :
    (db : Db) (document : Document) (c : Text)
    → in_list c (collections_to_attempt db document) ≡ is_tracked db document c
unfolding collections_to_attempt
in_list-collections_to_attempt db document c =
    let of_doc = λ (j : VectorCleanupJob). j.document_id == document.id in
    let open_job = λ (j : VectorCleanupJob). is_unresolved j.status in
    let build = λ (j : ReindexJob). (j.document_id == document.id) && is_built j.status in
    let cleanup =
      map (λ (j : VectorCleanupJob). j.collection_name)
        (select of_doc (select open_job db.cleanup_jobs)) in
    let targets =
      map (λ (j : ReindexJob). j.target_collection_name) (select build db.reindex_jobs) in
    let current = current_collection document.collection_name in
    in_list-append_all_new c targets (append_all_new cleanup current)
    ∙ ap₂ ◌||◌
        (in_list-map-select (λ (j : ReindexJob). j.target_collection_name) build c db.reindex_jobs)
        (in_list-append_all_new c cleanup current
          ∙ ap (λ b. b || in_list c current)
              (in_list-map-select_twice (λ (j : VectorCleanupJob). j.collection_name) of_doc
                open_job c db.cleanup_jobs))
    ∙ rotate_or (any (λ j. build j && text_eq j.target_collection_name c) db.reindex_jobs)
        (any (λ j. of_doc j && open_job j && text_eq j.collection_name c) db.cleanup_jobs)
        (in_list c current)

module _ (store : VectorStore) where
  open store use {State, delete_by_document_id, holds, delete-removes, delete-adds_none}

  attempt_all-adds_none :
      (d : ℕ) (names : List Text) (s : State) (c : Text) (e : ℕ)
      → holds s c e ≡ false
      → holds (attempt_all store d names s).0 c e ≡ false
  unfolding attempt_all
  attempt_all-adds_none d [] s c e h = h
  attempt_all-adds_none d (n ∷ names) s c e h =
      attempt_all-adds_none d names (delete_by_document_id n d s).0 c e
        (delete-adds_none n d s c e h)

  attempt_all-removes :
      (d : ℕ) (names : List Text) (s : State) (c : Text)
      → all (λ (r : CollectionVectorDeletionResult). r.succeeded) (attempt_all store d names s).1
        ≡ true
      → in_list c names ≡ true
      → holds (attempt_all store d names s).0 c d ≡ false
  unfolding attempt_all
  attempt_all-removes d [] s c ok_ m = absurd (cc)
  attempt_all-removes d (n ∷ names) s c ok_ m = elim (Bool-cases (text_eq n c)) [
    | inl e ↦ attempt_all-adds_none d names (delete_by_document_id n d s).0 c d (
        subst (λ x. holds (delete_by_document_id n d s).0 x d ≡ false) ((text_eq_iff n c).0 e)
          (delete-removes n d s
            (succeeded-none n (delete_by_document_id n d s).1 (ground (arith, ok_)))))
    | inr e ↦
        attempt_all-removes d names (delete_by_document_id n d s).0 c (ground (arith, ok_))
          (ground arith)
  ]

  -- A full vector deletion that reports success has left no vectors of the document in any tracked
  -- collection, whatever the order of the attempts and whichever of them failed before.
  pub delete_all_tracked_document_vectors-removes :
      (db : Db) (document : Document) (s : State) (c : Text)
      → fully_deleted (delete_all_tracked_document_vectors store db document s).1 ≡ true
      → is_tracked db document c ≡ true
      → holds (delete_all_tracked_document_vectors store db document s).0 c document.id ≡ false
  unfolding delete_all_tracked_document_vectors
  delete_all_tracked_document_vectors-removes db document s c ok_ tracked =
      attempt_all-removes document.id (collections_to_attempt db document) s c ok_
        (in_list-collections_to_attempt db document c ∙ tracked)
