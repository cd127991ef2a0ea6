-- ===== src/Tests/Stores.antt =====
-- A file storage that is a list of keys, and a vector store that is a list of collection and
-- document pairs: neither ever raises.
use documents_rag.Base.{
  ℕ, ◌≡◌, ◌≢◌, ◌⊎◌, inl, inr, refl, sym, ◌∙◌, Bool, true, false, not, ◌&&◌, ◌==◌, ==_iff, List, [],
  ◌∷◌, Option, none, Result, ok, err, ap, Text, text_eq, text_eq_iff, any, select, arith,
  Bool-cases, length, if◌then◌else◌, some, ltb,
}
use documents_rag.External.{VectorStore, FileStorage, object_not_found}

module _ {A : Type 0} where
  pub any-reject : (p : A → Bool) (xs : List A) → any p (select (λ x. not (p x)) xs) ≡ false
  any-reject p [] = refl
  any-reject p (x ∷ xs) = ground (arith, any-reject p xs)

  pub any-fewer : (p q : A → Bool) (xs : List A) → any q xs ≡ false → any q (select p xs) ≡ false
  any-fewer p q [] h = refl
  any-fewer p q (x ∷ xs) h = ground (arith, any-fewer p q xs, h)

  pub any-others :
      (p q : A → Bool) (xs : List A)
      → ((x : A) → p x ≡ true → q x ≡ false)
      → any q (select (λ x. not (p x)) xs) ≡ any q xs
  any-others p q [] h = refl
  any-others p q (x ∷ xs) h = ground (arith, any-others p q xs h, h x)

abbrev at_key : Text → Text → Bool
at_key key k = text_eq k key

pub kept :
    (key : Text) (s : List Text) (stored : Text × Option Text)
    → ◌≡◌ {A = Result Text (Text × Option Text)} (ok (key, none)) (ok stored)
    → any (at_key stored.0) (key ∷ s) ≡ true
kept key s stored e =
    let same : key ≡ stored.0 =
      ap (λ (r : Result Text (Text × Option Text)). elim r [ ok x ↦ x.0 | err t ↦ key ]) e in
    ground (arith, (text_eq_iff key stored.0).1 same)

abbrev pub result_or {ℓ κ} : {E : Type ℓ} {A : Type κ} → A → Result E A → A
result_or a (ok b) = b
result_or a (err e) = a

abbrev pub files : FileStorage
files = record {
  State = List Text;
  save = λ key content kind s. (key ∷ s, ok (key, none));
  delete = λ key s. (select (λ k. not (at_key key k)) s, none);
  read = λ key s. if any (at_key key) s then ok (1 ∷ 2 ∷ []) else err (some object_not_found);
  exists = λ key s. ok (any (at_key key) s);
  exists-holds = λ key s b e. ap (result_or false) e;
  holds = λ s key. any (at_key key) s;
  delete-removes = λ key s e. any-reject (at_key key) s;
  save-holds = λ key content kind s stored e. kept key s stored e;
}

abbrev at_pair : Text → ℕ → Text × ℕ → Bool
at_pair c d p = text_eq p.0 c && (p.1 == d)

pub apart :
    (c c' : Text) (d d' : ℕ)
    → (c' ≢ c) ⊎ (d' ≢ d)
    → (p : Text × ℕ) → at_pair c d p ≡ true
    → at_pair c' d' p ≡ false
apart c c' d d' (inl ne) (e, i) h = elim (Bool-cases (text_eq e c')) [
  | inl t ↦ absurd (ne (sym ((text_eq_iff e c').0 t) ∙ (text_eq_iff e c).0 (ground (arith, h))))
  | inr f ↦ ground (arith, f)
]
apart c c' d d' (inr ne) (e, i) h = elim (Bool-cases (i == d')) [
  | inl t ↦ absurd (ne (sym ((==_iff i d').0 t) ∙ (==_iff i d).0 (ground (arith, h))))
  | inr f ↦ ground (arith, f)
]

pub counted :
    {A : Type 0} (p : A → Bool) (xs : List A) (n : ℕ)
    → length (select p xs) ≡ n
    → any p xs ≡ ltb 0 n
counted p [] n h = ground arith
counted p (x ∷ xs) n h = ground (arith, counted p xs n)

abbrev pub vectors : VectorStore
vectors = record {
  State = List (Text × ℕ);
  get_collection_vector_size = λ c s. ok none;
  create_collection_if_not_exists = λ c n s. (s, none);
  delete_by_document_id = λ c d s. (select (λ p. not (at_pair c d p)) s, none);
  count_document_vectors = λ c d s. ok (length (select (at_pair c d) s));
  count_collection_vectors = λ c s. ok (some (length (select (λ p. text_eq p.0 c) s)));
  count-holds = λ c d s n e. counted (at_pair c d) s n (ap (result_or 0) e);
  holds = λ s c d. any (at_pair c d) s;
  delete-removes = λ c d s e. any-reject (at_pair c d) s;
  delete-others =
      λ c d s c' d' other. any-others (at_pair c d) (at_pair c' d') s (apart c c' d d' other);
  delete-adds_none = λ c d s c' d' h. any-fewer (λ p. not (at_pair c d p)) (at_pair c' d') s h;
}
