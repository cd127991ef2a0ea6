-- ===== src/Db/Rows.antt =====
-- Tables of job rows, whatever the job: the queries that the services share
-- (app/services/documents/deletion_service.py, query_service.py, ingestion/retry_service.py,
-- indexing/reindex_scheduling_service.py) and the partial unique index "one active per document"
-- of alembic/versions/.
-- A UUID primary key is a fixed-width lowercase hexadecimal text, so it is modelled by its number:
-- the order of the texts is the order of the numbers.
use documents_rag.Base.{
  ℕ, Bool, false, ◌&&◌, ◌||◌, List, [], ◌∷◌, Option, none, some, ltb, ◌==◌, if◌then◌else◌, first,
  select,
}

module _ {ℓ} {J : Type ℓ} (le : J → J → Bool) where
  unfoldable pub insert_by : J → List J → List J
  insert_by x [] = x ∷ []
  insert_by x (y ∷ ys) = if le x y then x ∷ y ∷ ys else y ∷ insert_by x ys

  -- `ORDER BY`, rows that the order does not tell apart as the table has them
  unfoldable pub order_by : List J → List J
  unfolding insert_by
  order_by [] = []
  order_by (x ∷ xs) = insert_by x (order_by xs)

-- A row with a primary key.
pub record Keyed {ℓ} (J : Type ℓ) : Type ℓ where
  pub id : J → ℕ

module _ {ℓ} {J : Type ℓ} ⦃k : Keyed J⦄ where
  -- `session.get(Model, id)`
  unfoldable pub get : ℕ → List J → Option J
  get i [] = none
  get i (j ∷ js) = if k.id j == i then some j else get i js

  -- `UPDATE ... WHERE id = i`
  unfoldable pub update_row : ℕ → (J → J) → List J → List J
  update_row i f [] = []
  update_row i f (j ∷ js) =
      let rest = update_row i f js in if k.id j == i then f j ∷ rest else j ∷ rest

-- What the queries read of a job row.
pub record Row {ℓ} (J : Type ℓ) : Type ℓ where
  pub id : J → ℕ
  pub document_id : J → ℕ
  pub created_at : J → ℕ
  pub is_active : J → Bool

module _ {ℓ} {J : Type ℓ} ⦃r : Row J⦄ where
  -- `(a.created_at, a.id) > (b.created_at, b.id)`, also the order of
  -- `ORDER BY created_at DESC, id DESC`
  abbrev pub is_later : J → J → Bool
  is_later a b =
      ltb (r.created_at b) (r.created_at a)
      || ((r.created_at a == r.created_at b) && ltb (r.id b) (r.id a))

  unfoldable pub insert_desc : J → List J → List J
  insert_desc x [] = x ∷ []
  insert_desc x (y ∷ ys) = if is_later y x then y ∷ insert_desc x ys else x ∷ y ∷ ys

  -- `ORDER BY created_at DESC, id DESC`
  unfoldable pub order_desc : List J → List J
  unfolding insert_desc
  order_desc [] = []
  order_desc (x ∷ xs) = insert_desc x (order_desc xs)

  -- `WHERE document_id = d`
  unfoldable pub rows_of : ℕ → List J → List J
  rows_of d js = select (λ j. r.document_id j == d) js

  -- `... ORDER BY created_at DESC, id DESC LIMIT 1`, first
  unfoldable pub latest_for : ℕ → List J → Option J
  unfolding order_desc rows_of
  latest_for d js = first (order_desc (rows_of d js))

  -- the same among the active rows
  unfoldable pub latest_active_for : ℕ → List J → Option J
  unfolding order_desc
  latest_active_for d js =
      first (order_desc (select (λ j. (r.document_id j == d) && r.is_active j) js))

  -- an active row of document `d` is there
  unfoldable pub has_active : ℕ → List J → Bool
  has_active d [] = false
  has_active d (j ∷ js) = ((r.document_id j == d) && r.is_active j) || has_active d js

  -- two active rows of one document: what the partial unique index refuses
  unfoldable pub has_clash : List J → Bool
  unfolding has_active
  has_clash [] = false
  has_clash (j ∷ js) = (r.is_active j && has_active (r.document_id j) js) || has_clash js
