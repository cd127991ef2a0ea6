-- ===== src/Db/Latest.antt =====
-- `ORDER BY created_at DESC, id DESC LIMIT 1`.
use documents_rag.Base.{
  ℕ, ◌≡◌, refl, ap, ◌∙◌, List, [], ◌∷◌, Option, none, some, if◌then◌else◌, first, arith,
}
use documents_rag.Db.Rows.{Row, is_later, insert_desc, order_desc, rows_of, latest_for}

module _ {ℓ} {J : Type ℓ} ⦃r : Row J⦄ where
  -- the later of two rows; the first one where neither is later
  abbrev pub newer : Option J → Option J → Option J
  newer none o = o
  newer (some a) none = some a
  newer (some a) (some b) = if is_later b a then some b else some a

  abbrev pub newest : List J → Option J
  newest [] = none
  newest (x ∷ xs) = newer (some x) (newest xs)

  pub newer_assoc : (a b c : Option J) → newer (newer a b) c ≡ newer a (newer b c)
  newer_assoc none b c = refl
  newer_assoc (some a) none c = refl
  newer_assoc (some a) (some b) none = ground arith
  newer_assoc (some a) (some b) (some c) = ground arith

  first-insert_desc : (x : J) (ys : List J) → first (insert_desc x ys) ≡ newer (some x) (first ys)
  unfolding insert_desc
  first-insert_desc x [] = refl
  first-insert_desc x (y ∷ ys) = ground arith

  pub first-order_desc : (xs : List J) → first (order_desc xs) ≡ newest xs
  unfolding order_desc
  first-order_desc [] = refl
  first-order_desc (x ∷ xs) =
      first-insert_desc x (order_desc xs) ∙ ap (newer (some x)) (first-order_desc xs)

  pub latest_for-newest : (d : ℕ) (js : List J) → latest_for d js ≡ newest (rows_of d js)
  unfolding latest_for
  latest_for-newest d js = first-order_desc (rows_of d js)
