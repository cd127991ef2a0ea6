-- ===== src/Db/Active.antt =====
-- Active rows of a document: the partial unique index, inserts and updates by key.
use documents_rag.Base.{
  ℕ, ◌≡◌, refl, ap, ◌∙◌, true, false, ◌&&◌, ◌||◌, List, [], ◌∷◌, ◌++◌, ◌==◌, first, select, is_some,
  arith, All,
}
use documents_rag.Db.Rows.{Keyed, Row, latest_active_for, has_active, has_clash, update_row}
use documents_rag.Db.Latest.{newest, first-order_desc}

module _ {ℓ} {J : Type ℓ} ⦃r : Row J⦄ where
  is_some-newest : (xs : List J) → is_some (newest xs) ≡ is_some (first xs)
  is_some-newest [] = refl
  is_some-newest (x ∷ xs) = ground arith

  select-has_active :
      (d : ℕ) (js : List J)
      → is_some (first (select (λ j. (r.document_id j == d) && r.is_active j) js)) ≡ has_active d js
  unfolding has_active
  select-has_active d [] = refl
  select-has_active d (j ∷ js) = ground (arith, select-has_active d js)

  -- the re-read after a refused insert finds a row exactly if an active one is there
  pub is_some-latest_active_for :
      (d : ℕ) (js : List J) → is_some (latest_active_for d js) ≡ has_active d js
  unfolding latest_active_for
  is_some-latest_active_for d js =
      let active = select (λ j. (r.document_id j == d) && r.is_active j) js in
      ap is_some (first-order_desc active) ∙ is_some-newest active ∙ select-has_active d js

  pub has_active-append :
      (d : ℕ) (xs ys : List J) → has_active d (xs ++ ys) ≡ has_active d xs || has_active d ys
  unfolding has_active
  has_active-append d [] ys = refl
  has_active-append d (x ∷ xs) ys = ground (arith, has_active-append d xs ys)

  -- The index refuses an inserted row exactly if it and another row of its document are active.
  pub has_clash-insert :
      (xs : List J) (x : J)
      → has_clash (xs ++ x ∷ [])
        ≡ has_clash xs || (r.is_active x && has_active (r.document_id x) xs)
  unfolding has_clash has_active
  has_clash-insert [] x = ground arith
  has_clash-insert (y ∷ ys) x =
      ground (arith, has_clash-insert ys x, has_active-append (r.document_id y) ys (x ∷ []))

module _ {ℓ} {J : Type ℓ} ⦃k : Keyed J⦄ ⦃r : Row J⦄ (i : ℕ) (f : J → J)
    (same : (j : J) → r.document_id (f j) ≡ r.document_id j) where
  -- an update that activates nothing leaves no more active rows
  pub has_active-update :
      (retire : (j : J) → r.is_active (f j) ≡ true → r.is_active j ≡ true) (d : ℕ) (js : List J)
      → has_active d js ≡ false
      → has_active d (update_row i f js) ≡ false
  unfolding has_active update_row
  has_active-update retire d [] h = h
  has_active-update retire d (j ∷ js) h =
      ground (arith, has_active-update retire d js, same j, retire j)

  pub has_clash-update :
      (retire : (j : J) → r.is_active (f j) ≡ true → r.is_active j ≡ true) (js : List J)
      → has_clash js ≡ false
      → has_clash (update_row i f js) ≡ false
  unfolding has_clash update_row
  has_clash-update retire [] h = h
  has_clash-update retire (j ∷ js) h = ground (
    arith,
    has_clash-update retire js,
    same j,
    retire j,
    has_active-update retire (r.document_id j) js,
    has_active-update retire (r.document_id (f j)) js,
  )

module _ {ℓ} {J : Type ℓ} ⦃r : Row J⦄ where
  pub has_clash-append_left : (xs ys : List J) → has_clash (xs ++ ys) ≡ false → has_clash xs ≡ false
  unfolding has_clash
  has_clash-append_left [] ys h = refl
  has_clash-append_left (x ∷ xs) ys h =
      ground (arith, has_clash-append_left xs ys, has_active-append (r.document_id x) xs ys)

module _ {ℓ} {J : Type ℓ} ⦃k : Keyed J⦄ ⦃r : Row J⦄ (i : ℕ) (f : J → J)
    (same : (j : J) → r.document_id (f j) ≡ r.document_id j)
    (retire : (j : J) → r.is_active (f j) ≡ true → r.is_active j ≡ true) where
  pub has_clash-update_left :
      (xs ys : List J) → has_clash (xs ++ ys) ≡ false → has_clash (update_row i f xs ++ ys) ≡ false
  unfolding has_clash update_row
  has_clash-update_left [] ys h = h
  has_clash-update_left (x ∷ xs) ys h = ground (
    arith,
    has_clash-update_left xs ys,
    same x,
    retire x,
    has_active-update i f same retire (r.document_id x) xs,
    has_active-update i f same retire (r.document_id (f x)) xs,
    has_active-append (r.document_id x) xs ys,
    has_active-append (r.document_id x) (update_row i f xs) ys,
    has_active-append (r.document_id (f x)) (update_row i f xs) ys,
  )

module _ {ℓ} {J : Type ℓ} ⦃k : Keyed J⦄ ⦃r : Row J⦄ (i : ℕ) (f : J → J)
    (same : (j : J) → r.document_id (f j) ≡ r.document_id j) where
  -- An update of a row that is active already adds no active row.
  pub has_active-update_at :
      (d : ℕ) (js : List J)
      → All (λ j. k.id j ≡ i → r.is_active j ≡ true) js
      → has_active d js ≡ false
      → has_active d (update_row i f js) ≡ false
  unfolding has_active update_row
  has_active-update_at d [] w h = h
  has_active-update_at d (j ∷ js) w h =
      ground (arith, has_active-update_at d js w.1, same j, λ (q : k.id j ≡ i). w.0 q)

  pub has_clash-update_at :
      (js : List J)
      → All (λ j. k.id j ≡ i → r.is_active j ≡ true) js
      → has_clash js ≡ false
      → has_clash (update_row i f js) ≡ false
  unfolding has_clash update_row
  has_clash-update_at [] w h = h
  has_clash-update_at (j ∷ js) w h = ground (
    arith,
    has_clash-update_at js w.1,
    same j,
    λ (q : k.id j ≡ i). w.0 q,
    has_active-update_at (r.document_id j) js w.1,
    has_active-update_at (r.document_id (f j)) js w.1,
  )
