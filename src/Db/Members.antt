-- ===== src/Db/Members.antt =====
-- What a query's row is: it stands in the table, belongs to the document and passes the test; and
-- how the row that is active leaves the partial unique index.
use documents_rag.Base.{
  ℕ, ◌≡◌, refl, sym, ap, ◌∙◌, ◌⊎◌, Bool, true, false, ◌&&◌, List, [], ◌∷◌, ◌++◌, some, ◌==◌,
  ==-refl, select, first, arith, Memᴰ, Bool-cases, inl, inr, ==_iff, Option-cases, is_some,
  if_holds,
}
use mathlib.Core.Bool.{true≢false}
use mathlib.Core.List.Memᴰ
use mathlib.Core.Path.{subst}
use documents_rag.Db.Rows.{
  Keyed, Row, latest_for, latest_active_for, rows_of, has_active, has_clash, update_row, order_by,
  insert_by,
}
use documents_rag.Db.Latest.{newest, newer, first-order_desc, latest_for-newest}
use documents_rag.Db.Active.{
  has_active-update, has_clash-insert, has_active-append, is_some-latest_active_for,
}

pub mem-select {ℓ} :
    {A : Type ℓ} (p : A → Bool) (xs : List A) (a : A)
    → Memᴰ a (select p xs)
    → (p a ≡ true) × Memᴰ a xs
mem-select p [] a m = elim m [ ]
mem-select p (x ∷ xs) a m = elim (Bool-cases (p x)) [
  | inl e ↦ kept e (mem-select p xs a) (rw (e, select) at m)
  | inr e ↦ let inside = mem-select p xs a (rw (e, select) at m) in (inside.0, Memᴰ.tail inside.1)
]
  where
    kept :
        p x ≡ true
        → (Memᴰ a (select p xs) → (p a ≡ true) × Memᴰ a xs)
        → Memᴰ a (x ∷ select p xs)
        → (p a ≡ true) × Memᴰ a (x ∷ xs)
    kept e ih (Memᴰ.head q) = (ap p q ∙ e, Memᴰ.head q)
    kept e ih (Memᴰ.tail m) = ((ih m).0, Memᴰ.tail (ih m).1)

module _ {ℓ} {J : Type ℓ} (le : J → J → Bool) where
  later :
      (x y j : J) (ys : List J)
      → (Memᴰ j (insert_by le x ys) → Memᴰ j (x ∷ ys))
      → Memᴰ j (y ∷ insert_by le x ys)
      → Memᴰ j (x ∷ y ∷ ys)
  later x y j ys ih (Memᴰ.head e) = Memᴰ.tail (Memᴰ.head e)
  later x y j ys ih (Memᴰ.tail n) = swap (ih n)
    where
      swap : Memᴰ j (x ∷ ys) → Memᴰ j (x ∷ y ∷ ys)
      swap (Memᴰ.head e) = Memᴰ.head e
      swap (Memᴰ.tail m) = Memᴰ.tail (Memᴰ.tail m)

  mem-insert_by : (x : J) (ys : List J) (j : J) → Memᴰ j (insert_by le x ys) → Memᴰ j (x ∷ ys)
  unfolding insert_by
  mem-insert_by x [] j m = m
  mem-insert_by x (y ∷ ys) j m =
      if_holds (λ zs. Memᴰ j zs → Memᴰ j (x ∷ y ∷ ys)) (le x y) (x ∷ y ∷ ys) (y ∷ insert_by le x ys)
        (λ e n. n) (λ e n. later x y j ys (mem-insert_by x ys j) n) m

  extend :
      (x j : J) (xs : List J)
      → (Memᴰ j (order_by le xs) → Memᴰ j xs)
      → Memᴰ j (x ∷ order_by le xs)
      → Memᴰ j (x ∷ xs)
  extend x j xs ih (Memᴰ.head e) = Memᴰ.head e
  extend x j xs ih (Memᴰ.tail m) = Memᴰ.tail (ih m)

  pub mem-order_by : (xs : List J) (j : J) → Memᴰ j (order_by le xs) → Memᴰ j xs
  unfolding order_by
  mem-order_by [] j m = m
  mem-order_by (x ∷ xs) j m =
      extend x j xs (mem-order_by xs j) (mem-insert_by x (order_by le xs) j m)

pub mem-first {ℓ} : {A : Type ℓ} (xs : List A) (a : A) → first xs ≡ some a → Memᴰ a xs
mem-first [] a h = absurd (cc)
mem-first (x ∷ xs) a h = Memᴰ.head (cc)

-- The row that a worker claims stands in the table and passes the claim's test.
pub mem-claim {ℓ} :
    {J : Type ℓ} (le : J → J → Bool) (p : J → Bool) (xs : List J) (j : J)
    → first (order_by le (select p xs)) ≡ some j
    → (p j ≡ true) × Memᴰ j xs
mem-claim le p xs j h =
    mem-select p xs j (mem-order_by le (select p xs) j (mem-first (order_by le (select p xs)) j h))

module _ {ℓ} {J : Type ℓ} ⦃r : Row J⦄ where
  newer-cases : (x y : J) → (newer (some x) (some y) ≡ some x) ⊎ (newer (some x) (some y) ≡ some y)
  newer-cases x y = ground arith

  mem-newest : (xs : List J) (j : J) → newest xs ≡ some j → Memᴰ j xs
  mem-newest [] j h = cc
  mem-newest (x ∷ xs) j h = elim (Option-cases (newest xs)) [
    | inl e ↦ Memᴰ.head (ground arith)
    | inr (y, e) ↦ elim (newer-cases x y) [
      | inl q ↦ Memᴰ.head (ground arith)
      | inr q ↦ Memᴰ.tail (mem-newest xs j (ground arith))
    ]
  ]

  pub mem-latest_for :
      (d : ℕ) (js : List J) (j : J) → latest_for d js ≡ some j → (r.document_id j ≡ d) × Memᴰ j js
  unfolding rows_of
  mem-latest_for d js j h =
      let inside =
        mem-select (λ i. r.document_id i == d) js j
          (mem-newest (rows_of d js) j (sym (latest_for-newest d js) ∙ h)) in
      ((==_iff _ d).0 inside.0, inside.1)

  pub mem-latest_active_for :
      (d : ℕ) (js : List J) (j : J)
      → latest_active_for d js ≡ some j
      → (r.document_id j ≡ d) × (r.is_active j ≡ true) × Memᴰ j js
  unfolding latest_active_for
  mem-latest_active_for d js j h =
      let active = select (λ i. (r.document_id i == d) && r.is_active i) js in
      let (passed, there) =
        mem-select (λ i. (r.document_id i == d) && r.is_active i) js j
          (mem-newest active j (sym (first-order_desc active) ∙ h)) in
      (ground (arith, passed), ground (arith, passed), there)

  pub has_active-mem :
      (xs : List J) (x : J)
      → Memᴰ x xs
      → r.is_active x ≡ true
      → has_active (r.document_id x) xs ≡ true
  unfolding has_active
  has_active-mem [] x m h = elim m [ ]
  has_active-mem (y ∷ ys) x (Memᴰ.head e) h = rw (sym e) (ground arith)
  has_active-mem (y ∷ ys) x (Memᴰ.tail m) h = ground (arith, has_active-mem ys x m h)

  -- The row just inserted is the active row of its document.
  pub latest_active_for-insert :
      (xs : List J) (x : J)
      → has_clash (xs ++ x ∷ []) ≡ false
      → r.is_active x ≡ true
      → latest_active_for (r.document_id x) (xs ++ x ∷ []) ≡ some x
  latest_active_for-insert xs x h a = elim (Option-cases (latest_active_for d all_rows)) [
    | inl e ↦ cc (
      ap is_some e,
      is_some-latest_active_for d all_rows,
      has_active-mem all_rows x (Memᴰ.append_right xs (Memᴰ.head refl)) a,
    )
    | inr (y, e) ↦ e ∙ ap some (same y (mem-latest_active_for d all_rows y e))
  ]
    where
      d : ℕ
      d = r.document_id x

      all_rows : List J
      all_rows = xs ++ x ∷ []

      elsewhere :
          (y : J) → r.document_id y ≡ d → r.is_active y ≡ true → Memᴰ y xs ⊎ Memᴰ y (x ∷ []) → y ≡ x
      elsewhere y doc act (inl m) =
          ground (arith, has_clash-insert xs x, rw doc at (has_active-mem xs y m act))
      elsewhere y doc act (inr m) = Memᴰ.eq_of_singleton m

      same : (y : J) → (r.document_id y ≡ d) × (r.is_active y ≡ true) × Memᴰ y all_rows → y ≡ x
      same y (doc, act, m) = elsewhere y doc act (Memᴰ.append_cases xs m)

update_row_self {ℓ} :
    {J : Type ℓ} ⦃k : Keyed J⦄ (f : J → J) (y : J) (ys : List J)
    → update_row (k.id y) f (y ∷ ys) ≡ f y ∷ update_row (k.id y) f ys
unfolding update_row
update_row_self ⦃k⦄ f y ys = rw (==-refl (k.id y))

module _ {ℓ} {J : Type ℓ} ⦃k : Keyed J⦄ ⦃r : Row J⦄ (f : J → J)
    (same : (j : J) → r.document_id (f j) ≡ r.document_id j)
    (retired : (j : J) → r.is_active (f j) ≡ false) where
  retire_head :
      (y : J) (ys : List J)
      → has_clash (y ∷ ys) ≡ false
      → r.is_active y ≡ true
      → has_active (r.document_id y) (update_row (k.id y) f (y ∷ ys)) ≡ false
  unfolding has_clash
  retire_head y ys c a = rw (update_row_self f y ys) (
      unfold has_active in
      ground (
        arith,
        same y,
        retired y,
        has_active-update (k.id y) f same (λ j h. absurd (true≢false (sym h ∙ retired j)))
            (r.document_id y) ys,
      ))

  -- Retiring the active row by its key leaves its document with no active row.
  pub has_active-retire :
      (xs : List J) (x : J)
      → has_clash xs ≡ false
      → Memᴰ x xs
      → r.is_active x ≡ true
      → has_active (r.document_id x) (update_row (k.id x) f xs) ≡ false
  unfolding has_active has_clash update_row
  has_active-retire [] x c m a = elim m [ ]
  has_active-retire (y ∷ ys) x c (Memᴰ.head e) a =
      subst (λ z. has_active (r.document_id z) (update_row (k.id z) f (y ∷ ys)) ≡ false) (sym e)
        (retire_head y ys c (sym (ap r.is_active e) ∙ a))
  has_active-retire (y ∷ ys) x c (Memᴰ.tail m) a =
      ground (
        arith,
        same y,
        retired y,
        has_active-mem ys x m a,
        has_active-retire ys x (ground arith) m a,
      )

module _ {ℓ} {J : Type ℓ} ⦃r : Row J⦄ where
  -- Beside an active row there is no other active row of its document.
  pub has_active-beside :
      (xs ys : List J) (x : J)
      → has_clash (xs ++ ys) ≡ false
      → Memᴰ x xs
      → r.is_active x ≡ true
      → has_active (r.document_id x) ys ≡ false
  unfolding has_clash
  has_active-beside [] ys x c m a = elim m [ ]
  has_active-beside (z ∷ xs) ys x c (Memᴰ.head e) a =
      rw e (ground (arith, has_active-append (r.document_id z) xs ys, rw e at a))
  has_active-beside (z ∷ xs) ys x c (Memᴰ.tail m) a = has_active-beside xs ys x (ground arith) m a
