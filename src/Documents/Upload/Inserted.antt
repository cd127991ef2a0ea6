-- ===== src/Documents/Upload/Inserted.antt =====
-- What the lookups of dedup_service.py find after an insert.
use documents_rag.Base.{
  ℕ, ◌≡◌, refl, sym, ap, ◌∙◌, true, false, ==-refl, List, [], ◌∷◌, ◌++◌, Option, none, some, Text,
  text_eq, text_eq_iff, any, select, first, arith,
}
use documents_rag.Db.{same_text, hash_clash}
use documents_rag.Db.Latest.{newest, latest_for-newest}
use documents_rag.Db.Models.{Document}
use documents_rag.Db.Rows.{Row, rows_of, latest_for}

same_text_self : (t : Text) → text_eq t t ≡ true
same_text_self t = (text_eq_iff t t).1 refl

-- the last document is among those that the index compares
clash-last :
    (o : Option Text) (ds : List Document) (d : Document)
    → any (λ (e : Document). same_text o e.content_hash) (ds ++ d ∷ []) ≡ false
    → same_text o d.content_hash ≡ false
clash-last o [] d h = ground (arith, h)
clash-last o (x ∷ ds) d h = clash-last o ds d (ground (arith, h))

-- An inserted document that the index on the hash admits is the one that its hash finds.
pub find-insert :
    (t : Text) (ds : List Document) (d : Document)
    → d.content_hash ≡ some t
    → hash_clash (ds ++ d ∷ []) ≡ false
    → first (select (λ (e : Document). same_text e.content_hash (some t)) (ds ++ d ∷ [])) ≡ some d
unfolding hash_clash
find-insert t [] d e h = ground (arith, e, same_text_self t)
find-insert t (x ∷ ds) d e h =
    rw (ap (same_text x.content_hash) (sym e) ∙ clash-last x.content_hash ds d (ground (arith, h)))
      (find-insert t ds d e (ground (arith, h)))

module _ {J : Type 0} ⦃r : Row J⦄ where
  no_rows : (d : ℕ) (js : List J) → latest_for d js ≡ none → rows_of d js ≡ []
  no_rows d js h = empty (rows_of d js) (sym (latest_for-newest d js) ∙ h)
    where
      empty : (xs : List J) → newest xs ≡ none → xs ≡ []
      empty [] e = refl
      empty (x ∷ xs) e = ground arith

  rows_of-append : (d : ℕ) (xs ys : List J) → rows_of d (xs ++ ys) ≡ rows_of d xs ++ rows_of d ys
  unfolding rows_of
  rows_of-append d [] ys = refl
  rows_of-append d (x ∷ xs) ys = ground (arith, rows_of-append d xs ys)

  -- The first job of a document is its latest one.
  pub latest_for-insert :
      (xs : List J) (x : J)
      → latest_for (r.document_id x) xs ≡ none
      → latest_for (r.document_id x) (xs ++ x ∷ []) ≡ some x
  unfolding rows_of
  latest_for-insert xs x h =
      latest_for-newest (r.document_id x) (xs ++ x ∷ [])
      ∙ ap newest (rows_of-append (r.document_id x) xs (x ∷ []))
      ∙ rw (no_rows (r.document_id x) xs h) (rw (==-refl (r.document_id x)) refl)
