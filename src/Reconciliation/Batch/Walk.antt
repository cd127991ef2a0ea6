-- ===== src/Reconciliation/Batch/Walk.antt =====
-- A client that follows the cursors of app/services/reconciliation/document_audit_batch_service.py
-- to the end.
use documents_rag.Base.{
  ℕ, zero, suc, ◌≤◌, ◌<◌, ◌≡◌, refl, sym, ap, ◌∙◌, true, false, ltb, ◌||◌, List, [], ◌∷◌, ◌++◌,
  Option, none, some, Result, ok, err, Text, take, drop, length, arith, inl, inr, select,
}
use mathlib.Core.List.{append-nil, map-append}
use documents_rag.Db.{Db}
use documents_rag.Db.Distinct.{DistinctIds}
use documents_rag.Db.Env.{Env}
use documents_rag.Db.Models.{Document, document_key}
use documents_rag.Db.Rows.{order_by}
use documents_rag.Reconciliation.Batch.{
  BatchError, older_first, audit_batch, decode_optional, batch_at,
}
use documents_rag.Reconciliation.Triage.{
  DocumentLifecycleAuditBatchResult, min_batch_limit, max_batch_limit,
}
use documents_rag.Reconciliation.Batch.Order.{length-order_by}
use documents_rag.Reconciliation.Batch.Pages.{
  IsOrdered, remaining, ids, document_ids, Continues, continues, page_ids, batch_after, take-drop,
}
use documents_rag.Reconciliation.Cursor.{Codec, AuditCursor, decode_audit_cursor}
use documents_rag.Reconciliation.Cursor.RoundTrip.{IsCodec}
use documents_rag.Reconciliation.Findings.{DocumentLifecycleAuditResult}

abbrev follow : Option Text → (Option Text → List ℕ) → List ℕ
follow none next = []
follow (some cursor) next = next (some cursor)

abbrev pub visit :
    Result BatchError DocumentLifecycleAuditBatchResult → (Option Text → List ℕ) → List ℕ
visit (err e) next = []
visit (ok batch) next = ids batch.documents ++ follow batch.next_cursor next

module _ (codec : Codec) (env : Env) (db : Db) (audit : ℕ → DocumentLifecycleAuditResult)
    (n : ℕ) where
  -- the ids of the documents on at most `fuel` pages of `n + 1` documents, from a cursor on
  unfoldable pub walk : ℕ → Option Text → List ℕ
  walk zero cursor = []
  walk (suc fuel) cursor = visit (audit_batch codec env db audit (suc n) cursor) (walk fuel)

  decoded_batch :
      (cursor : Option Text) (decoded : Option AuditCursor)
      → suc n ≤ max_batch_limit
      → decode_optional codec cursor ≡ ok decoded
      → audit_batch codec env db audit (suc n) cursor
        ≡ ok (batch_after codec env db audit n decoded)
  unfolding audit_batch
  decoded_batch cursor decoded h e =
      let valid : (ltb (suc n) min_batch_limit || ltb max_batch_limit (suc n)) ≡ false =
        ground arith in
      rw valid (ap (batch_at codec env db audit (suc n)) e)

  decode_some :
      (c : Text) (c' : AuditCursor)
      → decode_audit_cursor codec c ≡ ok c'
      → decode_optional codec (some c) ≡ ok (some c')
  decode_some c c' h = rw (h, decode_optional) refl

  walk_from :
      (fuel : ℕ) (cursor : Option Text) (decoded : Option AuditCursor)
      → suc n ≤ max_batch_limit
      → IsCodec codec env
      → IsOrdered codec env
      → DistinctIds db.documents
      → decode_optional codec cursor ≡ ok decoded
      → length (remaining codec env db decoded) < fuel
      → walk fuel cursor ≡ document_ids (remaining codec env db decoded)
  unfolding walk
  walk_from zero cursor decoded fits h o distinct e short = absurd (omega arith)
  walk_from (suc fuel) cursor decoded fits h o distinct e short =
      ap (λ r. visit r (walk fuel)) (decoded_batch cursor decoded fits e)
      ∙ seen (λ c c' d s. walk_from fuel (some c) (some c') fits h o distinct d s)
          (continues codec env db audit n decoded h o distinct)
    where
      left : List Document
      left = remaining codec env db decoded

      seen :
          ((c : Text) (c' : AuditCursor)
            → decode_optional codec (some c) ≡ ok (some c')
            → length (remaining codec env db (some c')) < fuel
            → walk fuel (some c) ≡ document_ids (remaining codec env db (some c')))
          → Continues codec env db audit n decoded
              (batch_after codec env db audit n decoded).next_cursor
          → visit (ok (batch_after codec env db audit n decoded)) (walk fuel) ≡ document_ids left
      seen ih (inl (last_page, whole)) =
          ap (λ l. l ++ follow (batch_after codec env db audit n decoded).next_cursor (walk fuel))
            (page_ids codec env db audit n decoded)
          ∙ ap (λ c. document_ids (take (suc n) left) ++ follow c (walk fuel)) last_page
          ∙ append-nil (document_ids (take (suc n) left))
          ∙ ap document_ids whole
      seen ih (inr (c, c', next, decodes, rest, shorter)) =
          ap (λ l. l ++ follow (batch_after codec env db audit n decoded).next_cursor (walk fuel))
            (page_ids codec env db audit n decoded)
          ∙ ap (λ x. document_ids (take (suc n) left) ++ follow x (walk fuel)) next
          ∙ ap (λ l. document_ids (take (suc n) left) ++ l)
              (ih c c' (decode_some c c' decodes) (omega (arith, ap length rest))
                ∙ ap document_ids rest)
          ∙ sym (map-append (λ (d : Document). d.id) (take (suc n) left) (drop (suc n) left))
          ∙ ap document_ids (take-drop (suc n) left)

  select-everything : (ds : List Document) → select (λ d. true) ds ≡ ds
  select-everything [] = refl
  select-everything (d ∷ ds) = ap (λ l. d ∷ l) (select-everything ds)

  -- A client that follows the cursors of pages of one size, up to 50, visits every document
  -- exactly once, in the order of (created_at, id), on at most one more page than there are
  -- documents, if the table does not change meanwhile, has distinct ids, and the Python library's
  -- codecs and the order of the UUIDs' texts are as documented.
  pub walk-visits :
      suc n ≤ max_batch_limit
      → IsCodec codec env
      → IsOrdered codec env
      → DistinctIds db.documents
      → walk (suc (length db.documents)) none ≡ document_ids (order_by older_first db.documents)
  walk-visits fits h o distinct =
      walk_from (suc (length db.documents)) none none fits h o distinct refl (
        omega (
          arith,
          ap length (select-everything (order_by older_first db.documents)),
          length-order_by db.documents,
        ))
      ∙ ap document_ids (select-everything (order_by older_first db.documents))
