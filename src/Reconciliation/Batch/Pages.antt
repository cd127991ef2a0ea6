-- ===== src/Reconciliation/Batch/Pages.antt =====
-- Following the cursors of app/services/reconciliation/document_audit_batch_service.py visits every
-- document once, in order.
use documents_rag.Base.{
  ℕ, All, if_holds, zero, suc, ◌<◌, ◌≡◌, ◌⊎◌, refl, sym, ap, ◌∙◌, Bool, true, false, ltb, List, [],
  ◌∷◌, ◌++◌, Option, none, some, ok, Text, map, select, take, drop, length, arith, Bool-cases, inl,
  inr,
}
use mathlib.Core.Path.{subst, fun_ext}
use mathlib.Core.List.{append_assoc}
use documents_rag.Db.{Db}
use documents_rag.Db.Distinct.{DistinctIds}
use documents_rag.Db.Env.{Env}
use documents_rag.Db.Models.{Document, document_key}
use documents_rag.Db.Rows.{order_by}
use documents_rag.Reconciliation.Batch.{
  older_first, is_after, select_document_page, text_lt, last_cursor, batch_from,
}
use documents_rag.Reconciliation.Triage.{
  DocumentAuditSummary, DocumentLifecycleAuditBatchResult, no_counts, summary_of,
}
use documents_rag.Reconciliation.Batch.Counts.{page-Tallies, Tallies-no_counts}
use documents_rag.Reconciliation.Batch.Order.{
  later, Ascending, Ascending-order_by, Ascending-select, select-later, select-select,
  text_lt_trans, All-middle,
}
use documents_rag.Reconciliation.Cursor.{
  Codec, AuditCursor, encode_audit_cursor, decode_audit_cursor,
}
use documents_rag.Reconciliation.Cursor.RoundTrip.{IsCodec, decode_audit_cursor-encode_audit_cursor}
use documents_rag.Reconciliation.Findings.{DocumentLifecycleAuditResult, document_missing}

take-take-suc {ℓ} : {A : Type ℓ} (n : ℕ) (xs : List A) → take n (take (suc n) xs) ≡ take n xs
take-take-suc zero xs = refl
take-take-suc (suc n) [] = refl
take-take-suc (suc n) (x ∷ xs) = ap (λ l. x ∷ l) (take-take-suc n xs)

pub take-drop {ℓ} : {A : Type ℓ} (n : ℕ) (xs : List A) → take n xs ++ drop n xs ≡ xs
take-drop zero xs = refl
take-drop (suc n) [] = refl
take-drop (suc n) (x ∷ xs) = ap (λ l. x ∷ l) (take-drop n xs)

more_than {ℓ} :
    {A : Type ℓ} (n : ℕ) (xs : List A) → ltb n (length (take (suc n) xs)) ≡ ltb n (length xs)
more_than zero [] = refl
more_than zero (x ∷ xs) = ground arith
more_than (suc n) [] = refl
more_than (suc n) (x ∷ xs) = ground (arith, more_than n xs)

take-whole {ℓ} : {A : Type ℓ} (n : ℕ) (xs : List A) → ltb n (length xs) ≡ false → take n xs ≡ xs
take-whole zero [] h = refl
take-whole zero (x ∷ xs) h = absurd (ground (arith, h))
take-whole (suc n) [] h = refl
take-whole (suc n) (x ∷ xs) h = ap (λ l. x ∷ l) (take-whole n xs (ground (arith, h)))

length-drop-lt {ℓ} :
    {A : Type ℓ} (n : ℕ) (xs : List A)
    → ltb (suc n) (length xs) ≡ true
    → length (drop (suc n) xs) < length xs
length-drop-lt n [] h = absurd (ground (arith, h))
length-drop-lt zero (x ∷ xs) h = omega arith
length-drop-lt (suc n) (x ∷ xs) h = ground (arith, h, length-drop-lt n xs)

All-selected : (p : Document → Bool) (ds : List Document) → All (λ d. p d ≡ true) (select p ds)
All-selected p [] = tt
All-selected p (d ∷ ds) =
    if_holds (All (λ x. p x ≡ true)) (p d) (d ∷ select p ds) (select p ds)
      (λ e. (e, All-selected p ds)) (λ e. All-selected p ds)

abbrev pub ids : List DocumentAuditSummary → List ℕ
ids = map (λ (s : DocumentAuditSummary). s.document_id)

abbrev pub document_ids : List Document → List ℕ
document_ids = map (λ (d : Document). d.id)

module _ (codec : Codec) (env : Env) where
  abbrev pub cursor_of : Document → AuditCursor
  cursor_of d = record { created_at = d.created_at; document_id = env.show_uuid d.id }

  -- the texts of UUIDs are ordered as the UUIDs
  abbrev pub IsOrdered : Type 0
  IsOrdered = (i j : ℕ) → text_lt (env.show_uuid i) (env.show_uuid j) ≡ ltb i j

  past_cursor_of : (d e : Document) → IsOrdered → is_after env (some (cursor_of d)) e ≡ later d e
  past_cursor_of d e o = ground (arith, o d.id e.id)

  past_upward :
      (cursor : Option AuditCursor) (d e : Document)
      → IsOrdered
      → is_after env cursor d ≡ true
      → later d e ≡ true
      → is_after env cursor e ≡ true
  past_upward none d e o h g = refl
  past_upward (some c) d e o h g =
      ground
        (arith, o d.id e.id, text_lt_trans c.document_id (env.show_uuid d.id) (env.show_uuid e.id))

  -- A page that is not empty ends with the document of its cursor.
  page_end :
      (d : Document) (ds : List Document)
      → (before : List Document) × (e : Document) × (d ∷ ds ≡ before ++ e ∷ [])
        × (last_cursor codec env (d ∷ ds) ≡ some (encode_audit_cursor codec env e.created_at e.id))
  unfolding last_cursor
  page_end d [] = ([], d, refl, refl)
  page_end d (e ∷ es) =
      let (before, last_one, whole, cursor) = page_end e es in
      (d ∷ before, last_one, ap (λ l. d ∷ l) whole, cursor)

  -- the documents that a cursor leaves to visit, in order
  abbrev pub remaining : Db → Option AuditCursor → List Document
  remaining db cursor = select (is_after env cursor) (order_by older_first db.documents)

  -- After a page, its cursor leaves what the page did not show.
  remaining-next :
      (db : Db) (cursor : Option AuditCursor) (before : List Document) (d : Document)
      (rest : List Document)
      → IsOrdered
      → DistinctIds db.documents
      → remaining db cursor ≡ before ++ (d ∷ rest)
      → remaining db (some (cursor_of d)) ≡ rest
  remaining-next db cursor before d rest o distinct whole =
      let p = is_after env cursor in
      let sorted = order_by older_first db.documents in
      let ascending : Ascending (before ++ (d ∷ rest)) =
        subst Ascending whole
          (Ascending-select p sorted (Ascending-order_by db.documents distinct)) in
      let shown : p d ≡ true =
        All-middle (λ x. p x ≡ true) before d rest
          (subst (All (λ x. p x ≡ true)) whole (All-selected p sorted)) in
      ap (λ q. select q sorted) (fun_ext (λ e. past_cursor_of d e o))
      ∙ sym (select-select p (later d) sorted (λ e l. past_upward cursor d e o shown l))
      ∙ ap (select (later d)) whole
      ∙ select-later before d rest ascending

  module _ (db : Db) (audit : ℕ → DocumentLifecycleAuditResult) (n : ℕ) where
    abbrev pub batch_after : Option AuditCursor → DocumentLifecycleAuditBatchResult
    batch_after cursor = batch_from codec env db audit (suc n) cursor

    ids-summaries :
        (ds : List Document) → ids (map (λ d. summary_of d (audit d.id)) ds) ≡ document_ids ds
    ids-summaries [] = refl
    ids-summaries (d ∷ ds) = ap (λ l. d.id ∷ l) (ids-summaries ds)

    -- A page shows the next documents.
    pub page_ids :
        (cursor : Option AuditCursor)
        → ids (batch_after cursor).documents ≡ document_ids (take (suc n) (remaining db cursor))
    unfolding batch_from select_document_page
    page_ids cursor =
        let page = take (suc n) (select_document_page env db (suc n) cursor) in
        ap ids
          (page-Tallies document_missing audit [] no_counts page
            (Tallies-no_counts document_missing)).1
        ∙ ids-summaries page
        ∙ ap document_ids (take-take-suc (suc n) (remaining db cursor))

    -- The last page has no cursor; any other has one, which leaves the rest.
    abbrev pub Continues : Option AuditCursor → Option Text → Type 0
    Continues cursor next =
        ((next ≡ none) × (take (suc n) (remaining db cursor) ≡ remaining db cursor))
        ⊎ ((c : Text) × (c' : AuditCursor) × (next ≡ some c)
            × (decode_audit_cursor codec c ≡ ok c')
            × (remaining db (some c') ≡ drop (suc n) (remaining db cursor))
            × (length (drop (suc n) (remaining db cursor)) < length (remaining db cursor)))

    Continues-in :
        (cursor : Option AuditCursor) (rows : List Document)
        → remaining db cursor ≡ rows
        → IsCodec codec env
        → IsOrdered
        → DistinctIds db.documents
        → ltb (suc n) (length rows) ≡ true
        → Continues cursor (last_cursor codec env (take (suc n) rows))
    Continues-in cursor [] e h o distinct more = absurd (ground (arith, more))
    Continues-in cursor (d ∷ ds) e h o distinct more =
        let (before, last_one, whole, shown) = page_end d (take n ds) in
        let split : remaining db cursor ≡ before ++ (last_one ∷ drop n ds) =
          e
          ∙ sym (take-drop (suc n) (d ∷ ds))
          ∙ ap (λ l. l ++ drop n ds) whole
          ∙ append_assoc before (last_one ∷ []) (drop n ds) in
        inr (
          encode_audit_cursor codec env last_one.created_at last_one.id,
          cursor_of last_one,
          shown,
          decode_audit_cursor-encode_audit_cursor codec env last_one.created_at last_one.id h,
          remaining-next db cursor before last_one (drop n ds) o distinct split
              ∙ ap (drop (suc n)) (sym e),
          subst (λ l. length (drop (suc n) l) < length l) (sym e) (length-drop-lt n (d ∷ ds) more),
        )

    pub continues :
        (cursor : Option AuditCursor)
        → IsCodec codec env
        → IsOrdered
        → DistinctIds db.documents
        → Continues cursor (batch_after cursor).next_cursor
    unfolding batch_from select_document_page
    continues cursor h o distinct = elim (Bool-cases (ltb (suc n) (length (remaining db cursor)))) [
      | inl more ↦
          rw
            (
              more_than (suc n) (remaining db cursor),
              more,
              take-take-suc (suc n) (remaining db cursor),
            )
            (Continues-in cursor (remaining db cursor) refl h o distinct more)
      | inr last_page ↦
          rw (more_than (suc n) (remaining db cursor), last_page)
            (inl (refl, take-whole (suc n) (remaining db cursor) last_page))
    ]
