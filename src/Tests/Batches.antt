-- ===== src/Tests/Batches.antt =====
-- Pages of an audit, with a codec in which times and ids are single code points.
use documents_rag.Base.{
  ℕ, ◌≡◌, refl, [], ◌∷◌, ◌++◌, none, some, ok, true, Text, List, Option, arith, length, Bool, zero,
  suc, map, ap, sym, ◌∙◌, text_eq,
}
use mathlib.Core.List.{append-nil, append_assoc}
use documents_rag.Db.{Db}
use documents_rag.Reconciliation.Cursor.{
  JsonField, Codec, object, text, encode_audit_cursor, decode_audit_cursor,
}
use documents_rag.Reconciliation.Cursor.RoundTrip.{
  as_field, IsCodec, decode_audit_cursor-encode_audit_cursor,
}
use documents_rag.Db.Env.{Env}
use documents_rag.Db.Models.{document_key}
use documents_rag.Db.Rows.{order_by}
use documents_rag.Reconciliation.Batch.{older_first, text_lt, batch_from, audit_batch}
use documents_rag.Reconciliation.Triage.{DocumentLifecycleAuditBatchResult}
use documents_rag.Reconciliation.Batch.Counts.{Tallies, audit_batch-Tallies}
use documents_rag.Reconciliation.Batch.Pages.{IsOrdered, document_ids}
use documents_rag.Reconciliation.Batch.Walk.{walk, walk-visits}
use documents_rag.Reconciliation.Findings.{not_found_result, document_missing}
use documents_rag.Tests.Data.{env, paper, with_jobs}

-- a text as its code points, each plus one, and a zero
unfoldable framed : Text → Text → Text
framed [] rest = 0 ∷ rest
framed (c ∷ cs) rest = suc c ∷ framed cs rest

unfoldable values : List (Text × Text) → Text
unfolding framed
values [] = []
values ((k, v) ∷ m) = framed k (framed v (values m))

-- what is read so far: the fields, the key if it is complete, and the text at hand
unfoldable parsed : List (Text × JsonField) → Option Text → Text → Text → List (Text × JsonField)
parsed fields key held [] = fields
parsed fields none held (zero ∷ cs) = parsed fields (some held) [] cs
parsed fields (some k) held (zero ∷ cs) = parsed (fields ++ (k, text held) ∷ []) none [] cs
parsed fields key held (suc c ∷ cs) = parsed fields key (held ++ c ∷ []) cs

parsed-framed :
    (fields : List (Text × JsonField)) (key : Option Text) (held t rest : Text)
    → parsed fields key held (framed t rest) ≡ parsed fields key (held ++ t) (0 ∷ rest)
unfolding parsed framed
parsed-framed fields key held [] rest = rw (append-nil held) refl
parsed-framed fields key held (c ∷ cs) rest =
    parsed-framed fields key (held ++ c ∷ []) cs rest
    ∙ ap (λ t. parsed fields key t (0 ∷ rest)) (append_assoc held (c ∷ []) cs)

parsed-values :
    (fields : List (Text × JsonField)) (m : List (Text × Text))
    → parsed fields none [] (values m) ≡ fields ++ map as_field m
unfolding parsed values
parsed-values fields [] = sym (append-nil fields)
parsed-values fields ((k, v) ∷ m) =
    parsed-framed fields none [] k (framed v (values m))
    ∙ parsed-framed fields (some k) [] v (values m)
    ∙ parsed-values (fields ++ (k, text v) ∷ []) m
    ∙ append_assoc fields ((k, text v) ∷ []) (map as_field m)

abbrev read_time : Text → Option (ℕ × Bool)
read_time (t ∷ []) = some (t, true)
read_time _ = none

abbrev codec : Codec
codec = record {
  urlsafe_b64encode = λ raw. raw;
  urlsafe_b64decode = λ t. some t;
  encode_utf8 = λ t. t;
  decode_utf8 = λ raw. some raw;
  dumps = values;
  loads = λ t. some (object (parsed [] none [] t));
  isoformat = λ t. t ∷ [];
  fromisoformat = read_time;
  is_uuid = λ t. true;
}

abbrev short_env : Env
short_env = record env { show_uuid = λ i. i ∷ [] }

codec-IsCodec : IsCodec codec short_env
unfolding encode_audit_cursor values text_eq
codec-IsCodec = record {
  base64 = λ raw. refl;
  utf8 = λ t. refl;
  json = λ fields h. ap (λ m. some (object m)) (parsed-values [] fields);
  iso = λ t. refl;
  uuids = λ i. refl;
  short = λ t i. refl;
}

in_order : IsOrdered codec short_env
unfolding text_lt
in_order i j = ground arith

decode_audit_cursor-encode_audit_cursor_example :
    decode_audit_cursor codec (encode_audit_cursor codec short_env 100 7)
    ≡ ok (record { created_at = 100; document_id = 7 ∷ [] })
decode_audit_cursor-encode_audit_cursor_example =
    decode_audit_cursor-encode_audit_cursor codec short_env 100 7 codec-IsCodec

abbrev shelf : Db
shelf = record (with_jobs []) {
  documents = record paper { id = 2; created_at = 50 } ∷ paper ∷ record paper { id = 3 } ∷ [];
}

walk-visits_example :
    walk codec short_env shelf not_found_result 1 4 none
    ≡ document_ids (order_by older_first shelf.documents)
walk-visits_example =
    walk-visits codec short_env shelf not_found_result 1 (omega arith) codec-IsCodec in_order
      (omega arith)

abbrev first_batch : DocumentLifecycleAuditBatchResult
first_batch = batch_from codec short_env shelf not_found_result 2 none

first_page : audit_batch codec short_env shelf not_found_result 2 none ≡ ok first_batch
unfolding audit_batch
first_page = refl

audit_batch-Tallies_example :
    Tallies document_missing first_batch.documents first_batch.counters
    × (first_batch.scanned_count ≡ length first_batch.documents)
audit_batch-Tallies_example =
    audit_batch-Tallies codec short_env shelf not_found_result 2 none document_missing first_batch
      first_page
