-- ===== src/Reconciliation/Batch/Counts.antt =====
-- The aggregate counts of app/services/reconciliation/document_audit_batch_service.py.
use documents_rag.Base.{
  ℕ, ◌+◌, ◌≡◌, refl, Bool, true, false, ltb, ◌||◌, List, [], ◌∷◌, ◌++◌, Option, Result, ok, err,
  Text, map, sym, ◌∙◌, select, take, length, length-append, arith, if◌then◌else◌, if_holds,
}
use mathlib.Core.Path.{subst}
use mathlib.Core.List.{append-nil, append_assoc}
use documents_rag.Db.{Db}
use documents_rag.Db.Env.{Env}
use documents_rag.Db.Models.{Document}
use documents_rag.Reconciliation.Batch.{
  batch_from, batch_at, audit_batch, BatchError, select_document_page, decode_optional,
  invalid_limit,
}
use documents_rag.Reconciliation.Triage.{
  DocumentAuditClassification, DocumentAuditSummary, BatchCounters, FindingCounts, same_code,
  get_count, add_one, add_all, lacks_dependency, record_summary, summary_of, audit_page, no_counts,
  DocumentLifecycleAuditBatchResult, min_batch_limit, max_batch_limit,
}
use documents_rag.Reconciliation.Cursor.{Codec, CursorError, AuditCursor}
use documents_rag.Reconciliation.Findings.{
  DocumentLifecycleFinding, DocumentLifecycleFindingCode, DocumentLifecycleAuditResult,
}

abbrev pub count {ℓ} : {A : Type ℓ} → (A → Bool) → List A → ℕ
count p xs = length (select p xs)

count-append {ℓ} :
    {A : Type ℓ} (p : A → Bool) (xs : List A) (x : A)
    → count p (xs ++ x ∷ []) ≡ count p xs + (if p x then 1 else 0)
count-append p [] x = ground arith
count-append p (y ∷ ys) x = ground (arith, count-append p ys x)

abbrev pub in_class : DocumentAuditClassification → DocumentAuditSummary → Bool
in_class DocumentAuditClassification.not_found s = elim s.classification [
  | DocumentAuditClassification.not_found ↦ true
  | _ ↦ false
]
in_class DocumentAuditClassification.inconsistent s = elim s.classification [
  | DocumentAuditClassification.inconsistent ↦ true
  | _ ↦ false
]
in_class DocumentAuditClassification.consistent s = elim s.classification [
  | DocumentAuditClassification.consistent ↦ true
  | _ ↦ false
]
in_class DocumentAuditClassification.transitional s = elim s.classification [
  | DocumentAuditClassification.transitional ↦ true
  | _ ↦ false
]
in_class DocumentAuditClassification.warning s = elim s.classification [
  | DocumentAuditClassification.warning ↦ true
  | _ ↦ false
]

-- how often a code occurs among the findings of the summaries
abbrev pub occurrences : DocumentLifecycleFindingCode → List DocumentAuditSummary → ℕ
occurrences code [] = 0
occurrences code (s ∷ ss) =
    count (λ (f : DocumentLifecycleFinding). same_code f.code code) s.findings + occurrences code ss

occurrences-append :
    (code : DocumentLifecycleFindingCode) (ss : List DocumentAuditSummary)
    (s : DocumentAuditSummary)
    → occurrences code (ss ++ s ∷ [])
      ≡ occurrences code ss
        + count (λ (f : DocumentLifecycleFinding). same_code f.code code) s.findings
occurrences-append code [] s = omega arith
occurrences-append code (t ∷ ts) s = omega (arith, occurrences-append code ts s)

get_count-add_one :
    (code c : DocumentLifecycleFindingCode) (m : FindingCounts)
    → get_count code (add_one c m) ≡ get_count code m + (if same_code c code then 1 else 0)
unfolding get_count add_one
get_count-add_one code c [] = ground arith
get_count-add_one code c ((d, n) ∷ m) = ground (arith, get_count-add_one code c m)

get_count-add_all :
    (code : DocumentLifecycleFindingCode) (fs : List DocumentLifecycleFinding) (m : FindingCounts)
    → get_count code (add_all fs m)
      ≡ get_count code m + count (λ (f : DocumentLifecycleFinding). same_code f.code code) fs
unfolding add_all
get_count-add_all code [] m = omega arith
get_count-add_all code (f ∷ fs) m =
    ground (arith, get_count-add_all code fs (add_one f.code m), get_count-add_one code f.code m)

-- The counters of a batch agree with its summaries.
pub record Tallies (code : DocumentLifecycleFindingCode) (summaries : List DocumentAuditSummary)
    (c : BatchCounters) : Type 0 where
  pub consistent_tally :
      c.consistent_count ≡ count (in_class DocumentAuditClassification.consistent) summaries
  pub transitional_tally :
      c.transitional_count ≡ count (in_class DocumentAuditClassification.transitional) summaries
  pub warning_tally :
      c.warning_count ≡ count (in_class DocumentAuditClassification.warning) summaries
  pub inconsistent_tally :
      c.inconsistent_count ≡ count (in_class DocumentAuditClassification.inconsistent) summaries
  pub not_found_tally :
      c.not_found_count ≡ count (in_class DocumentAuditClassification.not_found) summaries
  pub dependency_tally : c.dependency_unavailable_count ≡ count lacks_dependency summaries
  pub finding_tally : get_count code c.finding_counts ≡ occurrences code summaries
  pub total :
      c.consistent_count + c.transitional_count + c.warning_count + c.inconsistent_count
        + c.not_found_count
      ≡ length summaries

Tallies-record_summary :
    (code : DocumentLifecycleFindingCode) (ss : List DocumentAuditSummary) (c : BatchCounters)
    (s : DocumentAuditSummary)
    → Tallies code ss c
    → Tallies code (ss ++ s ∷ []) (record_summary s c)
unfolding record_summary
Tallies-record_summary code ss c s h = record {
  consistent_tally = ground (
    arith,
    h.consistent_tally,
    count-append (in_class DocumentAuditClassification.consistent) ss s,
  );
  transitional_tally = ground (
    arith,
    h.transitional_tally,
    count-append (in_class DocumentAuditClassification.transitional) ss s,
  );
  warning_tally =
      ground
        (arith, h.warning_tally, count-append (in_class DocumentAuditClassification.warning) ss s);
  inconsistent_tally = ground (
    arith,
    h.inconsistent_tally,
    count-append (in_class DocumentAuditClassification.inconsistent) ss s,
  );
  not_found_tally = ground (
    arith,
    h.not_found_tally,
    count-append (in_class DocumentAuditClassification.not_found) ss s,
  );
  dependency_tally = ground (arith, h.dependency_tally, count-append lacks_dependency ss s);
  finding_tally = ground (
    arith,
    h.finding_tally,
    occurrences-append code ss s,
    get_count-add_all code s.findings c.finding_counts,
  );
  total = ground (arith, h.total, length-append ss (s ∷ []));
}

pub Tallies-no_counts : (code : DocumentLifecycleFindingCode) → Tallies code [] no_counts
unfolding get_count
Tallies-no_counts code = omega arith

-- Every document of the page has one summary, and the counters agree with the summaries.
pub page-Tallies :
    (code : DocumentLifecycleFindingCode) (audit : ℕ → DocumentLifecycleAuditResult)
    (ss : List DocumentAuditSummary) (c : BatchCounters) (documents : List Document)
    → Tallies code ss c
    → (let (all_summaries, counters) = audit_page audit (ss, c) documents in
        Tallies code all_summaries counters
        × (all_summaries ≡ ss ++ map (λ d. summary_of d (audit d.id)) documents))
unfolding audit_page
page-Tallies code audit ss c [] h = (h, sym (append-nil ss))
page-Tallies code audit ss c (d ∷ ds) h =
    let s = summary_of d (audit d.id) in
    let (tallies, whole) =
      page-Tallies code audit (ss ++ s ∷ []) (record_summary s c) ds
        (Tallies-record_summary code ss c s h) in
    (tallies, whole ∙ append_assoc ss (s ∷ []) (map (λ d. summary_of d (audit d.id)) ds))

ok-injective :
    {a b : DocumentLifecycleAuditBatchResult}
    → ◌≡◌ {A = Result BatchError DocumentLifecycleAuditBatchResult} (ok a) (ok b)
    → a ≡ b
ok-injective h = cc

module _ (codec : Codec) (env : Env) (db : Db) (audit : ℕ → DocumentLifecycleAuditResult) where
  from_Tallies :
      (limit : ℕ) (cursor : Option AuditCursor) (code : DocumentLifecycleFindingCode)
      → (let batch = batch_from codec env db audit limit cursor in
          Tallies code batch.documents batch.counters
          × (batch.scanned_count ≡ length batch.documents))
  unfolding batch_from
  from_Tallies limit cursor code = (
    (page-Tallies code audit [] no_counts (take limit (select_document_page env db limit cursor))
        (Tallies-no_counts code)).0,
    refl,
  )

  at-Tallies :
      (limit : ℕ) (code : DocumentLifecycleFindingCode)
      (decoded : Result CursorError (Option AuditCursor))
      (batch : DocumentLifecycleAuditBatchResult)
      → batch_at codec env db audit limit decoded ≡ ok batch
      → Tallies code batch.documents batch.counters × (batch.scanned_count ≡ length batch.documents)
  at-Tallies limit code (err e) batch h = absurd (cc)
  at-Tallies limit code (ok cursor) batch h =
      subst
        (λ (b : DocumentLifecycleAuditBatchResult).
          Tallies code b.documents b.counters × (b.scanned_count ≡ length b.documents))
        (ok-injective h) (from_Tallies limit cursor code)

  -- In every batch that is answered, each of the five counters is the number of its documents in
  -- that class, together they make the number of scanned documents, the count of unavailable
  -- dependencies is the number of documents with such a finding, and the count of each code is the
  -- number of its findings.
  pub audit_batch-Tallies :
      (limit : ℕ) (cursor : Option Text) (code : DocumentLifecycleFindingCode)
      (batch : DocumentLifecycleAuditBatchResult)
      → audit_batch codec env db audit limit cursor ≡ ok batch
      → Tallies code batch.documents batch.counters × (batch.scanned_count ≡ length batch.documents)
  unfolding audit_batch
  audit_batch-Tallies limit cursor code batch =
      if_holds
        (λ (r : Result BatchError DocumentLifecycleAuditBatchResult).
          r ≡ ok batch
          → Tallies code batch.documents batch.counters
            × (batch.scanned_count ≡ length batch.documents))
        (ltb limit min_batch_limit || ltb max_batch_limit limit) (err (invalid_limit limit))
        (batch_at codec env db audit limit (decode_optional codec cursor)) (λ e h. absurd (cc))
        (λ e h. at-Tallies limit code (decode_optional codec cursor) batch h)
