-- ===== src/Reconciliation/Report/Outcomes.antt =====
-- What a report of app/services/reconciliation/collection_reconciliation_report_service.py says, and
-- which names it accepts.
use documents_rag.Base.{
  ℕ, ◌+◌, ◌≡◌, refl, pos_part, neg_part, sub_ℕ_parts, Bool, true, false, not, leb, ltb, ◌&&◌, ◌||◌,
  List, [], ◌∷◌, ◌++◌, Option, none, some, Result, ok, err, Text, codes, map, drop, length,
  length-append, all, any, arith, is_some, if_holds, decimal, ◌∙◌, text_eq, ◌==◌, if◌then◌else◌, ap,
}
use documents_rag.Db.{Db}
use documents_rag.Documents.Query.{option_map}
use documents_rag.Db.Env.{Env}
use documents_rag.Db.Models.{IndexCollection}
use documents_rag.External.{VectorStore}
use documents_rag.Indexing.Config.{
  EmbeddingIndexConfig, collection_name, is_name_char, join_parts, sanitize,
}
use documents_rag.Indexing.Config.Names.{all-sanitize}
use documents_rag.Indexing.Registry.{get_collection}
use documents_rag.Indexing.Settings.{Settings, get_active_embedding_config}
use documents_rag.Reconciliation.Findings.{FindingSeverity}
use documents_rag.Reconciliation.Report.{
  CollectionReportClassification, CollectionReportFinding, CollectionReconciliationReport,
  ReportError, Reply, validate_collection_name, document_count_for_collection, report_counted,
  report_configured, build_collection_reconciliation_report,
}

abbrev pub is_healthy : CollectionReportClassification → Bool
is_healthy CollectionReportClassification.healthy = true
is_healthy _ = false

abbrev pub is_error : CollectionReportFinding → Bool
is_error finding = elim finding.severity [ FindingSeverity.error ↦ true | _ ↦ false ]

abbrev pub is_silent : List CollectionReportFinding → Bool
is_silent [] = true
is_silent _ = false

-- the collection is there and holds at least as many vectors as documents claim it
abbrev pub is_served : CollectionReconciliationReport → Bool
is_served r = r.exists && leb r.expected_vector_count r.actual_vector_count

-- the report of a collection against its row and the documents that claim it
pub record IsReport (store : VectorStore) (settings : Settings) (db : Db) (v : store.State)
    (name : Text) (r : CollectionReconciliationReport) : Type 0 where
  pub named : r.collection_name ≡ name
  -- what the vector store counts, or that it has no such collection
  pub counted :
      store.count_collection_vectors name v
      ≡ ok (if r.exists then some r.actual_vector_count else none)
  pub none_missing : r.exists || (r.actual_vector_count == 0) ≡ true
  pub active_iff :
      option_map
        (λ (c : EmbeddingIndexConfig). text_eq name (collection_name c))
        (get_active_embedding_config settings)
      ≡ some r.is_active
  pub healthy_iff :
      is_healthy r.classification ≡ is_some (get_collection name db.collections) && is_served r
  pub silent_iff : is_silent r.findings ≡ is_healthy r.classification
  pub error_iff :
      any is_error r.findings
      ≡ not r.exists
        || (is_some (get_collection name db.collections)
            && ltb r.actual_vector_count r.expected_vector_count)
  pub claimed : r.expected_vector_count ≡ document_count_for_collection db name
  pub balance :
      pos_part r.difference + r.expected_vector_count
      ≡ r.actual_vector_count + neg_part r.difference

-- a reply is a report of this kind, or an error with its reason
abbrev pub Replies : (store : VectorStore) → Settings → Db → store.State → Text → Reply → Type 0
Replies store settings db v name (ok r) = IsReport store settings db v name r
Replies store settings db v name (err ReportError.invalid_collection_name) =
    validate_collection_name name ≡ false
Replies store settings db v name (err ReportError.invalid_embedding_config) =
    get_active_embedding_config settings ≡ none
Replies store settings db v name (err (ReportError.vector_store_failed e)) =
    store.count_collection_vectors name v ≡ err e

module _ (repr : Text → Text) (store : VectorStore) (env : Env) (settings : Settings) (db : Db)
    (v : store.State) where
  counted_report :
      (name : Text) (is_active : Bool) (row : Option IndexCollection)
      (answer : Result Text (Option ℕ))
      → get_collection name db.collections ≡ row
      → store.count_collection_vectors name v ≡ answer
      → option_map
          (λ (c : EmbeddingIndexConfig). text_eq name (collection_name c))
          (get_active_embedding_config settings)
        ≡ some is_active
      → Replies store settings db v name (
          report_counted repr store env name is_active row
            (document_count_for_collection db name)
            answer)
  unfolding report_counted
  counted_report name is_active row (err e) h q a = q
  counted_report name is_active row (ok none) h q a = record {
    named = refl;
    counted = q;
    none_missing = refl;
    active_iff = a;
    healthy_iff = ground (arith, h);
    silent_iff = refl;
    error_iff = refl;
    claimed = refl;
    balance = sub_ℕ_parts 0 (document_count_for_collection db name);
  }
  counted_report name is_active none (ok (some actual)) h q a = record {
    named = refl;
    counted = q;
    none_missing = refl;
    active_iff = a;
    healthy_iff = ground (arith, h);
    silent_iff = refl;
    error_iff = ground (arith, h);
    claimed = refl;
    balance = sub_ℕ_parts actual (document_count_for_collection db name);
  }
  counted_report name is_active (some row) (ok (some actual)) h q a = record {
    named = refl;
    counted = q;
    none_missing = refl;
    active_iff = a;
    healthy_iff = ground (arith, h);
    silent_iff = ground (arith, h);
    error_iff = ground (arith, h);
    claimed = refl;
    balance = sub_ℕ_parts actual (document_count_for_collection db name);
  }

  configured_report :
      (name : Text) (active : Option EmbeddingIndexConfig)
      → get_active_embedding_config settings ≡ active
      → Replies store settings db v name (report_configured repr store env db v name active)
  unfolding report_configured
  configured_report name none h = h
  configured_report name (some active) h =
      counted_report name (text_eq name (collection_name active))
        (get_collection name db.collections) (store.count_collection_vectors name v) refl refl
        (ap (option_map (λ (c : EmbeddingIndexConfig). text_eq name (collection_name c))) h)

  -- A report tells whether the vector store has the collection and how many vectors it counts in
  -- it, none for a missing one, and is active exactly for the active configuration's collection. It
  -- is healthy exactly if the collection has a row, exists, and holds at least as many vectors as
  -- documents claim it; then and only then it has no finding. It has an error finding exactly if the
  -- collection does not exist, or has a row and too few vectors. Its difference is the signed
  -- difference of the two counts. An error is answered for an invalid name, an invalid
  -- configuration, or what the vector store raised.
  pub build_collection_reconciliation_report-Replies :
      (name : Text)
      → Replies store settings db v name
          (build_collection_reconciliation_report repr store env settings db v name)
  unfolding build_collection_reconciliation_report
  build_collection_reconciliation_report-Replies name =
      if_holds (Replies store settings db v name) (validate_collection_name name)
        (report_configured repr store env db v name (get_active_embedding_config settings))
        (err ReportError.invalid_collection_name)
        (λ e. configured_report name (get_active_embedding_config settings) refl) (λ e. e)

all-append : (p : ℕ → Bool) (a b : Text) → all p (a ++ b) ≡ all p a && all p b
all-append p [] b = refl
all-append p (c ∷ cs) b = ground (arith, all-append p cs b)

joined :
    (t u : Text) (ts : List Text)
    → all is_name_char t ≡ true
    → all is_name_char (join_parts (u ∷ ts)) ≡ true
    → all is_name_char (join_parts (t ∷ u ∷ ts)) ≡ true
unfolding join_parts
joined t u ts h g =
    all-append is_name_char (t ++ codes "__") (join_parts (u ∷ ts))
    ∙ ground (arith, all-append is_name_char t (codes "__"))

all-join_parts : (values : List Text) → all is_name_char (join_parts (map sanitize values)) ≡ true
unfolding join_parts
all-join_parts [] = refl
all-join_parts (t ∷ ts) = joined_rest t ts (all-join_parts ts)
  where
    joined_rest :
        (t : Text) (ts : List Text)
        → all is_name_char (join_parts (map sanitize ts)) ≡ true
        → all is_name_char (join_parts (map sanitize (t ∷ ts))) ≡ true
    joined_rest t [] h = all-sanitize t
    joined_rest t (u ∷ us) h = joined (sanitize t) (sanitize u) (map sanitize us) (all-sanitize t) h

join_longer : (t u : Text) (ts : List Text) → leb 1 (length (join_parts (t ∷ u ∷ ts))) ≡ true
unfolding join_parts
join_longer t u ts =
    ground
      (arith, length-append (t ++ codes "__") (join_parts (u ∷ ts)), length-append t (codes "__"))

-- The name of every configuration passes the check of the report, unless it is longer than 255
-- characters.
pub validate_collection_name-collection_name :
    (config : EmbeddingIndexConfig)
    → validate_collection_name (collection_name config) ≡ leb (length (collection_name config)) 255
unfolding validate_collection_name collection_name
validate_collection_name-collection_name config =
    let raw =
      config.provider
      ∷ config.model
      ∷ (codes "e" ++ config.embedding_version)
      ∷ (codes "c" ++ config.chunking_version)
      ∷ (codes "d" ++ decimal config.dimension)
      ∷ [] in
    ground (
      arith,
      all-join_parts (config.collection_prefix ∷ raw),
      join_longer (sanitize config.collection_prefix) (sanitize config.provider)
          (map sanitize (drop 1 raw)),
    )
