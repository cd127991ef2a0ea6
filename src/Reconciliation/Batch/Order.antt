-- ===== src/Reconciliation/Batch/Order.antt =====
-- The order of the documents in app/services/reconciliation/document_audit_batch_service.py.
use documents_rag.Base.{
  suc, ◌≡◌, ◌≢◌, refl, sym, ap, ◌∙◌, Bool, true, false, ltb, ◌==◌, ◌&&◌, ◌||◌, List, [], ◌∷◌, ◌++◌,
  Text, select, length, arith, All, if_holds,
}
use documents_rag.Db.Distinct.{DistinctIds, All-select}
use documents_rag.Db.Models.{Document, document_key}
use documents_rag.Db.Rows.{order_by, insert_by}
use documents_rag.Reconciliation.Batch.{older_first, text_lt}

-- `b` stands after `a` in (created_at, id).
abbrev pub later : Document → Document → Bool
later a b = ltb a.created_at b.created_at || ((a.created_at == b.created_at) && ltb a.id b.id)

-- Strictly ascending.
abbrev pub Ascending : List Document → Type 0
Ascending [] = Unit {0}
Ascending (d ∷ ds) = All (λ e. later d e ≡ true) ds × Ascending ds

pub later_trans : (a b c : Document) → later a b ≡ true → later b c ≡ true → later a c ≡ true
later_trans a b c h g = ground arith

All-insert_by :
    (P : Document → Type 0) (d : Document) (ds : List Document)
    → P d
    → All P ds
    → All P (insert_by older_first d ds)
unfolding insert_by
All-insert_by P d [] h g = (h, tt)
All-insert_by P d (e ∷ es) h g =
    if_holds (All P) (older_first d e) (d ∷ e ∷ es) (e ∷ insert_by older_first d es) (λ q. (h, g))
      (λ q. (g.0, All-insert_by P d es h g.1))

All-order_by :
    (P : Document → Type 0) (ds : List Document) → All P ds → All P (order_by older_first ds)
unfolding order_by
All-order_by P [] h = h
All-order_by P (d ∷ ds) h = All-insert_by P d (order_by older_first ds) h.0 (All-order_by P ds h.1)

All-later_trans :
    (a b : Document) (ds : List Document)
    → later a b ≡ true
    → All (λ e. later b e ≡ true) ds
    → All (λ e. later a e ≡ true) ds
All-later_trans a b [] h g = tt
All-later_trans a b (d ∷ ds) h g = (later_trans a b d h g.0, All-later_trans a b ds h g.1)

first_of_pair : (a b : Document) → a.id ≢ b.id → older_first a b ≡ true → later a b ≡ true
first_of_pair a b h g = ground arith

second_of_pair : (a b : Document) → older_first a b ≡ false → later b a ≡ true
second_of_pair a b g = ground arith

Ascending-insert_by :
    (d : Document) (ds : List Document)
    → All (λ (e : Document). d.id ≢ e.id) ds
    → Ascending ds
    → Ascending (insert_by older_first d ds)
unfolding insert_by
Ascending-insert_by d [] h g = (tt, tt)
Ascending-insert_by d (e ∷ es) h g =
    if_holds Ascending (older_first d e) (d ∷ e ∷ es) (e ∷ insert_by older_first d es)
      (λ q.
        let before = first_of_pair d e h.0 q in ((before, All-later_trans d e es before g.0), g))
      (λ q. (
        All-insert_by (λ x. later e x ≡ true) d es (second_of_pair d e q) g.0,
        Ascending-insert_by d es h.1 g.1,
      ))

pub Ascending-order_by : (ds : List Document) → DistinctIds ds → Ascending (order_by older_first ds)
unfolding order_by
Ascending-order_by [] h = tt
Ascending-order_by (d ∷ ds) h =
    Ascending-insert_by d (order_by older_first ds)
      (All-order_by (λ (e : Document). d.id ≢ e.id) ds (others ds h.0)) (Ascending-order_by ds h.1)
  where
    others :
        (es : List Document)
        → All (λ (e : Document). e.id ≢ d.id) es
        → All (λ (e : Document). d.id ≢ e.id) es
    others [] g = tt
    others (e ∷ es) g = (λ q. g.0 (sym q), others es g.1)

pub Ascending-select :
    (p : Document → Bool) (ds : List Document) → Ascending ds → Ascending (select p ds)
Ascending-select p [] h = tt
Ascending-select p (d ∷ ds) h =
    if_holds Ascending (p d) (d ∷ select p ds) (select p ds)
      (λ e. (All-select (λ x. later d x ≡ true) p ds h.0, Ascending-select p ds h.1))
      (λ e. Ascending-select p ds h.1)

select-All :
    (d : Document) (ds : List Document) → All (λ e. later d e ≡ true) ds → select (later d) ds ≡ ds
select-All d [] h = refl
select-All d (e ∷ es) h = rw (h.0, select-All d es h.1) refl

not_later_self : (d : Document) → later d d ≡ false
not_later_self d = ground arith

not_later_back : (d e : Document) → later e d ≡ true → later d e ≡ false
not_later_back d e h = ground arith

pub All-middle :
    (P : Document → Type 0) (before : List Document) (d : Document) (rest : List Document)
    → All P (before ++ d ∷ rest)
    → P d
All-middle P [] d rest h = h.0
All-middle P (e ∷ es) d rest h = All-middle P es d rest h.1

-- In an ascending list, what is later than a member is what follows it.
pub select-later :
    (before : List Document) (d : Document) (rest : List Document)
    → Ascending (before ++ d ∷ rest)
    → select (later d) (before ++ d ∷ rest) ≡ rest
select-later [] d rest h = rw (not_later_self d) (select-All d rest h.0)
select-later (e ∷ es) d rest h =
    rw (not_later_back d e (All-middle (λ x. later e x ≡ true) es d rest h.0))
      (select-later es d rest h.1)

-- A second selection by a stronger test.
pub select-select :
    (p q : Document → Bool) (ds : List Document)
    → ((d : Document) → q d ≡ true → p d ≡ true)
    → select q (select p ds) ≡ select q ds
select-select p q [] h = refl
select-select p q (d ∷ ds) h = ground (arith, select-select p q ds h, h d)

pub text_lt_trans : (a b c : Text) → text_lt a b ≡ true → text_lt b c ≡ true → text_lt a c ≡ true
unfolding text_lt
text_lt_trans [] [] c h g = absurd (cc)
text_lt_trans [] (y ∷ ys) [] h g = absurd (cc)
text_lt_trans [] (y ∷ ys) (z ∷ zs) h g = refl
text_lt_trans (x ∷ xs) [] c h g = absurd (cc)
text_lt_trans (x ∷ xs) (y ∷ ys) [] h g = absurd (cc)
text_lt_trans (x ∷ xs) (y ∷ ys) (z ∷ zs) h g = ground (arith, text_lt_trans xs ys zs)

length-insert_by :
    (d : Document) (ds : List Document) → length (insert_by older_first d ds) ≡ suc (length ds)
unfolding insert_by
length-insert_by d [] = refl
length-insert_by d (e ∷ es) = ground (arith, length-insert_by d es)

pub length-order_by : (ds : List Document) → length (order_by older_first ds) ≡ length ds
unfolding order_by
length-order_by [] = refl
length-order_by (d ∷ ds) =
    length-insert_by d (order_by older_first ds) ∙ ap suc (length-order_by ds)
