-- ===== src/Db/Lookup.antt =====
-- Rows read by their primary key, before and after an update, and the tables that a commit leaves.
use documents_rag.Base.{
  ℕ, ◌≡◌, ◌≢◌, refl, sym, ap, ◌==◌, ==_iff, Bool, true, ◌||◌, List, [], ◌∷◌, ◌++◌, none, some,
  arith, any, all, Memᴰ, if_holds,
}
use documents_rag.Db.{Db, commit}
use documents_rag.Db.Distinct.{DistinctIds, All-mem}
use documents_rag.Db.Rows.{Keyed, get, update_row}

module _ {K : Type 0} ⦃k : Keyed K⦄ where
  pub get-id : (i : ℕ) (xs : List K) (x : K) → get i xs ≡ some x → k.id x ≡ i
  unfolding get
  get-id i [] x h = absurd (cc)
  get-id i (y ∷ ys) x h = ground (arith, get-id i ys x, (==_iff (k.id y) i).0)

  pub get-update_row :
      (i : ℕ) (f : K → K) (xs : List K) (x : K)
      → ((y : K) → k.id (f y) ≡ k.id y)
      → get i xs ≡ some x
      → get i (update_row i f xs) ≡ some (f x)
  unfolding get update_row
  get-update_row i f [] x same h = absurd (cc)
  get-update_row i f (y ∷ ys) x same h = ground (arith, get-update_row i f ys x same, same y)

  -- a test that the update does not change
  pub any-update_row :
      (i : ℕ) (f : K → K) (p : K → Bool) (xs : List K)
      → ((y : K) → p (f y) ≡ p y)
      → any p (update_row i f xs) ≡ any p xs
  unfolding update_row
  any-update_row i f p [] same = refl
  any-update_row i f p (y ∷ ys) same = ground (arith, any-update_row i f p ys same, same y)

pub any-append {ℓ} :
    {A : Type ℓ} (p : A → Bool) (xs ys : List A) → any p (xs ++ ys) ≡ any p xs || any p ys
any-append p [] ys = refl
any-append p (x ∷ xs) ys = ground (arith, any-append p xs ys)

pub commit-final :
    (before after : Db) → (commit before after).1 ≡ none → (commit before after).0 ≡ after
unfolding commit
commit-final before after h = ground arith

module _ {K : Type 0} ⦃k : Keyed K⦄ where
  -- every row passes a test after an update whose result passes it
  pub all-update_row :
      (i : ℕ) (f : K → K) (p : K → Bool) (xs : List K)
      → ((y : K) → p y ≡ true → p (f y) ≡ true)
      → all p xs ≡ true
      → all p (update_row i f xs) ≡ true
  unfolding update_row
  all-update_row i f p [] g h = refl
  all-update_row i f p (y ∷ ys) g h = ground (arith, g y, all-update_row i f p ys g)

  -- a row of a table with distinct ids is found by its id
  pub get-mem : (xs : List K) (x : K) → DistinctIds xs → Memᴰ x xs → get (k.id x) xs ≡ some x
  unfolding get
  get-mem [] x h m = elim m [ ]
  get-mem (y ∷ ys) x h (Memᴰ.head e) =
      ground (arith, (==_iff (k.id y) (k.id x)).1 (sym (ap k.id e)), e)
  get-mem (y ∷ ys) x h (Memᴰ.tail m) =
      let other : k.id x ≢ k.id y = All-mem (λ z. k.id z ≢ k.id y) ys x h.0 m in
      if_holds (λ o. o ≡ some x) (k.id y == k.id x) (some y) (get (k.id x) ys)
        (λ q. absurd (other (sym ((==_iff (k.id y) (k.id x)).0 q)))) (λ q. get-mem ys x h.1 m)
