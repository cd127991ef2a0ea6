-- ===== src/Db/Distinct.antt =====
-- Primary keys: distinct ids of a table, and of the rows that a query selects.
use documents_rag.Base.{
  ℕ, ◌≡◌, refl, sym, ap, ◌∙◌, ◌≢◌, Bool, List, [], ◌∷◌, ◌++◌, ◌==◌, ==_iff, Memᴰ, All, select, take,
  if_holds, zero, suc,
}
use mathlib.Core.Bool.{true≢false}
use mathlib.Core.Path.{subst}
use documents_rag.Db.Rows.{Keyed, update_row}

pub All-mem {ℓ κ} : {A : Type ℓ} (P : A → Type κ) (xs : List A) (x : A) → All P xs → Memᴰ x xs → P x
All-mem P [] x h m = elim m [ ]
All-mem P (y ∷ ys) x h (Memᴰ.head e) = subst P (sym e) h.0
All-mem P (y ∷ ys) x h (Memᴰ.tail m) = All-mem P ys x h.1 m

pub All-select {ℓ κ} :
    {A : Type ℓ} (P : A → Type κ) (p : A → Bool) (xs : List A) → All P xs → All P (select p xs)
All-select P p [] h = h
All-select P p (x ∷ xs) h =
    if_holds (All P) (p x) (x ∷ select p xs) (select p xs) (λ e. (h.0, All-select P p xs h.1))
      (λ e. All-select P p xs h.1)

pub All-take {ℓ κ} :
    {A : Type ℓ} (P : A → Type κ) (n : ℕ) (xs : List A) → All P xs → All P (take n xs)
All-take P zero xs h = tt
All-take P (suc n) [] h = tt
All-take P (suc n) (x ∷ xs) h = (h.0, All-take P n xs h.1)

pub All-map {ℓ κ μ} :
    {A : Type ℓ} (P : A → Type κ) (Q : A → Type μ) (xs : List A)
    → ((x : A) → P x → Q x)
    → All P xs
    → All Q xs
All-map P Q [] f h = tt
All-map P Q (x ∷ xs) f h = (f x h.0, All-map P Q xs f h.1)

pub All-of_mem {ℓ κ} :
    {A : Type ℓ} (P : A → Type κ) (xs : List A) → ((x : A) → Memᴰ x xs → P x) → All P xs
All-of_mem P [] h = tt
All-of_mem P (x ∷ xs) h = (h x (Memᴰ.head refl), All-of_mem P xs (λ y m. h y (Memᴰ.tail m)))

pub All-append {ℓ κ} :
    {A : Type ℓ} (P : A → Type κ) (xs ys : List A) → All P xs → All P ys → All P (xs ++ ys)
All-append P [] ys h g = g
All-append P (x ∷ xs) ys h g = (h.0, All-append P xs ys h.1 g)

module _ {ℓ} {J : Type ℓ} ⦃k : Keyed J⦄ where
  abbrev pub DistinctIds : List J → Type 0
  DistinctIds [] = Unit
  DistinctIds (x ∷ xs) = All (λ y. k.id y ≢ k.id x) xs × DistinctIds xs

  pub DistinctIds-select : (p : J → Bool) (xs : List J) → DistinctIds xs → DistinctIds (select p xs)
  DistinctIds-select p [] h = h
  DistinctIds-select p (x ∷ xs) h =
      if_holds DistinctIds (p x) (x ∷ select p xs) (select p xs)
        (λ e. (All-select (λ y. k.id y ≢ k.id x) p xs h.0, DistinctIds-select p xs h.1))
        (λ e. DistinctIds-select p xs h.1)

  pub DistinctIds-take : (n : ℕ) (xs : List J) → DistinctIds xs → DistinctIds (take n xs)
  DistinctIds-take zero xs h = tt
  DistinctIds-take (suc n) [] h = tt
  DistinctIds-take (suc n) (x ∷ xs) h =
      (All-take (λ y. k.id y ≢ k.id x) n xs h.0, DistinctIds-take n xs h.1)

  -- Rows with another key are as they were.
  pub mem-update_ne :
      (i : ℕ) (f : J → J) (xs : List J) (x : J)
      → k.id x ≢ i
      → Memᴰ x xs
      → Memᴰ x (update_row i f xs)
  unfolding update_row
  mem-update_ne i f [] x ne m = elim m [ ]
  mem-update_ne i f (y ∷ ys) x ne (Memᴰ.head e) =
      if_holds (Memᴰ x) (k.id y == i) (f y ∷ update_row i f ys) (y ∷ update_row i f ys)
        (λ q. absurd (ne (ap k.id e ∙ (==_iff (k.id y) i).0 q))) (λ q. Memᴰ.head e)
  mem-update_ne i f (y ∷ ys) x ne (Memᴰ.tail m) =
      if_holds (Memᴰ x) (k.id y == i) (f y ∷ update_row i f ys) (y ∷ update_row i f ys)
        (λ q. Memᴰ.tail (mem-update_ne i f ys x ne m))
        (λ q. Memᴰ.tail (mem-update_ne i f ys x ne m))

  -- Two rows with one key are one row.
  pub DistinctIds-eq :
      (xs : List J) (x y : J) → DistinctIds xs → Memᴰ x xs → Memᴰ y xs → k.id x ≡ k.id y → x ≡ y
  DistinctIds-eq [] x y h m n e = elim m [ ]
  DistinctIds-eq (z ∷ zs) x y h (Memᴰ.head p) (Memᴰ.head q) e = p ∙ sym q
  DistinctIds-eq (z ∷ zs) x y h (Memᴰ.head p) (Memᴰ.tail n) e =
      absurd (All-mem (λ w. k.id w ≢ k.id z) zs y h.0 n (sym e ∙ ap k.id p))
  DistinctIds-eq (z ∷ zs) x y h (Memᴰ.tail m) (Memᴰ.head q) e =
      absurd (All-mem (λ w. k.id w ≢ k.id z) zs x h.0 m (e ∙ ap k.id q))
  DistinctIds-eq (z ∷ zs) x y h (Memᴰ.tail m) (Memᴰ.tail n) e = DistinctIds-eq zs x y h.1 m n e

  -- The row with the key has the change.
  pub mem-update_self :
      (f : J → J) (xs : List J) (x : J) → Memᴰ x xs → Memᴰ (f x) (update_row (k.id x) f xs)
  unfolding update_row
  mem-update_self f [] x m = elim m [ ]
  mem-update_self f (y ∷ ys) x (Memᴰ.head e) =
      if_holds (Memᴰ (f x)) (k.id y == k.id x) (f y ∷ update_row (k.id x) f ys)
        (y ∷ update_row (k.id x) f ys) (λ q. Memᴰ.head (ap f e))
        (λ q. absurd (true≢false (sym ((==_iff (k.id y) (k.id x)).1 (sym (ap k.id e))) ∙ q)))
  mem-update_self f (y ∷ ys) x (Memᴰ.tail m) =
      if_holds (Memᴰ (f x)) (k.id y == k.id x) (f y ∷ update_row (k.id x) f ys)
        (y ∷ update_row (k.id x) f ys) (λ q. Memᴰ.tail (mem-update_self f ys x m))
        (λ q. Memᴰ.tail (mem-update_self f ys x m))
