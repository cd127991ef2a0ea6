-- ===== src/Indexing/Config/Names.antt =====
-- The parts of a collection name.
use documents_rag.Base.{
  ℕ, ◌≡◌, refl, ap, ◌∙◌, Bool, true, false, not, ◌&&◌, leb, ◌==◌, [], ◌∷◌, Text, all, arith,
  Bool-cases, inl, inr, if_holds,
}
use documents_rag.Indexing.Config.{
  is_space, drop_while, drop_end, onto_end, strip, lower, is_name_char, replace_runs, sanitize,
}

abbrev is_dash : ℕ → Bool
is_dash c = c == 45

-- `t` is empty, or its first character fails the test
abbrev Starts : (ℕ → Bool) → Text → Type 0
Starts p [] = Unit
Starts p (c ∷ cs) = p c ≡ false

module _ (p : ℕ → Bool) where
  all-drop_while : (q : ℕ → Bool) (t : Text) → all q t ≡ true → all q (drop_while p t) ≡ true
  unfolding drop_while
  all-drop_while q [] h = refl
  all-drop_while q (c ∷ cs) h = ground (arith, all-drop_while q cs)

  drop_while-Starts : (t : Text) → Starts p (drop_while p t)
  unfolding drop_while
  drop_while-Starts [] = tt
  drop_while-Starts (c ∷ cs) =
      if_holds (Starts p) (p c) (drop_while p cs) (c ∷ cs) (λ e. drop_while-Starts cs) (λ e. e)

  drop_while-kept : (t : Text) → Starts p t → drop_while p t ≡ t
  unfolding drop_while
  drop_while-kept [] h = refl
  drop_while-kept (c ∷ cs) h = rw h refl

  -- nothing is dropped from a text that has none of the characters
  drop_while-none : (t : Text) → all (λ c. not (p c)) t ≡ true → drop_while p t ≡ t
  unfolding drop_while
  drop_while-none [] h = refl
  drop_while-none (c ∷ cs) h = ground (arith, h)

  drop_end-none : (t : Text) → all (λ c. not (p c)) t ≡ true → drop_end p t ≡ t
  unfolding drop_end
  drop_end-none [] h = refl
  drop_end-none (c ∷ cs) h = ap (onto_end p c) (drop_end-none cs (ground (arith, h))) ∙ kept cs
    where
      kept : (t : Text) → onto_end p c t ≡ c ∷ t
      kept [] = ground (arith, h)
      kept (d ∷ ds) = refl

  all-onto_end :
      (q : ℕ → Bool) (c : ℕ) (t : Text)
      → q c ≡ true
      → all q t ≡ true
      → all q (onto_end p c t) ≡ true
  all-onto_end q c [] h g = ground (arith, h)
  all-onto_end q c (d ∷ ds) h g = ground (arith, h, g)

  all-drop_end : (q : ℕ → Bool) (t : Text) → all q t ≡ true → all q (drop_end p t) ≡ true
  unfolding drop_end
  all-drop_end q [] h = refl
  all-drop_end q (c ∷ cs) h =
      all-onto_end q c (drop_end p cs) (ground (arith, h)) (all-drop_end q cs (ground (arith, h)))

  drop_end-Starts : (t : Text) → Starts p t → Starts p (drop_end p t)
  unfolding drop_end
  drop_end-Starts [] h = tt
  drop_end-Starts (c ∷ cs) h = begins (drop_end p cs)
    where
      begins : (t : Text) → Starts p (onto_end p c t)
      begins [] = rw h h
      begins (d ∷ ds) = h

  drop_end_twice : (t : Text) → drop_end p (drop_end p t) ≡ drop_end p t
  unfolding drop_end
  drop_end_twice [] = refl
  drop_end_twice (c ∷ cs) = again (drop_end p cs) (drop_end_twice cs)
    where
      again : (t : Text) → drop_end p t ≡ t → drop_end p (onto_end p c t) ≡ onto_end p c t
      again [] e = elim (Bool-cases (p c)) [ inl f ↦ rw f refl | inr f ↦ rw f (rw f refl) ]
      again (d ∷ ds) e = ap (onto_end p c) e

  strip_twice : (t : Text) → strip p (strip p t) ≡ strip p t
  unfolding strip
  strip_twice t =
      ap (drop_end p) (
        drop_while-kept (drop_end p (drop_while p t))
          (drop_end-Starts (drop_while p t) (drop_while-Starts t)))
      ∙ drop_end_twice (drop_while p t)

  all-strip : (q : ℕ → Bool) (t : Text) → all q t ≡ true → all q (strip p t) ≡ true
  unfolding strip
  all-strip q t h = all-drop_end q (drop_while p t) (all-drop_while q t h)

  strip-none : (t : Text) → all (λ c. not (p c)) t ≡ true → strip p t ≡ t
  unfolding strip
  strip-none t h = ap (drop_end p) (drop_while-none t h) ∙ drop_end-none t h

all-replace_runs : (b : Bool) (t : Text) → all is_name_char (replace_runs b t) ≡ true
unfolding replace_runs
all-replace_runs b [] = refl
all-replace_runs true (c ∷ cs) = ground (arith, all-replace_runs true cs, all-replace_runs false cs)
all-replace_runs false (c ∷ cs) =
    ground (arith, all-replace_runs true cs, all-replace_runs false cs)

-- A sanitized part has only lower-case letters, digits, underscores and dashes.
pub all-sanitize : (t : Text) → all is_name_char (sanitize t) ≡ true
unfolding sanitize
all-sanitize t =
    all-strip is_dash is_name_char (replace_runs false (lower (strip is_space t)))
      (all-replace_runs false (lower (strip is_space t)))

name_char-bounds : (c : ℕ) → is_name_char c ≡ true → leb 45 c && leb c 122 ≡ true
name_char-bounds c h = ground arith

name_char-visible : (c : ℕ) → is_name_char c ≡ true → not (is_space c) ≡ true
name_char-visible c h = ground (arith, name_char-bounds c h)

lower-kept : (t : Text) → all is_name_char t ≡ true → lower t ≡ t
unfolding lower
lower-kept [] h = refl
lower-kept (c ∷ cs) h = ground (arith, lower-kept cs, h)

replace_runs-kept : (t : Text) → all is_name_char t ≡ true → replace_runs false t ≡ t
unfolding replace_runs
replace_runs-kept [] h = refl
replace_runs-kept (c ∷ cs) h = ground (arith, replace_runs-kept cs, h)

all-weaken :
    (p q : ℕ → Bool) (t : Text)
    → ((c : ℕ) → p c ≡ true → q c ≡ true)
    → all p t ≡ true
    → all q t ≡ true
all-weaken p q [] g h = refl
all-weaken p q (c ∷ cs) g h = ground (arith, g c, all-weaken p q cs g)

-- Sanitizing a part again changes nothing, and a sanitized part has only lower-case letters,
-- digits, underscores and dashes.
pub sanitize_twice :
    (t : Text) → (sanitize (sanitize t) ≡ sanitize t) × (all is_name_char (sanitize t) ≡ true)
unfolding sanitize
sanitize_twice t =
    let part = sanitize t in
    let clean : all is_name_char part ≡ true = all-sanitize t in
    (
      ap (λ x. strip is_dash (replace_runs false (lower x)))
            (strip-none is_space part
              (all-weaken is_name_char (λ c. not (is_space c)) part name_char-visible clean))
          ∙ ap (λ x. strip is_dash (replace_runs false x)) (lower-kept part clean)
          ∙ ap (strip is_dash) (replace_runs-kept part clean)
          ∙ strip_twice is_dash (replace_runs false (lower (strip is_space t))),
      clean,
    )
