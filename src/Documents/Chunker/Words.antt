-- ===== src/Documents/Chunker/Words.antt =====
-- What the chunks of a text are made of.
use documents_rag.Base.{
  ℕ, ◌+◌, ◌≤◌, ◌≡◌, refl, sym, ap, ◌∙◌, ltb, List, [], ◌∷◌, ◌++◌, Text, length, length-append,
  arith, if_holds,
}
use mathlib.Core.Path.{subst}
use documents_rag.Documents.Chunker.{join_space, reversed, added_length, overlap_loop, take_overlap}

pub append_assoc : (xs ys zs : List Text) → (xs ++ ys) ++ zs ≡ xs ++ (ys ++ zs)
append_assoc [] ys zs = refl
append_assoc (x ∷ xs) ys zs = ap (λ r. x ∷ r) (append_assoc xs ys zs)

reversed-append : (xs : List Text) (w : Text) → reversed (xs ++ w ∷ []) ≡ w ∷ reversed xs
unfolding reversed
reversed-append [] w = refl
reversed-append (x ∷ xs) w = rw (reversed-append xs w) refl

pub join_space-snoc :
    (ws : List Text) (w : Text)
    → length (join_space (ws ++ w ∷ [])) ≡ length (join_space ws) + added_length w ws
unfolding join_space
join_space-snoc [] w = omega arith
join_space-snoc (x ∷ []) w = omega (arith, length-append x (32 ∷ w))
join_space-snoc (x ∷ y ∷ ys) w = omega (
  arith,
  length-append x (32 ∷ join_space ((y ∷ ys) ++ w ∷ [])),
  length-append x (32 ∷ join_space (y ∷ ys)),
  join_space-snoc (y ∷ ys) w,
)

join_space-cons :
    (w : Text) (ws : List Text)
    → length (join_space (w ∷ ws)) ≡ length (join_space ws) + added_length w ws
unfolding join_space
join_space-cons w [] = omega arith
join_space-cons w (v ∷ vs) = omega (arith, length-append w (32 ∷ join_space (v ∷ vs)))

-- The overlap is a suffix of the words, and its text is within the limit.
abbrev pub IsOverlap : ℕ → List Text → List Text → Type 0
IsOverlap limit words overlap =
    ((dropped : List Text) × (dropped ++ overlap ≡ words)) × (length (join_space overlap) ≤ limit)

overlap_loop-IsOverlap :
    (limit : ℕ) (words overlap : List Text) (total : ℕ)
    → total ≡ length (join_space overlap)
    → total ≤ limit
    → IsOverlap limit (reversed words ++ overlap) (overlap_loop limit words overlap total)
unfolding overlap_loop reversed
overlap_loop-IsOverlap limit [] overlap total e h = (([], refl), omega arith)
overlap_loop-IsOverlap limit (w ∷ ws) overlap total e h =
    if_holds (IsOverlap limit ((reversed ws ++ w ∷ []) ++ overlap))
      (ltb limit (total + added_length w overlap)) overlap
      (overlap_loop limit ws (w ∷ overlap) (total + added_length w overlap))
      (λ b. ((reversed ws ++ w ∷ [], refl), omega arith))
      (λ b.
        subst
          (λ x.
            IsOverlap limit x
              (overlap_loop limit ws (w ∷ overlap) (total + added_length w overlap)))
          (sym (append_assoc (reversed ws) (w ∷ []) overlap))
          (overlap_loop-IsOverlap limit ws (w ∷ overlap) (total + added_length w overlap)
            (omega (arith, join_space-cons w overlap)) (ground (arith, b))))

reversed-reversed : (xs : List Text) → reversed (reversed xs) ≡ xs
unfolding reversed
reversed-reversed [] = refl
reversed-reversed (x ∷ xs) =
    reversed-append (reversed xs) x ∙ ap (λ r. x ∷ r) (reversed-reversed xs)

pub append_nil : (xs : List Text) → xs ++ [] ≡ xs
append_nil [] = refl
append_nil (x ∷ xs) = ap (λ r. x ∷ r) (append_nil xs)

-- The overlap that a new chunk starts with is a suffix of the words of the chunk before, and its
-- text is no longer than the chunker's overlap.
pub take_overlap-IsOverlap :
    (limit : ℕ) (words : List Text) → IsOverlap limit words (take_overlap limit words)
unfolding take_overlap join_space
take_overlap-IsOverlap limit words =
    subst (λ x. IsOverlap limit x (take_overlap limit words))
      (append_nil (reversed (reversed words)) ∙ reversed-reversed words)
      (overlap_loop-IsOverlap limit (reversed words) [] 0 refl (omega arith))
