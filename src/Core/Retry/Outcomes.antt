-- ===== src/Core/Retry/Outcomes.antt =====
-- What app/core/retry.py does with its attempts.
use documents_rag.Base.{
  ℕ, zero, suc, ◌*◌, ◌^◌, sym, ◌≤◌, ◌≡◌, refl, ap, Bool, true, false, not, leb, ◌==◌, ◌&&◌, ◌||◌,
  List, [], ◌∷◌, Option, none, some, Result, ok, err, length, all, arith, if_holds,
}
use mathlib.Core.Path.{subst}
use documents_rag.Core.Retry.{
  RetryError, Run, min, lifted, bound, stop, resume, next_attempt, after_call, attempts_from,
  retry_async,
}

abbrev pub front {ℓ} : {A : Type ℓ} → List A → List A
front [] = []
front (x ∷ []) = []
front (x ∷ y ∷ ys) = x ∷ front (y ∷ ys)

abbrev pub final {ℓ} : {A : Type ℓ} → List A → Option A
final [] = none
final (x ∷ []) = some x
final (x ∷ y ∷ ys) = final (y ∷ ys)

module _ {E A : Type 0} (is_transient : E → Bool) where
  abbrev pub retryable : Result E A → Bool
  retryable (ok a) = false
  retryable (err e) = is_transient e

  abbrev pub retryable_end : Option (Result E A) → Bool
  retryable_end none = false
  retryable_end (some answer) = retryable answer

  abbrev pub Ends : Option (Result E A) → Result (RetryError E) A → Type 0
  Ends none result = ⊥
  Ends (some answer) result = result ≡ lifted answer

-- each delay is at most min(max_delay, base_delay * 2 ** attempt) of its attempt
abbrev pub within : ℕ → ℕ → ℕ → List ℕ → Bool
within base_delay max_delay attempt [] = true
within base_delay max_delay attempt (d ∷ ds) =
    leb d (min max_delay (base_delay * 2 ^ attempt)) && within base_delay max_delay (suc attempt) ds

-- A run whose first attempt has the number `attempt` and that may make `allowed` attempts.
pub record IsRetried (S E A : Type 0) (is_transient : E → Bool)
    (base_delay max_delay attempt allowed : ℕ) (run : Run S E A) : Type 0 where
  pub enough : 1 ≤ length run.answers
  pub bounded : length run.answers ≤ allowed
  pub one_delay_each : suc (length run.delays) ≡ length run.answers
  pub delays_bounded : within base_delay max_delay attempt run.delays ≡ true
  pub only_transient : all (retryable is_transient) (front run.answers) ≡ true
  pub last_answer : Ends is_transient (final run.answers) run.result
  pub persistent :
      not (retryable_end is_transient (final run.answers)) || (length run.answers == allowed) ≡ true

module _ {S E A : Type 0} (fn : S → S × Result E A) (is_transient : E → Bool)
    (base_delay max_delay : ℕ) (draw : ℕ → ℕ → ℕ) where
  IsRetried-stop :
      (attempt more : ℕ) (s : S) (answer : Result E A)
      → retryable is_transient answer ≡ false
      → IsRetried S E A is_transient base_delay max_delay attempt
          (suc more)
          (stop fn is_transient base_delay max_delay draw s answer)
  IsRetried-stop attempt more s answer h = record {
    enough = omega arith;
    bounded = omega arith;
    one_delay_each = refl;
    delays_bounded = refl;
    only_transient = refl;
    last_answer = refl;
    persistent = ground (arith, h);
  }

  IsRetried-exhausted :
      (attempt : ℕ) (s : S) (answer : Result E A)
      → IsRetried S E A is_transient base_delay max_delay attempt 1
          (stop fn is_transient base_delay max_delay draw s answer)
  IsRetried-exhausted attempt s answer = record {
    enough = omega arith;
    bounded = omega arith;
    one_delay_each = refl;
    delays_bounded = refl;
    only_transient = refl;
    last_answer = refl;
    persistent = ground arith;
  }

  IsRetried-resume :
      (attempt more d : ℕ) (e : E) (run : Run S E A)
      → is_transient e ≡ true
      → leb d (bound fn is_transient base_delay max_delay draw attempt) ≡ true
      → IsRetried S E A is_transient base_delay max_delay (suc attempt) (suc more) run
      → IsRetried S E A is_transient base_delay max_delay attempt
          (suc (suc more))
          (resume fn is_transient base_delay max_delay draw (err e) d run)
  IsRetried-resume attempt more d e run t fits h = resumed run.answers refl
    where
      resumed :
          (answers : List (Result E A))
          → run.answers ≡ answers
          → IsRetried S E A is_transient base_delay max_delay attempt
              (suc (suc more))
              (resume fn is_transient base_delay max_delay draw (err e) d run)
      resumed [] q = absurd (omega (arith, h.enough, ap length q))
      resumed (x ∷ xs) q = record {
        enough = omega arith;
        bounded = omega (arith, h.bounded);
        one_delay_each = ap suc h.one_delay_each;
        delays_bounded = ground (arith, h.delays_bounded);
        only_transient =
            subst (λ l. all (retryable is_transient) (front (err e ∷ l)) ≡ true) (sym q)
              (ground (
                arith,
                subst (λ l. all (retryable is_transient) (front l) ≡ true) q h.only_transient,
              ));
        last_answer =
            subst (λ l. Ends is_transient (final (err e ∷ l)) run.result) (sym q)
              (subst (λ l. Ends is_transient (final l) run.result) q h.last_answer);
        persistent =
            subst
              (λ l.
                not (retryable_end is_transient (final (err e ∷ l)))
                  || (length (err e ∷ l) == suc (suc more))
                ≡ true)
              (sym q)
              (ground (
                arith,
                subst
                    (λ l.
                      not (retryable_end is_transient (final l)) || (length l == suc more) ≡ true)
                    q h.persistent,
              ));
      }

  abbrev Continues : ℕ → ℕ → Option (S → Run S E A) → Type 0
  Continues attempt zero again = again ≡ none
  Continues attempt (suc more) none = ⊥
  Continues attempt (suc more) (some again) =
      (s : S) → IsRetried S E A is_transient base_delay max_delay (suc attempt) (suc more) (again s)

  next_attempt-IsRetried :
      (attempt more : ℕ) (again : Option (S → Run S E A)) (s : S) (e : E)
      → ((n d : ℕ) → leb (draw n d) d ≡ true)
      → Continues attempt more again
      → is_transient e ≡ true
      → IsRetried S E A is_transient base_delay max_delay attempt
          (suc more)
          (next_attempt fn is_transient base_delay max_delay draw attempt again s e)
  unfolding next_attempt
  next_attempt-IsRetried attempt zero none s e small c t = IsRetried-exhausted attempt s (err e)
  next_attempt-IsRetried attempt zero (some again) s e small c t = absurd (cc)
  next_attempt-IsRetried attempt (suc more) none s e small c t = absurd c
  next_attempt-IsRetried attempt (suc more) (some again) s e small c t =
      let limit = bound fn is_transient base_delay max_delay draw attempt in
      IsRetried-resume attempt more (draw attempt limit) e (again s) t (small attempt limit) (c s)

  after_call-IsRetried :
      (attempt more : ℕ) (again : Option (S → Run S E A)) (answered : S × Result E A)
      → ((n d : ℕ) → leb (draw n d) d ≡ true)
      → Continues attempt more again
      → IsRetried S E A is_transient base_delay max_delay attempt
          (suc more)
          (after_call fn is_transient base_delay max_delay draw attempt again answered)
  unfolding after_call
  after_call-IsRetried attempt more again (s, ok a) small c =
      IsRetried-stop attempt more s (ok a) refl
  after_call-IsRetried attempt more again (s, err e) small c =
      if_holds (IsRetried S E A is_transient base_delay max_delay attempt (suc more))
        (not (is_transient e)) (stop fn is_transient base_delay max_delay draw s (err e))
        (next_attempt fn is_transient base_delay max_delay draw attempt again s e)
        (λ q. IsRetried-stop attempt more s (err e) (ground (arith, q)))
        (λ q. next_attempt-IsRetried attempt more again s e small c (ground (arith, q)))

  attempts_from-IsRetried :
      (attempt more : ℕ) (s : S)
      → ((n d : ℕ) → leb (draw n d) d ≡ true)
      → IsRetried S E A is_transient base_delay max_delay attempt
          (suc more)
          (attempts_from fn is_transient base_delay max_delay draw attempt more s)
  unfolding attempts_from
  attempts_from-IsRetried attempt zero s small =
      after_call-IsRetried attempt zero none (fn s) small refl
  attempts_from-IsRetried attempt (suc more) s small =
      after_call-IsRetried attempt (suc more)
        (some (attempts_from fn is_transient base_delay max_delay draw (suc attempt) more)) (fn s)
        small (λ s'. attempts_from-IsRetried (suc attempt) more s' small)

  -- A retried call with at least one allowed attempt makes at least one and at most the allowed
  -- number of calls and ends with what the last one answered; every call before the last failed
  -- transiently; it gives up on a transient failure only when all attempts are used; it sleeps once
  -- between two calls, at most min(max_delay, base_delay * 2 ** attempt), if a random delay is at
  -- most its bound.
  pub retry_async-IsRetried :
      (more : ℕ) (s : S)
      → ((n d : ℕ) → leb (draw n d) d ≡ true)
      → IsRetried S E A is_transient base_delay max_delay 0
          (suc more)
          (retry_async fn is_transient base_delay max_delay draw (suc more) s)
  unfolding retry_async
  retry_async-IsRetried more s small = attempts_from-IsRetried 0 more s small
