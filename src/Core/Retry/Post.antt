-- ===== src/Core/Retry/Post.antt =====
-- app/core/retry.py keeps what each call keeps: the rule for a retried call.
use documents_rag.Base.{
  ℕ, zero, suc, ◌≡◌, refl, Bool, not, Option, none, some, Result, ok, err, if_holds,
}
use documents_rag.Core.Retry.{
  Run, lifted, stop, next_attempt, after_call, attempts_from, retry_async,
}

module _ {S E A : Type 0} (fn : S → S × Result E A) (is_transient : E → Bool)
    (base_delay max_delay : ℕ) (draw : ℕ → ℕ → ℕ) (Kept : S → Type 0)
    (Post : S → Result E A → Type 0) where
  -- the run returns what a call answered, in the state that the call left
  abbrev pub Returned : Run S E A → Type 0
  Returned run = (answer : Result E A) × (run.result ≡ lifted answer) × Post run.state answer

  abbrev Resumes : Option (S → Run S E A) → Type 0
  Resumes none = Unit {0}
  Resumes (some again) = (s : S) → Kept s → Returned (again s)

  next-Returned :
      (attempt : ℕ) (again : Option (S → Run S E A)) (s : S) (e : E)
      → Resumes again
      → Kept s
      → Post s (err e)
      → Returned (next_attempt fn is_transient base_delay max_delay draw attempt again s e)
  unfolding next_attempt
  next-Returned attempt none s e c k p = (err e, refl, p)
  next-Returned attempt (some again) s e c k p = c s k

  call-Returned :
      (attempt : ℕ) (again : Option (S → Run S E A)) (answered : S × Result E A)
      → Resumes again
      → Kept answered.0
      → Post answered.0 answered.1
      → Returned (after_call fn is_transient base_delay max_delay draw attempt again answered)
  unfolding after_call
  call-Returned attempt again (s, ok a) c k p = (ok a, refl, p)
  call-Returned attempt again (s, err e) c k p =
      if_holds Returned (not (is_transient e))
        (stop fn is_transient base_delay max_delay draw s (err e))
        (next_attempt fn is_transient base_delay max_delay draw attempt again s e)
        (λ q. (err e, refl, p)) (λ q. next-Returned attempt again s e c k p)

  attempts-Returned :
      (attempt more : ℕ) (s : S)
      → ((t : S) → Kept t → Kept (fn t).0 × Post (fn t).0 (fn t).1)
      → Kept s
      → Returned (attempts_from fn is_transient base_delay max_delay draw attempt more s)
  unfolding attempts_from
  attempts-Returned attempt zero s step k =
      call-Returned attempt none (fn s) tt (step s k).0 (step s k).1
  attempts-Returned attempt (suc more) s step k =
      call-Returned attempt
        (some (attempts_from fn is_transient base_delay max_delay draw (suc attempt) more)) (fn s)
        (λ t kept. attempts-Returned (suc attempt) more t step kept) (step s k).0 (step s k).1

  pub retry_async-Returned :
      (more : ℕ) (s : S)
      → ((t : S) → Kept t → Kept (fn t).0 × Post (fn t).0 (fn t).1)
      → Kept s
      → Returned (retry_async fn is_transient base_delay max_delay draw (suc more) s)
  unfolding retry_async
  retry_async-Returned more s step k = attempts-Returned 0 more s step k
