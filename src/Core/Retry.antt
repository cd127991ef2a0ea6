-- ===== src/Core/Retry.antt =====
-- app/core/retry.py: bounded retry with exponential backoff. The retried call threads a state;
-- `draw` is the random delay of an attempt below its bound; delays are whole microseconds.
pub mod Outcomes
pub mod Post
use documents_rag.Base.{
  ℕ, zero, suc, ◌+◌, ◌*◌, ◌^◌, Bool, not, leb, Option, none, some, List, [], ◌∷◌, Result, ok, err,
  if◌then◌else◌,
}

pub data RetryError {ℓ} (E : Type ℓ) : Type ℓ where
  too_few_attempts : RetryError E
  raised : E → RetryError E

-- One call of the helper: the state it leaves, what the retried calls answered and how long it
-- slept, both in order, and what it returns or raises.
pub record Run (S E A : Type 0) : Type 0 where
  pub state : S
  pub answers : List (Result E A)
  pub delays : List ℕ
  pub result : Result (RetryError E) A

abbrev pub min : ℕ → ℕ → ℕ
min a b = if leb a b then a else b

abbrev pub lifted : {E A : Type 0} → Result E A → Result (RetryError E) A
lifted (ok a) = ok a
lifted (err e) = err (raised e)

module _ {S E A : Type 0} (fn : S → S × Result E A) (is_transient : E → Bool)
    (base_delay max_delay : ℕ) (draw : ℕ → ℕ → ℕ) where
  -- `min(max_delay, base_delay * 2 ** attempt)`
  abbrev pub bound : ℕ → ℕ
  bound attempt = min max_delay (base_delay * 2 ^ attempt)

  abbrev pub stop : S → Result E A → Run S E A
  stop s answer = record { state = s; answers = answer ∷ []; delays = []; result = lifted answer }

  abbrev pub resume : Result E A → ℕ → Run S E A → Run S E A
  resume answer delay run = record {
    state = run.state;
    answers = answer ∷ run.answers;
    delays = delay ∷ run.delays;
    result = run.result;
  }

  -- `again` are the attempts after this one, if there are any
  unfoldable pub next_attempt : ℕ → Option (S → Run S E A) → S → E → Run S E A
  next_attempt attempt none s e = stop s (err e)
  next_attempt attempt (some again) s e = resume (err e) (draw attempt (bound attempt)) (again s)

  unfoldable pub after_call : ℕ → Option (S → Run S E A) → S × Result E A → Run S E A
  unfolding next_attempt
  after_call attempt again (s, ok a) = stop s (ok a)
  after_call attempt again (s, err e) =
      if not (is_transient e) then stop s (err e) else next_attempt attempt again s e

  -- `more` is the number of attempts that may follow this one
  unfoldable pub attempts_from : ℕ → ℕ → S → Run S E A
  unfolding after_call
  attempts_from attempt zero s = after_call attempt none (fn s)
  attempts_from attempt (suc more) s =
      after_call attempt (some (attempts_from (suc attempt) more)) (fn s)

  unfoldable pub retry_async : ℕ → S → Run S E A
  unfolding attempts_from
  retry_async zero s = record {
    state = s;
    answers = [];
    delays = [];
    result = err too_few_attempts;
  }
  retry_async (suc more) s = attempts_from 0 more s
