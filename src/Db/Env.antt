-- ===== src/Db/Env.antt =====
-- What one call of a service reads of its surroundings.
use documents_rag.Base.{ℕ, ◌*◌, Text}

pub record Env : Type 0 where
  -- `datetime.now(UTC)`, in microseconds
  pub now : ℕ
  -- the transaction's `now()`: column defaults and `onupdate`
  pub db_now : ℕ
  -- the n-th `uuid.uuid4()` of the call
  pub uuid : ℕ → ℕ
  -- the text of a UUID
  pub show_uuid : ℕ → Text

-- A duration in whole seconds.
abbrev pub seconds : ℕ → ℕ
seconds n = n * 1000000
