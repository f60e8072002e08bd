-- ===== src/Result.antt =====
-- The result of a Go function whose last value is an `error`.
use transfer_demo.Domain.{GoError}

pub data Result {ℓ} (A : Type ℓ) : Type ℓ where
  ok : A → Result A
  err : GoError → Result A

-- The result of a function that returns an `error` alone.
abbrev pub Done : Type 0
Done = Result (Unit {0})

abbrev pub done : Done
done = ok tt
