-- ===== src/Uuid.antt =====
-- github.com/google/uuid and the server's type UUID, which are not in the repository: an interface.
use transfer_demo.Prelude.{ℕ, Bool, Option, String}

pub record UuidCodec : Type 0 where
  -- `uuid.Parse(s)` returns no error.
  pub parses : String → Bool
  -- `$1::uuid`, and `idempotency_key::text`.
  pub cast : String → Option ℕ
  pub text : ℕ → String
