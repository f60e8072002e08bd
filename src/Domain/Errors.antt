-- ===== src/Domain/Errors.antt =====
-- internal/domain/errors.go and the standard library's error chains: sentinels, wrapped errors
-- (`fmt.Errorf` with %w), `errors.Is` and `errors.As`.
use Prim.Native.String.{◌++◌}
use transfer_demo.Strconv.{format_int}
use transfer_demo.Prelude.{ℕ, ℤ, Bool, false, Option, none, some, String, ◌==◌}

-- The package-level error values that the code compares with: those of domain/errors.go, then
-- repository.ErrDuplicateIdempotencyKey and pgx.ErrNoRows.
pub data Sentinel : Type 0 where
  account_not_found account_already_exists insufficient_funds invalid_amount : Sentinel
  invalid_account_id same_account invalid_idempotency idempotency_conflict : Sentinel
  duplicate_idempotency_key no_rows : Sentinel

abbrev tag : Sentinel → ℕ
tag account_not_found = 0
tag account_already_exists = 1
tag insufficient_funds = 2
tag invalid_amount = 3
tag invalid_account_id = 4
tag same_account = 5
tag invalid_idempotency = 6
tag idempotency_conflict = 7
tag duplicate_idempotency_key = 8
tag no_rows = 9

abbrev pub same_sentinel : Sentinel → Sentinel → Bool
same_sentinel s t = tag s == tag t

-- `*pgconn.PgError`, as far as the code reads it; `message` is what its method Error returns.
pub record PgError : Type 0 where
  pub code : String
  pub constraint_name : String
  pub message : String

pub data GoError : Type 0 where
  sentinel : Sentinel → GoError
  account_not_found_error : ℤ → GoError
  pg_error : PgError → GoError
  wrap : String → GoError → GoError
  other : String → GoError

-- `errors.Is(err, target)` for a sentinel: the chain of `Unwrap`s is searched.
unfoldable pub errors_is : GoError → Sentinel → Bool
errors_is (sentinel s) t = same_sentinel s t
errors_is (account_not_found_error id) t = same_sentinel account_not_found t
errors_is (pg_error e) t = false
errors_is (wrap m e) t = errors_is e t
errors_is (other m) t = false

-- `errors.As(err, &pgErr)`.
unfoldable pub errors_as_pg_error : GoError → Option PgError
errors_as_pg_error (sentinel s) = none
errors_as_pg_error (account_not_found_error id) = none
errors_as_pg_error (pg_error e) = some e
errors_as_pg_error (wrap m e) = errors_as_pg_error e
errors_as_pg_error (other m) = none

abbrev sentinel_text : Sentinel → String
sentinel_text account_not_found = "account not found"
sentinel_text account_already_exists = "account already exists"
sentinel_text insufficient_funds = "insufficient funds"
sentinel_text invalid_amount = "invalid amount"
sentinel_text invalid_account_id = "invalid account id"
sentinel_text same_account = "source and destination must differ"
sentinel_text invalid_idempotency = "invalid idempotency key"
sentinel_text idempotency_conflict = "idempotency key conflict"
sentinel_text duplicate_idempotency_key = "duplicate idempotency key"
sentinel_text no_rows = "no rows in result set"

-- `err.Error()`.
unfoldable pub error_text : GoError → String
unfolding format_int
error_text (sentinel s) = sentinel_text s
error_text (account_not_found_error id) = "account " ++ (format_int id ++ " not found")
error_text (pg_error e) = e.message
error_text (wrap m e) = m ++ (": " ++ error_text e)
error_text (other m) = m
