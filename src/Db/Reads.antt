-- ===== src/Db/Reads.antt =====
-- db/connection_manager.py: `_is_transient_read_error` and `_run_read_operation`.
pub mod Retry
use mcp_sql_server.Db.Pool.{Pool}
use mcp_sql_server.Db.Columns.{decimal, show}
use mcp_sql_server.Models.{SqlInstanceConfig}
use mcp_sql_server.Common.{
  Bool, Error, List, Message, Option, Outcome, Text, [], codes, contains, database_error, elem,
  http_exception, if◌then◌else◌, int, lit, lower, ltb, negsuc, none, ok, other_error,
  permission_error, pos, raise, runtime_error, some, str, strip, suc, text_of, timeout_error,
  type_error, upper, value_error, zero, ℕ, ℤ, ◌&&◌, ◌++◌, ◌-◌, ◌||◌, ◌∷◌,
}
use mcp_sql_server.Db.Pool.Sequential.{Driver, connect}

abbrev pub shown_int : ℤ → Text
shown_int (pos n) = show n
shown_int (negsuc n) = b'-' ∷ show (suc n)

unfoldable pub rendered : Message → Text
unfolding decimal
rendered [] = []
rendered (lit s ∷ m) = codes s ++ rendered m
rendered (str s ∷ m) = s ++ rendered m
rendered (int n ∷ m) = shown_int n ++ rendered m

-- `exc.args`: those of the driver's exceptions, and the message of any other.
unfoldable pub args_of : Error → List Text
unfolding rendered
args_of (permission_error m) = rendered m ∷ []
args_of (value_error m) = rendered m ∷ []
args_of (type_error m) = rendered m ∷ []
args_of (timeout_error m) = rendered m ∷ []
args_of (runtime_error m) = rendered m ∷ []
args_of (http_exception status m) = show status ∷ rendered m ∷ []
args_of (database_error args) = args
args_of (other_error name []) = []
args_of (other_error name (p ∷ m)) = rendered (p ∷ m) ∷ []

-- `" ".join(parts)`
unfoldable pub joined : List Text → Text
joined [] = []
joined (s ∷ []) = s
joined (s ∷ t ∷ rest) = s ++ 32 ∷ joined (t ∷ rest)

abbrev pub first_or_empty : List Text → Text
first_or_empty [] = []
first_or_empty (s ∷ rest) = s

abbrev pub transient_states : List Text
transient_states = codes "08S01" ∷ codes "08001" ∷ codes "HYT00" ∷ codes "HYT01" ∷ []

-- `_is_transient_read_error`
unfoldable pub is_transient_read_error : Error → Bool
unfolding args_of joined strip elem contains
is_transient_read_error e =
    let sqlstate = upper (strip (first_or_empty (args_of e))) in
    let message = lower (joined (args_of e)) in
    elem sqlstate transient_states
    || contains (codes "tcp provider") message
    || contains (codes "communication link failure") message

abbrev pub read_retry_attempts : ℕ
read_retry_attempts = 2

unfoldable pub can_retry : ℕ → Error → Bool
unfolding is_transient_read_error
can_retry attempt e = ltb attempt (read_retry_attempts - 1) && is_transient_read_error e

abbrev pub unexpected : Error
unexpected = runtime_error (text_of "Read operation failed unexpectedly")

-- What follows an attempt: its result, or the next attempt.
unfoldable pub after_attempt {ℓ} :
    {A : Type ℓ}
    → ℕ
    → (Pool → Option (Outcome A × Pool))
    → Option (Outcome A × Pool)
    → Option (Outcome A × Pool)
unfolding can_retry
after_attempt attempt again none = none
after_attempt attempt again (some (ok a, p)) = some (ok a, p)
after_attempt attempt again (some (raise e, p)) =
    if can_retry attempt e then again p else some (raise e, p)

-- The loop over the attempts that are left. The driver and the operation may answer otherwise at
-- each attempt.
unfoldable pub attempts {ℓ} :
    {A : Type ℓ}
    → ℕ
    → ℕ
    → (ℕ → Driver)
    → SqlInstanceConfig
    → Option Text
    → (ℕ → ℕ → Outcome A)
    → Pool
    → Option (Outcome A × Pool)
unfolding connect after_attempt
attempts zero attempt drivers inst database_override operation p = some (raise unexpected, p)
attempts (suc left) attempt drivers inst database_override operation p =
    after_attempt attempt
      (λ p'. attempts left (suc attempt) drivers inst database_override operation p')
      (connect (drivers attempt) inst database_override (operation attempt) p)

-- `_run_read_operation`
unfoldable pub run_read_operation {ℓ} :
    {A : Type ℓ}
    → (ℕ → Driver)
    → SqlInstanceConfig
    → Option Text
    → (ℕ → ℕ → Outcome A)
    → Pool
    → Option (Outcome A × Pool)
unfolding attempts
run_read_operation drivers inst database_override operation p =
    attempts read_retry_attempts 0 drivers inst database_override operation p
