-- ===== src/Errs.antt =====
-- internal/errs/errs.go: sentinel errors and the two wrappers, and how a chain of them is read.
pub mod Laws
use ssh_worker.Prelude.{Text, bytes, Bool, true, false, Option, none, some, ◌++◌}

-- `other` is an error made outside this program's packages, by its text; `wrap` is the error that
-- fmt.Errorf makes with "%w", by the text that stands before it. A nil error is `none`.
pub data Error : Type 0 where
  not_connected unavailable circuit_open busy shutting_down canceled : Error
  other : Text → Error
  wrap : Text → Error → Error
  retryable : Error → Error
  coded : Text → Error → Error

-- The method Error.
unfoldable pub error_text : Error → Text
error_text Error.not_connected = bytes "ssh: not connected"
error_text Error.unavailable = bytes "ssh: unavailable"
error_text Error.circuit_open = bytes "qload: circuit open"
error_text Error.busy = bytes "qload: busy"
error_text Error.shutting_down = bytes "app: shutting down"
error_text Error.canceled = bytes "context canceled"
error_text (Error.other msg) = msg
error_text (Error.wrap msg e) = msg ++ error_text e
error_text (Error.retryable e) = error_text e
error_text (Error.coded code e) = error_text e

-- `errors.As(err, &r)` for a `*Retryable`: the chain of Unwrap is searched from the outside in.
unfoldable pub is_retryable : Error → Bool
is_retryable (Error.retryable e) = true
is_retryable (Error.coded code e) = is_retryable e
is_retryable (Error.wrap msg e) = is_retryable e
is_retryable _ = false

-- A nil error is not retryable: errors.As is false on nil.
unfoldable pub is_retryable? : Option Error → Bool
unfolding is_retryable
is_retryable? none = false
is_retryable? (some e) = is_retryable e

unfoldable pub retry : Option Error → Option Error
retry none = none
retry (some e) = some (Error.retryable e)

unfoldable pub with_code : Text → Option Error → Option Error
with_code code none = none
with_code code (some e) = some (Error.coded code e)

unfoldable pub code_of : Error → Text
code_of (Error.coded code e) = code
code_of (Error.retryable e) = code_of e
code_of (Error.wrap msg e) = code_of e
code_of _ = bytes ""

-- `errors.Is(err, context.Canceled)`.
unfoldable pub is_canceled : Error → Bool
is_canceled Error.canceled = true
is_canceled (Error.retryable e) = is_canceled e
is_canceled (Error.coded code e) = is_canceled e
is_canceled (Error.wrap msg e) = is_canceled e
is_canceled _ = false
