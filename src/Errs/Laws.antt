-- ===== src/Errs/Laws.antt =====
-- internal/errs/errs.go: what wrapping keeps.
use ssh_worker.Prelude.{Text, true, some, ◌≡◌, refl}
use ssh_worker.Errs.{Error, error_text, is_retryable, retry, with_code, code_of, is_canceled}

-- For every error and code, the error that Retry makes of what WithCode makes is retryable, has
-- that code whatever codes lie below, and has the text of the error, and it is a cancellation
-- exactly when the error is one.
pub retry-with_code :
    (code : Text) (e : Error)
    → (e' : Error) × (retry (with_code code (some e)) ≡ some e')
      × (is_retryable e' ≡ true)
      × (code_of e' ≡ code)
      × (error_text e' ≡ error_text e)
      × (is_canceled e' ≡ is_canceled e)
unfolding retry with_code is_retryable code_of error_text is_canceled
retry-with_code code e = (Error.retryable (Error.coded code e), refl, refl, refl, refl, refl)
