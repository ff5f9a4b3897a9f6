-- ===== src/Logger/Laws.antt =====
-- internal/logger/logger.go and internal/safe/safe.go: what is never kept back.
use ssh_worker.Prelude.{
  ℕ, leb, true, Option, none, some, List, Text, bytes, ◌≡◌, refl, subst, arith, if_true,
}
use ssh_worker.Errs.{Error}
use ssh_worker.Logger.{Level, rank, Logger, Entry, emit, errorf, slow, panicked, panic_recover, go}

rank-bounded : (l : Level) → leb (rank l) 3 ≡ true
rank-bounded Level.debug = ground arith
rank-bounded Level.info = ground arith
rank-bounded Level.warn = ground arith
rank-bounded Level.error = ground arith

abbrev pub IsErrorOf : Text → Option Entry → Type 0
IsErrorOf msg none = ⊥
IsErrorOf msg (some e) = (e.level ≡ Level.error) × (e.message ≡ msg)

emit-IsErrorOf :
    (msg : Text) (attrs : List (Text × Text)) (l : Logger)
    → IsErrorOf msg (emit Level.error msg attrs l)
unfolding emit
emit-IsErrorOf msg attrs l =
    subst (IsErrorOf msg) (if_true _ _ (leb (rank l.level) 3) (rank-bounded l.level)) (refl, refl)

-- Whatever the level that is configured: an error, an operation that failed and a panic of a
-- goroutine are logged.
pub record NeverSilent (l : Logger) : Type 0 where
  pub errors :
      (c msg : Text) (e : Error) (attrs : List (Text × Text))
      → IsErrorOf msg (errorf c msg e attrs l)
  pub failures :
      (text : ℕ → Text) (op : Text) (threshold dur : ℕ) (e : Error)
      → IsErrorOf (bytes "op failed") (slow text op threshold dur (some e) l)
  pub panics :
      (name value stack : Text)
      → IsErrorOf (bytes "goroutine panic") (panic_recover name (panicked value stack) l)
  pub goroutines :
      (name value stack : Text)
      → IsErrorOf (bytes "goroutine panic") (go name (panicked value stack) l)

-- Every logger, of whichever level, logs errors, operations that failed and panics.
pub logger-NeverSilent : (l : Logger) → NeverSilent l
unfolding errorf slow panic_recover go
logger-NeverSilent l = record {
  errors = λ c msg e attrs. emit-IsErrorOf msg _ l;
  failures = λ text op threshold dur e. emit-IsErrorOf (bytes "op failed") _ l;
  panics = λ name value stack. emit-IsErrorOf (bytes "goroutine panic") _ l;
  goroutines = λ name value stack. emit-IsErrorOf (bytes "goroutine panic") _ l;
}
