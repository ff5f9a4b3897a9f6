-- ===== src/Logger.antt =====
-- internal/logger/logger.go and internal/safe/safe.go: the records that are logged, with package slog
-- as their level, their message and their attributes.
pub mod Laws
use ssh_worker.Prelude.{
  ℕ, leb, if◌then◌else◌, Bool, true, false, Option, none, some, List, [], ◌∷◌, ◌++◌, Text, bytes,
  text_eq,
}
use ssh_worker.Errs.{Error, error_text}

pub data Level : Type 0 where
  debug info warn error : Level

-- The order of slog.
abbrev pub rank : Level → ℕ
rank Level.debug = 0
rank Level.info = 1
rank Level.warn = 2
rank Level.error = 3

pub record Logger : Type 0 where
  pub level : Level
  pub attrs : List (Text × Text)
  pub component : Text

pub record Entry : Type 0 where
  pub level : Level
  pub message : Text
  pub attrs : List (Text × Text)

abbrev pub comp_app : Text
comp_app = bytes "app"

unfoldable pub level_of : Text → Level
level_of level =
    if text_eq level (bytes "debug")
    then Level.debug
    else if text_eq level (bytes "warn")
    then Level.warn
    else if text_eq level (bytes "error")
    then Level.error
    else Level.info

unfoldable pub new : Text → Logger
unfolding level_of
new level = record {
  level = level_of level;
  attrs = (bytes "component", comp_app) ∷ [];
  component = comp_app;
}

-- With, and the methods that are made of it: Event, Code and Worker.
unfoldable pub add : List (Text × Text) → Logger → Logger
add attrs l = record l { attrs = l.attrs ++ attrs }

unfoldable pub for_component : Text → Logger → Logger
unfolding add
for_component c l = record (add ((bytes "component", c) ∷ []) l) { component = c }

unfoldable pub event : Text → Logger → Logger
unfolding add
event name l = add ((bytes "event", name) ∷ []) l

unfoldable pub code : Text → Logger → Logger
unfolding add
code c l = add ((bytes "code", c) ∷ []) l

unfoldable pub worker : Text → Text → Logger → Logger
unfolding add
worker idx listen l = add ((bytes "worker", idx) ∷ (bytes "listen", listen) ∷ []) l

unfoldable pub with_context : Option Text → Logger → Logger
unfolding add
with_context none l = l
with_context (some trace) l = add ((bytes "trace_id", trace) ∷ []) l

-- The handler passes on what is not below its level.
unfoldable pub emit : Level → Text → List (Text × Text) → Logger → Option Entry
emit level msg attrs l =
    if leb (rank l.level) (rank level)
    then some (record { level = level; message = msg; attrs = l.attrs ++ attrs })
    else none

unfoldable pub errorf : Text → Text → Error → List (Text × Text) → Logger → Option Entry
unfolding emit
errorf c msg e attrs l =
    emit Level.error msg ((bytes "code", c) ∷ (bytes "err", error_text e) ∷ attrs) l

-- The function that Slow returns, for an operation that took `dur`; `text` writes a duration.
unfoldable pub slow : (ℕ → Text) → Text → ℕ → ℕ → Option Error → Logger → Option Entry
unfolding emit
slow text op threshold dur (some e) l =
    emit Level.error (bytes "op failed")
      ((bytes "op", op) ∷ (bytes "dur", text dur) ∷ (bytes "err", error_text e) ∷ []) l
slow text op threshold dur none l =
    if leb threshold dur
    then emit Level.warn (bytes "op slow")
        ((bytes "op", op) ∷ (bytes "dur", text dur) ∷ (bytes "threshold", text threshold) ∷ []) l
    else emit Level.debug (bytes "op ok") ((bytes "op", op) ∷ (bytes "dur", text dur) ∷ []) l

-- How a goroutine ends: it returns, or panics with a value, on a stack.
pub data Outcome : Type 0 where
  returned : Outcome
  panicked : Text → Text → Outcome

-- PanicRecover in a goroutine of that name.
unfoldable pub panic_recover : Text → Outcome → Logger → Option Entry
unfolding emit
panic_recover name returned l = none
panic_recover name (panicked value stack) l =
    emit Level.error (bytes "goroutine panic")
      ((bytes "code", bytes "WRK_003")
        ∷ (bytes "goroutine", name)
        ∷ (bytes "panic", value)
        ∷ (bytes "stack", stack)
        ∷ [])
      l

-- safe.Go: the goroutine and the recover around it.
unfoldable pub go : Text → Outcome → Logger → Option Entry
unfolding emit
go name returned l = none
go name (panicked value stack) l =
    emit Level.error (bytes "goroutine panic")
      ((bytes "goroutine", name) ∷ (bytes "panic", value) ∷ (bytes "stack", stack) ∷ []) l
