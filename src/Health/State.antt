-- ===== src/Health/State.antt =====
-- health/state.go, and what of float64 the tracker uses.
use ssh_worker.Prelude.{ℕ, Bool, true, false, Text, bytes}

pub data State : Type 0 where
  healthy degraded unhealthy recovering : State

unfoldable pub state_text : State → Text
state_text State.healthy = bytes "healthy"
state_text State.degraded = bytes "degraded"
state_text State.unhealthy = bytes "unhealthy"
state_text State.recovering = bytes "recovering"

unfoldable pub is_healthy : State → Bool
is_healthy State.healthy = true
is_healthy _ = false

-- The numbers of type float64 and their operations: `less` is `<`, `is_zero` is `x == 0`,
-- `is_nonpos` is `x <= 0`, `millis` turns a duration into milliseconds by way of its microseconds,
-- `whole_millis` by way of its milliseconds, and `duration` takes milliseconds back to a duration.
-- `alpha` and `beta` are the constants 0.2 and 1 - 0.2.
pub record Floats : Type 1 where
  pub F : Type 0
  pub less : F → F → Bool
  pub zero : F
  pub one : F
  pub alpha : F
  pub beta : F
  pub degraded_err : F  -- 0.02
  pub unhealthy_err : F  -- 0.10
  pub add : F → F → F
  pub mul : F → F → F
  pub is_zero : F → Bool
  pub is_nonpos : F → Bool
  pub millis : ℕ → F
  pub whole_millis : ℕ → F
  pub duration : F → ℕ
