-- ===== src/Health/Probe.antt =====
-- health/probe.go, one synthetic probe, and health/http.go, the two handlers.
use ssh_worker.Prelude.{ℕ, if◌then◌else◌, Text, bytes, ◌++◌, List}
use ssh_worker.Health.State.{Floats, is_healthy, state_text}
use ssh_worker.Health.Tracker.{Effect, Tracker, Snapshot, probe_ok, probe_fail}

-- What dialling the target gave.
pub data Dialled : Type 0 where
  reached lost : Dialled

-- An HTTP answer: its status and its text, where the handler writes one itself.
pub record Reply : Type 0 where
  pub status : ℕ
  pub body : Text

module _ (fl : Floats) where
  -- `rtt` is the time that the dial took.
  unfoldable pub once : Dialled → ℕ → ℕ → ℕ → Tracker fl → Tracker fl × List Effect
  once reached rtt now later t = probe_ok fl rtt now later t
  once lost rtt now later t = probe_fail fl now later t

  -- The snapshot is encoded as JSON behind the status.
  unfoldable pub handle_health : Snapshot fl → ℕ × Snapshot fl
  handle_health snap = (if is_healthy snap.state then 200 else 503, snap)

  unfoldable pub handle_ready : Snapshot fl → Reply
  handle_ready snap =
      if is_healthy snap.state
      then record { status = 200; body = bytes "ready" }
      else record { status = 503; body = bytes "not ready: " ++ state_text snap.state }
