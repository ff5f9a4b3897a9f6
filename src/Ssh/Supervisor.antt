-- ===== src/Ssh/Supervisor.antt =====
-- sshclient/manager.go: supervise, which keeps the connection alive and opens it again.
pub mod Laws
use ssh_worker.Prelude.{
  ℕ, zero, suc, ◌+◌, ◌*◌, ◌/◌, ◌%◌, ltb, ◌==◌, if◌then◌else◌, Bool, true, false, Option, none, some,
  List, [], ◌∷◌,
}
use ssh_worker.Errs.{Error, is_canceled}
use ssh_worker.Qload.{second}
use ssh_worker.Health.State.{Floats}
use ssh_worker.Ssh.Manager.{is_up, Manager, Dialling, mark_down, connect}

abbrev pub min_backoff : ℕ
min_backoff = 1 * second

abbrev pub max_backoff : ℕ
max_backoff = 30 * second

unfoldable pub next_backoff : ℕ → ℕ → ℕ
next_backoff cur max = let n = cur * 2 in if ltb max n then max else n

-- How long sleepJitter sleeps; `r` is the random number.
unfoldable pub sleep_jitter : ℕ → ℕ → ℕ
sleep_jitter d r = if d == 0 then 0 else d / 2 + r % (d / 2 + 1)

-- `alive` is what the request on the connection gave, or the end of its context.
unfoldable pub keepalive_once : Option ℕ → (ℕ → Option Error) → Option Error
keepalive_once none alive = some Error.not_connected
keepalive_once (some c) alive = alive c

-- The local variables of supervise.
pub record Loop : Type 0 where
  pub backoff : ℕ
  pub fails : ℕ

abbrev pub fresh : Loop
fresh = record { backoff = min_backoff; fails = 0 }

module _ (fl : Floats) where
  -- What one turn of the loop meets: whether the context is done, the request that keeps the
  -- connection alive, whether the sleep ends before the context, and what connect finds.
  pub record Turn : Type 0 where
    pub done : Bool
    pub alive : ℕ → Option Error
    pub slept : Bool
    pub dialling : Dialling fl

  pub data Next : Type 0 where
    stop : Manager fl → Next
    again : Loop → Manager fl → Next

  unfoldable pub reconnected : Manager fl × Option Error → Loop → Next
  unfolding next_backoff
  reconnected (m, none) l = again fresh m
  reconnected (m, some e) l = again (record l { backoff = next_backoff l.backoff max_backoff }) m

  -- The part of the loop behind the check of the connection.
  unfoldable pub reconnect : Turn → Loop → Manager fl → Next
  unfolding reconnected
  reconnect t l m =
      if t.slept
      then reconnected (connect fl t.dialling m) (record l { fails = l.fails + 1 })
      else stop m

  unfoldable pub checked : Option Error → Turn → Loop → Manager fl → Next
  unfolding reconnect
  checked none t l m = if t.slept then again fresh m else stop m
  checked (some e) t l m = reconnect t l (if is_canceled e then m else mark_down fl m)

  unfoldable pub turn : Turn → Loop → Manager fl → Next
  unfolding checked keepalive_once
  turn t l m =
      if t.done
      then stop m
      else if is_up m.state
      then checked (keepalive_once m.client t.alive) t l m
      else reconnect t l m

  -- The loop, for as many turns as are given.
  unfoldable pub supervise : List Turn → Next → Next
  supervise [] n = n
  supervise (t ∷ ts) (stop m) = stop m
  supervise (t ∷ ts) (again l m) = supervise ts (turn t l m)
