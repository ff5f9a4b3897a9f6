-- ===== src/Health/Tracker.antt =====
-- health/tracker.go: samples in a ring, two moving averages, and the state that they give.
pub mod Window
pub mod Ring
pub mod Machine
use ssh_worker.Prelude.{
  ℕ, zero, suc, ◌+◌, ◌-◌, ◌*◌, ◌/◌, ◌%◌, ltb, leb, ◌==◌, if◌then◌else◌, Bool, true, false, not,
  ◌&&◌, ◌||◌, Option, none, some, List, [], ◌∷◌, set, replicate,
}
use ssh_worker.Prelude.Int.{ℤ, positive_or}
use ssh_worker.Health.State.{State, Floats, is_healthy}
use ssh_worker.Health.Percentile.{percentile}

abbrev pub millisecond : ℕ
millisecond = 1_000_000

abbrev pub second : ℕ
second = 1_000_000_000

-- The callbacks that are started in goroutines of their own.
pub data Effect : Type 0 where
  on_degrade on_unhealthy on_recover : Effect

-- Which callbacks are set.
pub record Hooks : Type 0 where
  pub degrade : Bool
  pub unhealthy : Bool
  pub recover : Bool

unfoldable pub call : Bool → Effect → List Effect
call true e = e ∷ []
call false e = []

abbrev pub same_state : State → State → Bool
same_state State.healthy State.healthy = true
same_state State.degraded State.degraded = true
same_state State.unhealthy State.unhealthy = true
same_state State.recovering State.recovering = true
same_state _ _ = false

-- `!since.IsZero() && now.Sub(since) >= hold`.
unfoldable pub held : Option ℕ → ℕ → ℕ → Bool
held none hold now = false
held (some since) hold now = leb (since + hold) now

abbrev pub is_unset : Option ℕ → Bool
is_unset none = true
is_unset (some since) = false

module _ (fl : Floats) where
  open fl use {F}

  pub record Config : Type 0 where
    pub degraded_rtt : ℤ
    pub unhealthy_rtt : ℤ
    pub degraded_err : F
    pub unhealthy_err : F
    pub window_size : ℤ
    pub degraded_hold : ℤ
    pub heal_hold : ℤ

  -- The configuration as New leaves it.
  pub record Limits : Type 0 where
    pub degraded_rtt : ℕ
    pub unhealthy_rtt : ℕ
    pub degraded_err : F
    pub unhealthy_err : F
    pub window_size : ℕ
    pub degraded_hold : ℕ
    pub heal_hold : ℕ

  -- A time is `none` while it is the zero time.
  pub record Tracker : Type 0 where
    pub cfg : Limits
    pub window : List F
    pub idx : ℕ
    pub count : ℕ
    pub ewma_rtt : F
    pub ewma_err : F
    pub state : State
    pub degraded_since : Option ℕ
    pub healthy_since : Option ℕ
    pub last_probe : Option ℕ
    pub probe_ok : ℕ
    pub probe_fail : ℕ
    pub reconnects : ℕ
    pub hooks : Hooks

  unfoldable pub defaults : Config → Limits
  defaults c = record {
    degraded_rtt = positive_or c.degraded_rtt (800 * millisecond);
    unhealthy_rtt = positive_or c.unhealthy_rtt (2000 * millisecond);
    degraded_err = if fl.is_nonpos c.degraded_err then fl.degraded_err else c.degraded_err;
    unhealthy_err = if fl.is_nonpos c.unhealthy_err then fl.unhealthy_err else c.unhealthy_err;
    window_size = positive_or c.window_size 50;
    degraded_hold = positive_or c.degraded_hold (5 * second);
    heal_hold = positive_or c.heal_hold (10 * second);
  }

  unfoldable pub new : Config → ℕ → Tracker
  unfolding defaults
  new c now = record {
    cfg = defaults c;
    window = replicate (defaults c).window_size fl.zero;
    idx = 0;
    count = 0;
    ewma_rtt = fl.zero;
    ewma_err = fl.zero;
    state = State.healthy;
    degraded_since = none;
    healthy_since = some now;
    last_probe = none;
    probe_ok = 0;
    probe_fail = 0;
    reconnects = 0;
    hooks = record { degrade = false; unhealthy = false; recover = false };
  }

  -- OnDegrade, OnUnhealthy and OnRecover, each with a function that is not nil.
  unfoldable pub set_hooks : Tracker → Tracker
  set_hooks t = record t { hooks = record { degrade = true; unhealthy = true; recover = true } }

  unfoldable pub ewma : F → F → F
  ewma x old = fl.add (fl.mul fl.alpha x) (fl.mul fl.beta old)

  -- The part of Observe under the lock.
  unfoldable pub record_sample : ℕ → Bool → Tracker → Tracker
  unfolding ewma
  record_sample dur failed t =
      let ms = fl.millis dur in
      record t {
        window = set t.window t.idx ms;
        idx = (t.idx + 1) % t.cfg.window_size;
        count = if ltb t.count t.cfg.window_size then t.count + 1 else t.count;
        ewma_rtt = if fl.is_zero t.ewma_rtt then ms else ewma ms t.ewma_rtt;
        ewma_err = ewma (if failed then fl.one else fl.zero) t.ewma_err;
      }

  unfoldable pub enter : State → ℕ → Tracker → Tracker × List Effect
  unfolding call
  enter State.degraded now t = (
    record t { state = State.degraded; degraded_since = some now },
    call t.hooks.degrade on_degrade,
  )
  enter State.unhealthy now t =
      (record t { state = State.unhealthy }, call t.hooks.unhealthy on_unhealthy)
  enter State.healthy now t = (
    record t { state = State.healthy; healthy_since = some now },
    call t.hooks.recover on_recover,
  )
  enter State.recovering now t = (record t { state = State.recovering }, [])

  unfoldable pub transition : State → ℕ → Tracker → Tracker × List Effect
  unfolding enter
  transition to now t = if same_state t.state to then (t, []) else enter to now t

  -- A good sample outside the healthy state: the hold begins, or ends if it has lasted.
  unfoldable pub heal : ℕ → ℕ → Tracker → Tracker × List Effect
  unfolding held transition
  heal now later t =
      if is_unset t.healthy_since
      then (record t { healthy_since = some now }, [])
      else if held t.healthy_since t.cfg.heal_hold now
      then transition State.healthy later t
      else (t, [])

  -- A bad sample in the degraded state.
  unfoldable pub stay_degraded : ℕ → Tracker → Tracker × List Effect
  unfolding held call
  stay_degraded now t =
      let t' = record t { healthy_since = none } in
      if held t.degraded_since t.cfg.degraded_hold now
      then (record t' { degraded_since = some now }, call t.hooks.degrade on_degrade)
      else (t', [])

  -- The switch of evaluate, by the state and the two comparisons.
  unfoldable pub judge : State → Bool → Bool → ℕ → ℕ → Tracker → Tracker × List Effect
  unfolding transition heal stay_degraded
  judge State.healthy degraded unhealthy now later t =
      if unhealthy
      then transition State.unhealthy later t
      else if degraded
      then transition State.degraded later t
      else (t, [])
  judge State.degraded degraded unhealthy now later t =
      if unhealthy
      then transition State.unhealthy later t
      else if not degraded
      then heal now later t
      else stay_degraded now t
  judge State.unhealthy degraded unhealthy now later t =
      if not degraded && not unhealthy
      then heal now later t
      else (record t { healthy_since = none }, [])
  judge State.recovering degraded unhealthy now later t =
      if not degraded && not unhealthy
      then transition State.healthy later t
      else if unhealthy
      then transition State.unhealthy later t
      else (t, [])

  unfoldable pub exceeds : ℕ → F → Tracker → Bool
  exceeds rtt err t =
      fl.less (fl.whole_millis rtt) (percentile fl t.window t.count) || fl.less err t.ewma_err

  unfoldable pub is_degraded : Tracker → Bool
  unfolding exceeds
  is_degraded t = exceeds t.cfg.degraded_rtt t.cfg.degraded_err t

  unfoldable pub is_unhealthy : Tracker → Bool
  unfolding exceeds
  is_unhealthy t = exceeds t.cfg.unhealthy_rtt t.cfg.unhealthy_err t

  -- `now` is the clock in evaluate, `later` the clock in transition.
  unfoldable pub evaluate : ℕ → ℕ → Tracker → Tracker × List Effect
  evaluate now later t = judge t.state (is_degraded t) (is_unhealthy t) now later t

  unfoldable pub observe : ℕ → Bool → ℕ → ℕ → Tracker → Tracker × List Effect
  observe dur failed now later t = evaluate now later (record_sample dur failed t)

  unfoldable pub probe_ok : ℕ → ℕ → ℕ → Tracker → Tracker × List Effect
  probe_ok rtt now later t =
      observe rtt false now later (record t { last_probe = some now; probe_ok = t.probe_ok + 1 })

  unfoldable pub probe_fail : ℕ → ℕ → Tracker → Tracker × List Effect
  probe_fail now later t =
      observe 0 true now later (record t { last_probe = some now; probe_fail = t.probe_fail + 1 })

  unfoldable pub inc_reconnect : Tracker → Tracker
  inc_reconnect t = record t { reconnects = t.reconnects + 1 }

  pub record Snapshot : Type 0 where
    pub state : State
    pub rtt_ewma : ℕ
    pub p95 : ℕ
    pub err_rate : F
    pub samples : ℕ
    pub last_probe : Option ℕ
    pub probe_ok : ℕ
    pub probe_fail : ℕ
    pub degraded_since : Option ℕ
    pub reconnects : ℕ

  unfoldable pub snapshot : Tracker → Snapshot
  snapshot t = record {
    state = t.state;
    rtt_ewma = fl.duration t.ewma_rtt;
    p95 = fl.duration (percentile fl t.window t.count);
    err_rate = t.ewma_err;
    samples = t.count;
    last_probe = t.last_probe;
    probe_ok = t.probe_ok;
    probe_fail = t.probe_fail;
    degraded_since = t.degraded_since;
    reconnects = t.reconnects;
  }
