-- ===== src/Ssh/Probing.antt =====
-- The probe function that NewManager of sshclient/manager.go gives to health/probe.go: a probe goes
-- through the Dial of the manager, which itself counts in the same tracker.
pub mod Laws
pub mod Loop
use ssh_worker.Prelude.{
  ℕ, zero, suc, ◌+◌, if◌then◌else◌, Bool, true, false, Option, none, some, List, [], ◌∷◌,
}
use ssh_worker.Errs.{Error}
use ssh_worker.Health.State.{Floats}
use ssh_worker.Health.Probe.{Dialled, reached, lost, once}
use ssh_worker.Ssh.Manager.{State, is_up, Manager, handle_all, Reached, dial, dial_through}

module _ (fl : Floats) where
  abbrev pub outcome : Option Error → Dialled
  outcome none = reached
  outcome (some e) = lost

  -- The part of once behind the dial, with the callbacks that it starts.
  unfoldable pub conclude : Option Error → ℕ → ℕ → Manager fl → Manager fl
  unfolding once handle_all
  conclude e rtt now m =
      let (t, es) = once fl (outcome e) rtt now now m.tracker in
      handle_all fl es (record m { tracker = t })

  -- The manager, and how many Dials of probes that were given up still wait for the SSH server.
  pub record Probes : Type 0 where
    pub manager : Manager fl
    pub pending : ℕ

  -- Whether Dial asks the SSH server: without a client that is up it returns at once.
  unfoldable pub asks : Option ℕ → State → Bool
  asks none s = false
  asks (some c) s = is_up s

  -- `timely` says that Dial answered before the timeout of the probe. If not, the probe has failed,
  -- and its goroutine still waits for Dial, which may return later or never.
  unfoldable pub probe_once : Bool → (ℕ → Reached fl) → ℕ → ℕ → ℕ → Probes → Probes
  unfolding conclude asks
  probe_once true ask rtt now later p =
      let (m, e) = dial fl ask now p.manager in record p { manager = conclude e rtt later m }
  probe_once false ask rtt now later p =
      if asks p.manager.client p.manager.state
      then record {
        manager = conclude (some Error.canceled) rtt later p.manager;
        pending = p.pending + 1;
      }
      else record p {
        manager = conclude (some Error.canceled) rtt later (dial fl ask now p.manager).0;
      }

  -- One call of once: whether Dial was timely, the client, the time that it took, and the clock.
  pub record Call : Type 0 where
    pub timely : Bool
    pub ask : ℕ → Reached fl
    pub rtt : ℕ
    pub now : ℕ
    pub later : ℕ

  abbrev pub probe : Call → Probes → Probes
  probe c p = probe_once c.timely c.ask c.rtt c.now c.later p

  -- A Dial that was waiting returns.
  unfoldable pub return_dial : ℕ → Reached fl → ℕ → Manager fl → Probes
  return_dial zero r now m = record { manager = m; pending = 0 }
  return_dial (suc n) r now m = record { manager = (dial_through fl r now m).0; pending = n }

  -- What the select of Run sees: the end of the context, or a tick of three seconds and the call
  -- behind it. A tick that comes while a call runs is seen behind it, and a second one is dropped.
  -- In between, and behind the end of Run too, waiting Dials return.
  pub data Event : Type 0 where
    done : Event
    tick : Call → Event
    returns : Reached fl → ℕ → Event

  -- The first argument says that Run has returned.
  unfoldable pub run_loop : Bool → List Event → Probes → Probes
  unfolding probe_once return_dial
  run_loop over [] p = p
  run_loop over (done ∷ es) p = run_loop true es p
  run_loop true (tick c ∷ es) p = run_loop true es p
  run_loop false (tick c ∷ es) p = run_loop false es (probe c p)
  run_loop over (returns r now ∷ es) p = run_loop over es (return_dial p.pending r now p.manager)

  -- Run: the first call is not behind a tick.
  unfoldable pub run : Call → List Event → Probes → Probes
  unfolding run_loop
  run first es p = run_loop false es (probe first p)
