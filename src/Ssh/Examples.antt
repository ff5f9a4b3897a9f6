-- ===== src/Ssh/Examples.antt =====
-- The SSH connection: an example of each law.
use ssh_worker.Prelude.{◌*◌, ◌^◌, min, true, false, none, some, [], ◌∷◌, bytes, ◌≡◌, refl, arith}
use ssh_worker.Samples.{thousandths}
use ssh_worker.Prelude.Int.{pos}
use ssh_worker.Errs.{Error}
use ssh_worker.Health.Tracker.{new, defaults}
use ssh_worker.Ssh.Manager.{State, Files, Manager, Dialling, fine, fault, opened}
use ssh_worker.Ssh.Manager.Laws.{IsValid, Operation, perform, perform-IsValid}
use ssh_worker.Ssh.Supervisor.{min_backoff, max_backoff, fresh, Turn, again, supervise}
use ssh_worker.Ssh.Supervisor.Laws.{none_left, and_then, Fails, GoesOn, supervise_fails}
use ssh_worker.Ssh.Race.{
  Shared, Step, Reach, here, next, begin, IsExclusive, Reach-IsExclusive, Reach-up_without_client,
}
use ssh_worker.Ssh.Probing.{Probes, Call, done, tick, run}
use ssh_worker.Ssh.Probing.Laws.{Balanced}
use ssh_worker.Ssh.Probing.Loop.{run-Balanced}

abbrev no_files : Files
no_files = record { key_read = none; key_parse = none; hosts = none }

abbrev waiting : Manager thousandths
waiting = record {
  cfg = record { password = bytes "secret"; private_key = []; known_hosts = [] };
  state = State.down;
  client = none;
  closed = [];
  tracker =
      new thousandths
        (record {
          degraded_rtt = pos 0;
          unhealthy_rtt = pos 0;
          degraded_err = 0;
          unhealthy_err = 0;
          window_size = pos 2;
          degraded_hold = pos 0;
          heal_hold = pos 0;
        })
        0;
}

abbrev refusing : Dialling thousandths
refusing = record { raw = fine 7; files = no_files; handshake = some (Error.other (bytes "auth")) }

perform-IsValid_example :
    IsValid thousandths (perform thousandths (Operation.connects refusing) waiting)
perform-IsValid_example = perform-IsValid thousandths (Operation.connects refusing) waiting tt

abbrev unreachable : Turn thousandths
unreachable = record {
  done = false;
  alive = λ c. none;
  slept = true;
  dialling = record { raw = fault Error.unavailable; files = no_files; handshake = none };
}

abbrev unreachable_fails : Fails thousandths unreachable
unreachable_fails = record {
  goes_on = refl;
  sleeps = refl;
  error = Error.unavailable;
  broken = refl;
}

supervise_fails_example :
    GoesOn thousandths
      (min (min_backoff * 2 ^ 2) max_backoff)
      2
      (supervise thousandths (unreachable ∷ unreachable ∷ []) (again fresh waiting))
supervise_fails_example =
    supervise_fails thousandths (unreachable ∷ unreachable ∷ []) waiting
      (and_then unreachable_fails (and_then unreachable_fails none_left)) refl

abbrev nobody : Shared
nobody = record { state = State.down; client = none; dialling = 0; installed = 0; closing = 0 }

abbrev connecting : Shared
connecting = record {
  state = State.connecting;
  client = none;
  dialling = 1;
  installed = 0;
  closing = 0;
}

Reach-IsExclusive_example : IsExclusive connecting
Reach-IsExclusive_example =
    Reach-IsExclusive {s = nobody} {t = connecting} refl (next here (begin nobody refl))

abbrev serving : Shared
serving = record { state = State.up; client = some 1; dialling = 0; installed = 0; closing = 0 }

Reach-up_without_client_example :
    (u : Shared) × Reach serving u
    × (u.state ≡ State.up)
    × (u.client ≡ some 2)
    × (t : Shared) × Step u t
    × (t.state ≡ State.up)
    × (t.client ≡ none)
Reach-up_without_client_example = Reach-up_without_client serving 2 refl

-- Two probes of a manager that is down, and a tick behind the end.
abbrev probing : Call thousandths
probing = record { timely = true; ask = λ c. opened 5; rtt = 5; now = 1; later = 2 }

abbrev late : Call thousandths
late = record probing { timely = false }

abbrev unprobed : Probes thousandths
unprobed = record { manager = waiting; pending = 0 }

run-Balanced_example :
    Balanced thousandths 2 unprobed
      (run thousandths probing (tick late ∷ done ∷ tick probing ∷ []) unprobed)
unfolding new defaults
run-Balanced_example =
    run-Balanced thousandths probing (tick late ∷ done ∷ tick probing ∷ []) unprobed (omega arith)
