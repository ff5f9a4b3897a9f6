-- ===== src/Worker/Startup.antt =====
-- main.go, runWorker, and Start of sshclient/manager.go: a worker from its first connection to its
-- end.
pub mod Laws
pub mod Limiter
pub mod Liveness
use ssh_worker.Prelude.{
  ℕ, zero, suc, ◌+◌, ◌*◌, ◌==◌, ◌++◌, Bool, true, false, if◌then◌else◌, Option, none, some, List,
  [], ◌∷◌, Text, bytes,
}
use ssh_worker.Errs.{Error}
use ssh_worker.Health.State.{Floats}
use ssh_worker.Health.Tracker.{Config as HealthConfig}
use ssh_worker.Config.{Config}
use ssh_worker.Network.{Dialer, tcp, ws, unsupported, new_dialer}
use ssh_worker.Qload.{QLoad, Result, ok, err, new, second, Config as LimiterConfig}
use ssh_worker.Prelude.Int.{ℤ, pos}
use ssh_worker.Transport.{Dialled}
use ssh_worker.Ssh.Manager.{
  is_down, is_up, Outcome, fine, fault, Files, SshConfig, Manager, new_manager, Dialling, connect,
  close,
}
use ssh_worker.Ssh.Manager.Laws.{Operation, perform}
use ssh_worker.Worker.Pipeline.{Around, dial_fn}

-- The configuration that runWorker gives qload: the fields that it leaves out are 0.
abbrev pub limits : LimiterConfig
limits = record {
  max_retries = pos 3;
  concurrency = pos 10;
  timeout = pos (15 * second);
  sem_timeout = pos 0;
  min_backoff = pos 0;
  max_backoff = pos 0;
  failure_threshold = pos 5;
  cooldown = pos (15 * second);
  adaptive_timeout = true;
}

module _ (fl : Floats) where
  -- The section health of the configuration.
  pub record HealthSection : Type 0 where
    pub degraded_rtt : ℤ
    pub unhealthy_rtt : ℤ
    pub degraded_err : fl.F
    pub unhealthy_err : fl.F
    pub degraded_hold : ℤ
    pub heal_hold : ℤ

  -- What main gives the tracker of it: the size of the window is left out.
  abbrev pub health_config : HealthSection → HealthConfig fl
  health_config h = record {
    degraded_rtt = h.degraded_rtt;
    unhealthy_rtt = h.unhealthy_rtt;
    degraded_err = h.degraded_err;
    unhealthy_err = h.unhealthy_err;
    window_size = pos 0;
    degraded_hold = h.degraded_hold;
    heal_hold = h.heal_hold;
  }

  -- The limiter and the manager of a worker; `supervised` counts the goroutines of the manager.
  pub record Worker : Type 0 where
    pub limiter : QLoad
    pub manager : Manager fl
    pub supervised : ℕ

  -- What a turn of the loop around Start meets: what is outside the dial function, the number of a
  -- connection that it gives, the files and the handshake, and whether the wait behind a failure
  -- ended before the context.
  pub record Boot : Type 0 where
    pub around : Around
    pub id : ℕ
    pub files : Files
    pub handshake : Option Error
    pub waited : Bool

  abbrev pub raw_of : ℕ → Result Dialled → Outcome ℕ
  raw_of id (ok d) = fine id
  raw_of id (err e) = fault e

  -- Start behind connect: without an error, supervise and the probe are started.
  unfoldable pub launch : QLoad → Manager fl × Option Error → ℕ → Worker × Option Error
  launch q (m, none) n = (record { limiter = q; manager = m; supervised = n + 2 }, none)
  launch q (m, some e) n = (record { limiter = q; manager = m; supervised = n }, some e)

  -- connect calls the dial function only where the state is down.
  unfoldable pub start : Config → Boot → Worker → Worker × Option Error
  unfolding dial_fn launch
  start c b w =
      let run = dial_fn c b.around w.limiter in
      let d : Dialling fl = record {
        raw = raw_of b.id run.result;
        files = b.files;
        handshake = b.handshake;
      } in
      launch (if is_down w.manager.state then run.state else w.limiter) (connect fl d w.manager)
        w.supervised

  -- How the loop around Start is left: by the end of the context, or with the worker as it is.
  pub data Started : Type 0 where
    cancelled : Worker → Started
    tried : Worker → Started

  unfoldable pub after_start : Bool → Worker × Option Error → (Worker → Started) → Started
  after_start waited (w, none) again = tried w
  after_start true (w, some e) again = again w
  after_start false (w, some e) again = cancelled w

  unfoldable pub start_loop : Config → (ℕ → Boot) → ℕ → ℕ → Worker → Started
  unfolding start after_start
  start_loop c boots attempt zero w = tried w
  start_loop c boots attempt (suc left) w =
      after_start (boots attempt).waited (start c (boots attempt) w)
        (start_loop c boots (suc attempt) left)

  -- What the goroutines of the manager and the clients of the server do to it.
  unfoldable pub perform_all : List (Operation fl) → Manager fl → Manager fl
  perform_all [] m = m
  perform_all (o ∷ os) m = perform_all os (perform fl o m)

  abbrev pub on_manager : (Manager fl → Manager fl) → Worker → Worker
  on_manager f w = record w { manager = f w.manager }

  -- What a worker meets: the known_hosts file and the section health of the configuration, the time
  -- at which it is made, its starts, what is done to the manager before its state is read and while
  -- the server runs, the error of socks5.New, and that of Serve, which is that of net.Listen.
  pub record Life : Type 0 where
    pub known_hosts : Text
    pub health : HealthSection
    pub now : ℕ
    pub boots : ℕ → Boot
    pub before : List (Operation fl)
    pub server : Option Error
    pub listen : Option Error
    pub during : List (Operation fl)

  -- A call of Serve: the manager that its server dialled through at first, and what it returned.
  pub record Service : Type 0 where
    pub through : Manager fl
    pub returned : Option Error

  -- How runWorker ends: the worker if it was made, the call of Serve if there was one, the name that
  -- activeWorker holds, and the error.
  pub record Ended : Type 0 where
    pub worker : Option Worker
    pub service : Option Service
    pub active : Option ℕ
    pub error : Option Error

  abbrev pub gave_up : Worker → Option ℕ → Error → Ended
  gave_up w active e = record { worker = some w; service = none; active = active; error = some e }

  -- CompareAndSwap with nil.
  abbrev pub set_first : ℕ → Option ℕ → Option ℕ
  set_first idx none = some idx
  set_first idx (some i) = some i

  -- The error of Serve is logged only. Close of the manager waits for its goroutines.
  unfoldable pub serve : Option Error → Life → Option ℕ → Worker → Ended
  unfolding perform_all
  serve (some e) l active w = gave_up w active e
  serve none l active w = record {
    worker =
        some (record w { manager = close fl (perform_all l.during w.manager); supervised = 0 });
    service = some (record { through = w.manager; returned = l.listen });
    active = active;
    error = none;
  }

  abbrev pub never_up : Error
  never_up = Error.other (bytes "gagal membangun SSH setelah beberapa percobaan")

  unfoldable pub settle : Life → ℕ → Option ℕ → Worker → Ended
  unfolding serve
  settle l idx active w =
      if is_up w.manager.state
      then serve l.server l (set_first idx active) w
      else gave_up w active never_up

  unfoldable pub after_loop : Started → Life → ℕ → Option ℕ → Ended
  unfolding settle perform_all
  after_loop (cancelled w) l idx active = gave_up w active Error.canceled
  after_loop (tried w) l idx active =
      settle l idx active (if w.supervised == 0 then w else on_manager (perform_all l.before) w)

  abbrev pub ssh_config : Config → Text → SshConfig
  ssh_config c known_hosts = record {
    password = c.ssh.password;
    private_key = c.ssh.private_key;
    known_hosts = known_hosts;
  }

  -- The limiter of qload.New and the manager of NewManager.
  unfoldable pub new_worker : Config → Life → Worker
  unfolding new_manager
  new_worker c l = record {
    limiter = new limits;
    manager = new_manager fl (ssh_config c l.known_hosts) (health_config l.health) l.now;
    supervised = 0;
  }

  unfoldable pub with_dialer : Dialer → Config → Life → ℕ → Option ℕ → Ended
  unfolding after_loop start_loop new_worker
  with_dialer (unsupported t) c l idx active = record {
    worker = none;
    service = none;
    active = active;
    error = some (Error.other (bytes "network.type tidak didukung: " ++ t));
  }
  with_dialer dialer c l idx active =
      after_loop (start_loop c l.boots 0 5 (new_worker c l)) l idx active

  unfoldable pub run_worker : Config → Life → ℕ → Option ℕ → Ended
  unfolding with_dialer
  run_worker c l idx active = with_dialer (new_dialer c) c l idx active
