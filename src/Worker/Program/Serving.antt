-- ===== src/Worker/Program/Serving.antt =====
-- main.go: from the two configurations to a worker that serves.
use ssh_worker.Prelude.{
  ℕ, ◌<◌, ◌==◌, true, Option, none, some, [], ◌≡◌, ◌≢◌, refl, sym, ap, subst, if_case, Text,
}
use ssh_worker.Config.{Config, validate_all}
use ssh_worker.Network.{Dialer, tcp, ws, unsupported, new_dialer}
use ssh_worker.Network.Laws.{new_dialer_supported}
use ssh_worker.Rules.Matcher.{Regexp}
use ssh_worker.Rules.Types.{Networks}
use ssh_worker.Rules.Builder.{Loading}
use ssh_worker.Health.State.{Floats}
use ssh_worker.Ssh.Manager.{is_up}
use ssh_worker.Worker.Startup.{
  Service, Worker, Started, cancelled, tried, start_loop, perform_all, Life, ssh_config, new_worker,
  Ended, set_first, serve, settle, after_loop, with_dialer, run_worker,
}
use ssh_worker.Worker.Startup.Liveness.{Works, IsUp, ComesUp, start_loop-ComesUp}
use ssh_worker.Worker.Program.{YamlFile, Ready, start_up}
use ssh_worker.Worker.Program.Laws.{start_up_iff}

module _ (fl : Floats) where
  -- The end of a worker whose server has served: it was called with a manager that is up and
  -- listened, Serve and runWorker returned no error, and the first such worker is the active one.
  pub record Serves (idx : ℕ) (active : Option ℕ) (r : Ended fl) : Type 0 where
    pub service : Service fl
    pub called : r.service ≡ some service
    pub up : is_up service.through.state ≡ true
    pub served : service.returned ≡ none
    pub no_error : r.error ≡ none
    pub shown : r.active ≡ set_first fl idx active

  serve-Serves :
      (l : Life fl) (idx : ℕ) (active : Option ℕ) (w : Worker fl)
      → l.listen ≡ none
      → is_up w.manager.state ≡ true
      → Serves idx active (serve fl none l (set_first fl idx active) w)
  unfolding serve
  serve-Serves l idx active w n up = record {
    service = record { through = w.manager; returned = l.listen };
    called = refl;
    up = up;
    served = n;
    no_error = refl;
    shown = refl;
  }

  settle-Serves :
      (l : Life fl) (idx : ℕ) (active : Option ℕ) (w : Worker fl)
      → (l.server ≡ none) × (l.listen ≡ none)
      → is_up w.manager.state ≡ true
      → Serves idx active (settle fl l idx active w)
  unfolding settle
  settle-Serves l idx active w s up = rw (up, s.0) (serve-Serves l idx active w s.1 up)

  -- What is done to a manager that is up, before its state is read, leaves it up.
  abbrev pub StaysUp : Life fl → Type 0
  StaysUp l = (w : Worker fl) → IsUp fl w → is_up (perform_all fl l.before w.manager).state ≡ true

  after_loop-Serves :
      (l : Life fl) (idx : ℕ) (active : Option ℕ) (s : Started fl)
      → (l.server ≡ none) × (l.listen ≡ none)
      → StaysUp l
      → ComesUp fl s
      → Serves idx active (after_loop fl s l idx active)
  unfolding after_loop
  after_loop-Serves l idx active (cancelled w) n stays up = absurd up
  after_loop-Serves l idx active (tried w) n stays up = settle-Serves l idx active _ n (
      if_case (λ (x : Worker fl). is_up x.manager.state ≡ true) (w.supervised == 0) (ap is_up up.0)
        (stays w up))

  with_dialer-Serves :
      (d : Dialer) (c : Config) (l : Life fl) (idx : ℕ) (active : Option ℕ)
      → ((t : Text) → d ≢ unsupported t)
      → Serves idx active
          (after_loop fl (start_loop fl c l.boots 0 5 (new_worker fl c l)) l idx active)
      → Serves idx active (with_dialer fl d c l idx active)
  unfolding with_dialer
  with_dialer-Serves (unsupported t) c l idx active n s = absurd (n t refl)
  with_dialer-Serves (tcp a) c l idx active n s = s
  with_dialer-Serves (ws x) c l idx active n s = s

  run_worker-Serves :
      (c : Config) (l : Life fl) (idx : ℕ) (active : Option ℕ) (j : ℕ)
      → validate_all c ≡ []
      → j < 5
      → Works fl c (ssh_config fl c l.known_hosts) (l.boots j)
      → ((i : ℕ) → i < j → (l.boots i).waited ≡ true)
      → StaysUp l
      → (l.server ≡ none) × (l.listen ≡ none)
      → Serves idx active (run_worker fl c l idx active)
  unfolding run_worker
  run_worker-Serves c l idx active j v h x s stays n =
      with_dialer-Serves (new_dialer c) c l idx active (new_dialer_supported c v)
        (after_loop-Serves l idx active _ n stays (start_loop-ComesUp fl c l j h x s))

  module _ (re : Regexp) (net : Networks) where
    -- A worker of a program that was not ended by its configurations calls Serve with a manager that
    -- is up, and Serve and the worker end without an error, if one of its five starts finds a free
    -- semaphore, a transport whose first attempt connects, its files and a handshake, the waits
    -- before it are not cut short, the manager is still up when its state is read, the server is
    -- made, and its address can be listened to. The first worker to get there is the active one.
    pub start_up-Serves :
        (c : Option Config) (yaml : Option YamlFile) (rules : Loading) (r : Ready re net)
        (l : Life fl) (idx : ℕ) (active : Option ℕ) (j : ℕ)
        → start_up re net c yaml rules ≡ some r
        → j < 5
        → Works fl r.config (ssh_config fl r.config l.known_hosts) (l.boots j)
        → ((i : ℕ) → i < j → (l.boots i).waited ≡ true)
        → StaysUp l
        → (l.server ≡ none) × (l.listen ≡ none)
        → Serves idx active (run_worker fl r.config l idx active)
    start_up-Serves c yaml rules r l idx active j e =
        let s = (start_up_iff re net c yaml rules r).0 e in
        run_worker-Serves r.config l idx active j
          (subst (λ x. validate_all x ≡ []) (sym s.config) s.valid)
