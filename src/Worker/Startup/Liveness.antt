-- ===== src/Worker/Startup/Liveness.antt =====
-- main.go, runWorker: the starts of a worker, up to the one that finds what it needs.
use ssh_worker.Prelude.{
  ℕ, zero, suc, ◌+◌, ◌<◌, Bool, true, false, if◌then◌else◌, Option, none, some, ◌≡◌, refl, sym, ap,
  subst, ◌∙◌, inl, inr, arith, if_case,
}
use ssh_worker.Errs.{Error}
use ssh_worker.Health.State.{Floats}
use ssh_worker.Config.{Config}
use ssh_worker.Qload.{QLoad, connected, new, defaults}
use ssh_worker.Transport.{Dialled, dial as transport_dial}
use ssh_worker.Ssh.Manager.{
  State, is_down, Outcome, fine, fault, SshConfig, ClientConfig, build_ssh_config, Manager,
  new_manager, Dialling, connect, connect_raw, configure, handshake_with,
}
use ssh_worker.Worker.Pipeline.{attempt_of, world, dial_fn}
use ssh_worker.Worker.Startup.{
  Worker, Boot, raw_of, launch, start, Started, cancelled, tried, after_start, start_loop, Life,
  ssh_config, new_worker,
}
use ssh_worker.Worker.Startup.Laws.{IsIdle}
use ssh_worker.Ssh.Manager.Laws.{Ends, connect-Ends}
use ssh_worker.Worker.Startup.Limiter.{IsClosed, later-IsClosed, dial-IsClosed, dial_connects}

-- What a start needs: the semaphore, a transport whose first attempt connects, the files, and the
-- handshake.
pub record Works (fl : Floats) (c : Config) (cfg : SshConfig) (b : Boot fl) : Type 0 where
  pub acquired : b.around.acquired ≡ true
  pub connection : Dialled
  pub reached : (timeout : ℕ) → transport_dial c (b.around.stages 0 timeout) ≡ connection
  pub open_ : connection.error ≡ none
  pub client_config : ClientConfig
  pub files : build_ssh_config cfg b.files ≡ fine client_config
  pub handshake : b.handshake ≡ none

attempt_of-connected : (dur : ℕ) (d : Dialled) → d.error ≡ none → attempt_of dur d ≡ connected dur d
unfolding attempt_of
attempt_of-connected dur d e = rw e refl

plus_zero : (k : ℕ) → k + 0 ≡ k
plus_zero k = omega arith

zero_plus : (k : ℕ) → k ≡ 0 + k
zero_plus k = omega arith

plus_suc : (k j : ℕ) → k + suc j ≡ suc k + j
plus_suc k j = omega arith

module _ (fl : Floats) where
  -- A worker that has tried to start `k` times.
  pub record IsWaiting (cfg : SshConfig) (k : ℕ) (w : Worker fl) : Type 0 where
    pub idle : IsIdle fl w
    pub config : w.manager.cfg ≡ cfg
    pub limiter : IsClosed k w.limiter

  abbrev pub IsUp : Worker fl → Type 0
  IsUp w = (w.manager.state ≡ State.up) × (c : ℕ) × (w.manager.client ≡ some c)

  -- After a start: up without an error, or waiting again, with a closed breaker up to the fourth.
  abbrev Tries : SshConfig → ℕ → Worker fl → Option Error → Type 0
  Tries cfg k w none = IsUp w
  Tries cfg k w (some e) = k < 4 → IsWaiting cfg (suc k) w

  launch-Tries :
      (cfg : SshConfig) (k : ℕ) (q : QLoad) (o : Outcome ℕ) (m : Manager fl)
      (r : Manager fl × Option Error)
      → m.client ≡ none
      → r.0.cfg ≡ cfg
      → (k < 4 → IsClosed (suc k) q)
      → Ends fl o m r
      → Tries cfg k (launch fl q r 0).0 (launch fl q r 0).1
  unfolding launch
  launch-Tries cfg k q (fine c) m (m', none) n s v (inl e) = (e.1, c, e.2)
  launch-Tries cfg k q (fine c) m (m', none) n s v (inr e) = absurd (ground arith)
  launch-Tries cfg k q (fine c) m (m', some x) n s v (inl e) = absurd (ground arith)
  launch-Tries cfg k q (fine c) m (m', some x) n s v (inr e) =
      λ h. record { idle = (e.2, e.3 ∙ n, refl); config = s; limiter = v h }
  launch-Tries cfg k q (fault x) m (m', none) n s v e = absurd (ground arith)
  launch-Tries cfg k q (fault x) m (m', some y) n s v e =
      λ h. record { idle = (e.1, e.2 ∙ n, refl); config = s; limiter = v h }

  connect-cfg : (d : Dialling fl) (m : Manager fl) → (connect fl d m).0.cfg ≡ m.cfg
  unfolding connect connect_raw configure handshake_with
  connect-cfg d m = ground arith

  dialling : Config → Boot fl → Worker fl → Dialling fl
  dialling c b w = record {
    raw = raw_of fl b.id (dial_fn c b.around w.limiter).result;
    files = b.files;
    handshake = b.handshake;
  }

  start-Tries :
      (cfg : SshConfig) (k : ℕ) (c : Config) (b : Boot fl) (w : Worker fl)
      → IsWaiting cfg k w
      → Tries cfg k (start fl c b w).0 (start fl c b w).1
  unfolding start dialling dial_fn
  start-Tries cfg k c b w v =
      let d = dialling c b w in
      let run = dial_fn c b.around w.limiter in
      let q : QLoad = if is_down w.manager.state then run.state else w.limiter in
      subst
        (λ n.
          Tries cfg k (launch fl q (connect fl d w.manager) n).0
            (launch fl q (connect fl d w.manager) n).1)
        (sym v.idle.2)
        (launch-Tries cfg k q d.raw w.manager (connect fl d w.manager) v.idle.1
          (connect-cfg d w.manager ∙ v.config)
          (λ h.
            if_case (IsClosed (suc k)) (is_down w.manager.state)
              (dial-IsClosed (world c b.around) k w.limiter h v.limiter)
              (later-IsClosed k w.limiter v.limiter))
          (connect-Ends fl d w.manager v.idle.0))

  connect_works :
      (d : Dialling fl) (m : Manager fl) (c : ℕ) (cc_ : ClientConfig)
      → m.state ≡ State.down
      → d.raw ≡ fine c
      → build_ssh_config m.cfg d.files ≡ fine cc_
      → d.handshake ≡ none
      → (connect fl d m).1 ≡ none
  unfolding connect connect_raw configure handshake_with
  connect_works d m c cc_ s r f h = rw (s, r, f, h) refl

  launch-error :
      (q : QLoad) (r : Manager fl × Option Error) (n : ℕ) → r.1 ≡ none → (launch fl q r n).1 ≡ none
  unfolding launch
  launch-error q (m, none) n e = refl
  launch-error q (m, some x) n e = absurd (ground arith)

  start-Works :
      (cfg : SshConfig) (k : ℕ) (c : Config) (b : Boot fl) (w : Worker fl)
      → IsWaiting cfg k w
      → Works fl c cfg b
      → (start fl c b w).1 ≡ none
  unfolding start dialling dial_fn world
  start-Works cfg k c b w v x =
      let d = dialling c b w in
      launch-error _ (connect fl d w.manager) _ (
        connect_works d w.manager b.id x.client_config v.idle.0
          (ap (raw_of fl b.id) (
            dial_connects (world c b.around) k (b.around.took 0) w.limiter x.connection v.limiter
              x.acquired
              (λ t.
                ap (attempt_of (b.around.took 0)) (x.reached t)
                ∙ attempt_of-connected (b.around.took 0) x.connection x.open_)))
          (subst (λ g. build_ssh_config g b.files ≡ fine x.client_config) (sym v.config) x.files)
          x.handshake)

  -- How the loop may end.
  abbrev pub ComesUp : Started fl → Type 0
  ComesUp (cancelled w) = ⊥
  ComesUp (tried w) = IsUp w

  after_start-ComesUp :
      (cfg : SshConfig) (k : ℕ) (waited : Bool) (w : Worker fl) (e : Option Error)
      (again : Worker fl → Started fl)
      → Tries cfg k w e
      → ((x : Error) → e ≡ some x → waited ≡ true)
      → ((x : Error)
          → e ≡ some x
          → (k < 4) × ((w' : Worker fl) → IsWaiting cfg (suc k) w' → ComesUp (again w')))
      → ComesUp (after_start fl waited (w, e) again)
  unfolding after_start
  after_start-ComesUp cfg k waited w none again t s ih = t
  after_start-ComesUp cfg k true w (some x) again t s ih = (ih x refl).1 w (t (ih x refl).0)
  after_start-ComesUp cfg k false w (some x) again t s ih = absurd (ground (arith, s x refl))

  start_loop-ComesUp_from :
      (cfg : SshConfig) (c : Config) (boots : ℕ → Boot fl) (left k j : ℕ) (w : Worker fl)
      → k + left ≡ 5
      → j < left
      → Works fl c cfg (boots (k + j))
      → ((i : ℕ) → i < k + j → (boots i).waited ≡ true)
      → IsWaiting cfg k w
      → ComesUp (start_loop fl c boots k left w)
  unfolding start_loop
  start_loop-ComesUp_from cfg c boots zero k j w n h x s v = absurd (omega (arith, h))
  start_loop-ComesUp_from cfg c boots (suc left) k zero w n h x s v =
      let e =
        start-Works cfg k c (boots k) w v (subst (λ i. Works fl c cfg (boots i)) (plus_zero k) x) in
      after_start-ComesUp cfg k (boots k).waited _ _ _ (start-Tries cfg k c (boots k) w v)
        (λ y f. absurd (ground (arith, e, f))) (λ y f. absurd (ground (arith, e, f)))
  start_loop-ComesUp_from cfg c boots (suc left) k (suc j) w n h x s v =
      after_start-ComesUp cfg k (boots k).waited _ _ _ (start-Tries cfg k c (boots k) w v)
        (λ y f. s k (omega arith))
        (λ y f. (
          omega (arith, n, h),
          λ w' v'.
              start_loop-ComesUp_from cfg c boots left (suc k) j w' (omega (arith, n))
                (omega (arith, h)) (subst (λ i. Works fl c cfg (boots i)) (plus_suc k j) x)
                (λ i l. s i (omega (arith, l))) v',
        ))

  -- If one of the five starts of a new worker finds a free semaphore, a transport whose first attempt
  -- connects, its files and a handshake, and the waits behind the starts before it are not cut
  -- short, the loop ends with a manager that is up and has a client: the failures before do not
  -- open the breaker of the limiter.
  pub start_loop-ComesUp :
      (c : Config) (l : Life fl) (j : ℕ)
      → j < 5
      → Works fl c (ssh_config fl c l.known_hosts) (l.boots j)
      → ((i : ℕ) → i < j → (l.boots i).waited ≡ true)
      → ComesUp (start_loop fl c l.boots 0 5 (new_worker fl c l))
  unfolding new defaults new_worker new_manager
  start_loop-ComesUp c l j h x s =
      let cfg = ssh_config fl c l.known_hosts in
      start_loop-ComesUp_from cfg c l.boots 5 0 j _ refl h
        (subst (λ i. Works fl c cfg (l.boots i)) (zero_plus j) x) (λ i b. s i (omega (arith, b)))
        (record {
          idle = (refl, refl, refl);
          config = refl;
          limiter = record { threshold = refl; failures = omega arith; closed = refl };
        })
