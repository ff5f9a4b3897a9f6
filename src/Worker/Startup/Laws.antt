-- ===== src/Worker/Startup/Laws.antt =====
-- main.go, runWorker: what is left of a worker when it ends.
use ssh_worker.Prelude.{
  ℕ, zero, suc, ◌<◌, ◌==◌, Bool, true, false, if◌then◌else◌, Option, none, some, List, [], ◌∷◌, ◌≡◌,
  ◌≢◌, refl, ◌⊎◌, inl, inr, arith, subst, sym, Bool-cases, if_case,
}
use native.Mathlib.Decide.{dec_lt}
use ssh_worker.Errs.{Error}
use ssh_worker.Health.State.{Floats}
use ssh_worker.Config.{Config}
use ssh_worker.Network.{Dialer, tcp, ws, unsupported, new_dialer}
use ssh_worker.Qload.{QLoad}
use ssh_worker.Ssh.Manager.{
  State, is_up, Outcome, fine, fault, Manager, new_manager, Dialling, connect, close, mark_down,
}
use ssh_worker.Ssh.Manager.Laws.{IsValid, Ends, connect-Ends, Operation, perform, perform-IsValid}
use ssh_worker.Worker.Startup.{
  Worker, Boot, launch, start, Started, cancelled, tried, after_start, start_loop, perform_all,
  Life, Ended, serve, settle, after_loop, with_dialer, new_worker, run_worker, on_manager, never_up,
  set_first, gave_up,
}

module _ (fl : Floats) where
  abbrev pub IsIdle : Worker fl → Type 0
  IsIdle w = (w.manager.state ≡ State.down) × (w.manager.client ≡ none) × (w.supervised ≡ 0)

  -- After a Start: no error, or nothing is left of it.
  abbrev Launched : Worker fl → Option Error → Type 0
  Launched w none = IsValid fl w.manager × (w.supervised ≢ 0)
  Launched w (some e) = IsIdle w

  launch-Launched :
      (q : QLoad) (o : Outcome ℕ) (m : Manager fl) (r : Manager fl × Option Error)
      → m.client ≡ none
      → Ends fl o m r
      → Launched (launch fl q r 0).0 (launch fl q r 0).1
  unfolding launch
  launch-Launched q (fine c) m r h e = ground arith
  launch-Launched q (fault x) m r h e = ground arith

  start-Launched :
      (c : Config) (b : Boot fl) (w : Worker fl)
      → IsIdle w
      → Launched (start fl c b w).0 (start fl c b w).1
  unfolding start
  start-Launched c b w i =
      subst
        (λ n.
          (q : QLoad) (d : Dialling fl)
          → Launched (launch fl q (connect fl d w.manager) n).0
              (launch fl q (connect fl d w.manager) n).1)
        (sym i.2)
        (λ q d.
          launch-Launched q d.raw w.manager (connect fl d w.manager) i.1
            (connect-Ends fl d w.manager i.0))
        _ _

  -- A worker in which nothing runs is idle.
  abbrev pub IsQuiet : Worker fl → Type 0
  IsQuiet w = IsValid fl w.manager × (w.supervised ≡ 0 → IsIdle w)

  abbrev Tried : Started fl → Type 0
  Tried (cancelled w) = IsIdle w
  Tried (tried w) = IsQuiet w

  idle-IsQuiet : (w : Worker fl) → IsIdle w → IsQuiet w
  idle-IsQuiet w i = ground arith

  after_start-Tried :
      (waited : Bool) (w : Worker fl) (e : Option Error) (again : Worker fl → Started fl)
      → Launched w e
      → ((w' : Worker fl) → IsIdle w' → Tried (again w'))
      → Tried (after_start fl waited (w, e) again)
  unfolding after_start
  after_start-Tried waited w none again l ih = (l.0, λ z. absurd (l.1 z))
  after_start-Tried true w (some e) again l ih = ih w l
  after_start-Tried false w (some e) again l ih = l

  start_loop-Tried :
      (c : Config) (boots : ℕ → Boot fl) (attempt left : ℕ) (w : Worker fl)
      → IsIdle w
      → Tried (start_loop fl c boots attempt left w)
  unfolding start_loop
  start_loop-Tried c boots attempt zero w i = idle-IsQuiet w i
  start_loop-Tried c boots attempt (suc left) w i =
      after_start-Tried _ _ _ _ (start-Launched c (boots attempt) w i)
        (start_loop-Tried c boots (suc attempt) left)

  perform_all-IsValid :
      (os : List (Operation fl)) (m : Manager fl) → IsValid fl m → IsValid fl (perform_all fl os m)
  unfolding perform_all
  perform_all-IsValid [] m v = v
  perform_all-IsValid (o ∷ os) m v =
      perform_all-IsValid os (perform fl o m) (perform-IsValid fl o m v)

  close_goes_down :
      (m : Manager fl)
      → IsValid fl m
      → ((close fl m).state ≡ State.down) × ((close fl m).client ≡ none)
  unfolding close mark_down
  close_goes_down m v = ground arith

  -- What is left of a worker, by its error.
  abbrev Left : Option Error → Option (Worker fl) → Option Error → Type 0
  Left server (some w) none = IsIdle w
  Left server none none = ⊥
  Left server none (some e) = Unit
  Left server (some w) (some e) =
      IsIdle w ⊎ ((0 < w.supervised) × ((server ≡ some e) ⊎ (e ≡ never_up fl)))

  abbrev pub Leaves : Option Error → Ended fl → Type 0
  Leaves server r = Left server r.worker r.error

  serve-Leaves :
      (s : Option Error) (l : Life fl) (active : Option ℕ) (w : Worker fl)
      → IsValid fl w.manager
      → 0 < w.supervised
      → Leaves s (serve fl s l active w)
  unfolding serve
  serve-Leaves none l active w v h =
      let (down, gone) = close_goes_down _ (perform_all-IsValid l.during w.manager v) in
      (down, gone, refl)
  serve-Leaves (some e) l active w v h = inr (h, inl refl)

  settle-Leaves :
      (l : Life fl) (idx : ℕ) (active : Option ℕ) (w : Worker fl)
      → IsQuiet w
      → Leaves l.server (settle fl l idx active w)
  unfolding settle
  settle-Leaves l idx active w v = elim (dec_lt 0 w.supervised) [
    | yes h ↦
        if_case (Leaves l.server) (is_up w.manager.state) (serve-Leaves l.server l _ w v.0 h)
          (inr (h, inr refl))
    | no h ↦
        let idle = v.1 (omega (arith, h)) in
        subst
          (λ (s : State). Leaves l.server (
            if is_up s
            then serve fl l.server l (set_first fl idx active) w
            else gave_up fl w active (never_up fl)))
          (sym idle.0) (inl idle)
  ]

  on_manager-IsQuiet :
      (os : List (Operation fl)) (w : Worker fl)
      → IsQuiet w
      → IsQuiet (if w.supervised == 0 then w else on_manager fl (perform_all fl os) w)
  on_manager-IsQuiet os w v = elim (Bool-cases (w.supervised == 0)) [
    | inl z ↦ rw z v
    | inr some_ ↦
        rw some_ (perform_all-IsValid os w.manager v.0, λ z. absurd (ground (arith, some_, z)))
  ]

  after_loop-Leaves :
      (s : Started fl) (l : Life fl) (idx : ℕ) (active : Option ℕ)
      → Tried s
      → Leaves l.server (after_loop fl s l idx active)
  unfolding after_loop
  after_loop-Leaves (cancelled w) l idx active t = inl t
  after_loop-Leaves (tried w) l idx active t =
      settle-Leaves l idx active _ (on_manager-IsQuiet l.before w t)

  -- A worker ends in one of three ways. Without an error: its manager is down, without a client, and none of its goroutines runs. With an error, and nothing of it is left
  -- either, or the worker was not made. Or with the error of socks5.New, or the one that says that
  -- it never came up, and then its goroutines still run, since the manager is not closed.
  pub run_worker-Leaves :
      (c : Config) (l : Life fl) (idx : ℕ) (active : Option ℕ)
      → Leaves l.server (run_worker fl c l idx active)
  unfolding run_worker with_dialer new_worker new_manager
  run_worker-Leaves c l idx active = with_dialer-Leaves (new_dialer c)
    where
      left_loop :
          Leaves l.server
            (after_loop fl (start_loop fl c l.boots 0 5 (new_worker fl c l)) l idx active)
      left_loop =
          after_loop-Leaves _ l idx active (start_loop-Tried c l.boots 0 5 _ (refl, refl, refl))

      with_dialer-Leaves : (x : Dialer) → Leaves l.server (with_dialer fl x c l idx active)
      with_dialer-Leaves (unsupported t) = tt
      with_dialer-Leaves (tcp t) = left_loop
      with_dialer-Leaves (ws x) = left_loop
