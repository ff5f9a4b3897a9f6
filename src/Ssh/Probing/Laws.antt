-- ===== src/Ssh/Probing/Laws.antt =====
-- sshclient/manager.go and health/probe.go: what a probe counts in the tracker.
use ssh_worker.Prelude.{
  ℕ, zero, suc, ◌*◌, ◌+◌, ◌≤◌, min, Bool, true, false, Option, none, some, List, [], ◌∷◌, ◌≡◌, refl,
  arith, ltb, ltb→lt, inl, inr, ◌∙◌, subst, if_case, Bool-cases,
}
use ssh_worker.Errs.{Error}
use ssh_worker.Health.State.{Floats, State}
use ssh_worker.Health.Tracker.{
  Effect, on_degrade, on_unhealthy, on_recover, Tracker, record_sample, judge, is_degraded,
  is_unhealthy, transition, enter, heal, stay_degraded, evaluate, observe, probe_ok, probe_fail,
  inc_reconnect,
}
use ssh_worker.Health.Probe.{Dialled, reached, lost, once}
use ssh_worker.Ssh.Manager.{
  Manager, is_up, mark_down, handle, handle_all, observe_and_heal, Reached, opened, broken,
  dial_through, dial_client, dial,
}
use ssh_worker.Ssh.Probing.{outcome, conclude, Probes, asks, probe_once, return_dial}

module _ (fl : Floats) where
  -- What `n` samples and `p` probes do to the counters.
  pub record Counted (n p : ℕ) (t t' : Tracker fl) : Type 0 where
    pub window : t'.cfg.window_size ≡ t.cfg.window_size
    pub count : t'.count ≡ min (t.count + n) t.cfg.window_size
    pub probes : t'.probe_ok + t'.probe_fail ≡ t.probe_ok + t.probe_fail + p

  judge-Counted :
      (s : State) (a b : Bool) (now later : ℕ) (t : Tracker fl)
      → let t' = (judge fl s a b now later t).0 in
        (t'.cfg.window_size ≡ t.cfg.window_size)
        × (t'.count ≡ t.count)
        × (t'.probe_ok ≡ t.probe_ok)
        × (t'.probe_fail ≡ t.probe_fail)
  unfolding judge transition enter heal stay_degraded
  judge-Counted s a b now later t = ground arith

  abbrev pub IsBounded : Tracker fl → Type 0
  IsBounded t = t.count ≤ t.cfg.window_size

  pub Counted-self :
      (t t' : Tracker fl)
      → IsBounded t
      → t'.cfg.window_size ≡ t.cfg.window_size
      → t'.count ≡ t.count
      → t'.probe_ok ≡ t.probe_ok
      → t'.probe_fail ≡ t.probe_fail
      → Counted 0 0 t t'
  Counted-self t t' b w c o f = record {
    window = w;
    count = omega (arith, b, c);
    probes = omega (arith, o, f);
  }

  pub Counted-IsBounded : (n p : ℕ) (t t' : Tracker fl) → Counted n p t t' → IsBounded t'
  Counted-IsBounded n p t t' c = omega (arith, c.window, c.count)

  pub and_Counted :
      (n p k r : ℕ) (t t' t'' : Tracker fl)
      → Counted n p t t'
      → Counted k r t' t''
      → Counted (n + k) (p + r) t t''
  and_Counted n p k r t t' t'' c d = record {
    window = d.window ∙ c.window;
    count = omega (arith, c.count, c.window, d.count);
    probes = omega (arith, c.probes, d.probes);
  }

  record_sample-Counted :
      (dur : ℕ) (failed : Bool) (t : Tracker fl)
      → IsBounded t
      → Counted 1 0 t (record_sample fl dur failed t)
  unfolding record_sample
  record_sample-Counted dur failed t b = record {
    window = refl;
    count = elim (Bool-cases (ltb t.count t.cfg.window_size)) [
      | inl h ↦ rw h (omega (arith, b, ltb→lt _ _ h))
      | inr h ↦ rw h (ground (arith, b, h))
    ];
    probes = omega arith;
  }

  observe-Counted :
      (dur : ℕ) (failed : Bool) (now later : ℕ) (t : Tracker fl)
      → IsBounded t
      → Counted 1 0 t (observe fl dur failed now later t).0
  unfolding observe evaluate
  observe-Counted dur failed now later t b =
      let t' = record_sample fl dur failed t in
      let c = record_sample-Counted dur failed t b in
      let (w, k, o, f) =
        judge-Counted t'.state (is_degraded fl t') (is_unhealthy fl t') now later t' in
      and_Counted 1 0 0 0 t t' _ c (Counted-self t' _ (Counted-IsBounded 1 0 t t' c) w k o f)

  handle_all-Counted :
      (es : List Effect) (m : Manager fl)
      → IsBounded m.tracker
      → Counted 0 0 m.tracker (handle_all fl es m).tracker
  unfolding handle_all handle mark_down inc_reconnect
  handle_all-Counted [] m b = Counted-self m.tracker m.tracker b refl refl refl refl
  handle_all-Counted (e ∷ es) m b =
      let (w, k, o, f) = handle_keeps e m in
      let c = Counted-self m.tracker (handle fl e m).tracker b w k o f in
      and_Counted 0 0 0 0 m.tracker (handle fl e m).tracker _ c
        (handle_all-Counted es (handle fl e m) (Counted-IsBounded 0 0 _ _ c))
    where
      handle_keeps :
          (e : Effect) (m : Manager fl)
          → let t' = (handle fl e m).tracker in
            (t'.cfg.window_size ≡ m.tracker.cfg.window_size)
            × (t'.count ≡ m.tracker.count)
            × (t'.probe_ok ≡ m.tracker.probe_ok)
            × (t'.probe_fail ≡ m.tracker.probe_fail)
      handle_keeps on_degrade m = ground arith
      handle_keeps on_unhealthy m = ground arith
      handle_keeps on_recover m = ground arith

  observe_and_heal-Counted :
      (dur : ℕ) (failed : Bool) (now : ℕ) (m : Manager fl)
      → IsBounded m.tracker
      → Counted 1 0 m.tracker (observe_and_heal fl dur failed now m).tracker
  unfolding observe_and_heal
  observe_and_heal-Counted dur failed now m b =
      let (t, es) = observe fl dur failed now now m.tracker in
      let c = observe-Counted dur failed now now m.tracker b in
      and_Counted 1 0 0 0 m.tracker t _ c
        (handle_all-Counted es (record m { tracker = t }) (Counted-IsBounded 1 0 m.tracker t c))

  mark_down-tracker : (m : Manager fl) → m.tracker ≡ (mark_down fl m).tracker
  unfolding mark_down
  mark_down-tracker m = ground arith

  dial_through-Counted :
      (r : Reached fl) (now : ℕ) (m : Manager fl)
      → IsBounded m.tracker
      → Counted 1 0 m.tracker (dial_through fl r now m).0.tracker
  unfolding dial_through
  dial_through-Counted (opened dur) now m b = observe_and_heal-Counted dur false now m b
  dial_through-Counted (broken dur e) now m b =
      subst (Counted 1 0 m.tracker) (mark_down-tracker (observe_and_heal fl dur true now m))
        (observe_and_heal-Counted dur true now m b)

  -- A dial of the manager counts once, whatever comes of it.
  dial_client-Counted :
      (c : Option ℕ) (ask : ℕ → Reached fl) (now : ℕ) (m : Manager fl)
      → IsBounded m.tracker
      → Counted 1 0 m.tracker (dial_client fl c ask now m).0.tracker
  unfolding dial_client
  dial_client-Counted none ask now m b = observe_and_heal-Counted 0 true now m b
  dial_client-Counted (some c) ask now m b =
      if_case (λ (r : Manager fl × Option Error). Counted 1 0 m.tracker r.0.tracker) (is_up m.state)
        (dial_through-Counted (ask c) now m b) (observe_and_heal-Counted 0 true now m b)

  dial-Counted :
      (ask : ℕ → Reached fl) (now : ℕ) (m : Manager fl)
      → IsBounded m.tracker
      → Counted 1 0 m.tracker (dial fl ask now m).0.tracker
  unfolding dial
  dial-Counted ask now m b = dial_client-Counted m.client ask now m b

  once-Counted :
      (d : Dialled) (rtt now later : ℕ) (t : Tracker fl)
      → IsBounded t
      → Counted 1 1 t (once fl d rtt now later t).0
  unfolding once probe_ok probe_fail
  once-Counted reached rtt now later t b = shifted (observe-Counted rtt false now later _ b)
    where
      shifted :
          {t' : Tracker fl}
          → Counted 1 0 (record t { last_probe = some now; probe_ok = t.probe_ok + 1 }) t'
          → Counted 1 1 t t'
      shifted c = record { window = c.window; count = c.count; probes = omega (arith, c.probes) }
  once-Counted lost rtt now later t b = shifted (observe-Counted 0 true now later _ b)
    where
      shifted :
          {t' : Tracker fl}
          → Counted 1 0 (record t { last_probe = some now; probe_fail = t.probe_fail + 1 }) t'
          → Counted 1 1 t t'
      shifted c = record { window = c.window; count = c.count; probes = omega (arith, c.probes) }

  conclude-Counted :
      (e : Option Error) (rtt now : ℕ) (m : Manager fl)
      → IsBounded m.tracker
      → Counted 1 1 m.tracker (conclude fl e rtt now m).tracker
  unfolding conclude
  conclude-Counted e rtt now m b =
      let (t, es) = once fl (outcome fl e) rtt now now m.tracker in
      let c = once-Counted (outcome fl e) rtt now now m.tracker b in
      and_Counted 1 1 0 0 m.tracker t _ c
        (handle_all-Counted es (record m { tracker = t }) (Counted-IsBounded 1 1 m.tracker t c))

  -- Some probes, with what they leave: each is one probe of the tracker and two samples, that of the
  -- probe and that of its Dial, but for the Dials that still wait.
  pub record Balanced (p : ℕ) (s s' : Probes fl) : Type 0 where
    pub samples : ℕ
    pub counted : Counted samples p s.manager.tracker s'.manager.tracker
    pub balance : samples + s'.pending ≡ p * 2 + s.pending

  pub probe_once-Balanced :
      (timely : Bool) (ask : ℕ → Reached fl) (rtt now later : ℕ) (s : Probes fl)
      → IsBounded s.manager.tracker
      → Balanced 1 s (probe_once fl timely ask rtt now later s)
  unfolding probe_once
  probe_once-Balanced true ask rtt now later s b =
      let m' = (dial fl ask now s.manager).0 in
      let c = dial-Counted ask now s.manager b in
      record {
        samples = 2;
        counted = and_Counted 1 0 1 1 s.manager.tracker m'.tracker _ c (
            conclude-Counted (dial fl ask now s.manager).1 rtt later m'
              (Counted-IsBounded 1 0 _ _ c));
        balance = omega arith;
      }
  probe_once-Balanced false ask rtt now later s b =
      if_case (Balanced 1 s) (asks fl s.manager.client s.manager.state)
        (record {
          samples = 1;
          counted = conclude-Counted (some Error.canceled) rtt later s.manager b;
          balance = omega arith;
        })
        (let m' = (dial fl ask now s.manager).0 in
          let c = dial-Counted ask now s.manager b in
          record {
            samples = 2;
            counted =
                and_Counted 1 0 1 1 s.manager.tracker m'.tracker _ c (
                  conclude-Counted (some Error.canceled) rtt later m'
                    (Counted-IsBounded 1 0 _ _ c));
            balance = omega arith;
          })

  pub return_dial-Balanced :
      (n : ℕ) (r : Reached fl) (now : ℕ) (m : Manager fl)
      → IsBounded m.tracker
      → Balanced 0 (record { manager = m; pending = n }) (return_dial fl n r now m)
  unfolding return_dial
  return_dial-Balanced zero r now m b = record {
    samples = 0;
    counted = Counted-self m.tracker m.tracker b refl refl refl refl;
    balance = refl;
  }
  return_dial-Balanced (suc n) r now m b = record {
    samples = 1;
    counted = dial_through-Counted r now m b;
    balance = omega arith;
  }
