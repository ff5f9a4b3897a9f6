-- ===== src/Ssh/Probing/Loop.antt =====
-- health/probe.go, Run: what the loop of the probe counts in the tracker.
use ssh_worker.Prelude.{ℕ, ◌+◌, Bool, true, false, List, [], ◌∷◌, ◌≡◌, refl, subst, arith}
use ssh_worker.Health.State.{Floats}
use ssh_worker.Ssh.Probing.{
  Probes, Call, probe, return_dial, Event, done, tick, returns, run_loop, run,
}
use ssh_worker.Ssh.Probing.Laws.{
  IsBounded, Counted-self, Counted-IsBounded, and_Counted, Balanced, probe_once-Balanced,
  return_dial-Balanced,
}

zero_plus : (n : ℕ) → 0 + n ≡ n
zero_plus n = omega arith

module _ (fl : Floats) where
  abbrev IsStarted : Probes fl → Type 0
  IsStarted s = IsBounded fl s.manager.tracker

  -- The ticks that Run sees before the end of the context; the first argument says that it was seen.
  abbrev pub ticks : Bool → List (Event fl) → ℕ
  ticks over [] = 0
  ticks over (done ∷ es) = ticks true es
  ticks true (tick c ∷ es) = ticks true es
  ticks false (tick c ∷ es) = 1 + ticks false es
  ticks over (returns r now ∷ es) = ticks over es

  self-Balanced : (s : Probes fl) → IsStarted s → Balanced fl 0 s s
  self-Balanced s b = record {
    samples = 0;
    counted = Counted-self fl s.manager.tracker s.manager.tracker b refl refl refl refl;
    balance = refl;
  }

  and_Balanced :
      (p r : ℕ) (s s' s'' : Probes fl)
      → IsStarted s
      → Balanced fl p s s'
      → (IsStarted s' → Balanced fl r s' s'')
      → Balanced fl (p + r) s s''
  and_Balanced p r s s' s'' b c next =
      let d =
        next (Counted-IsBounded fl c.samples p s.manager.tracker s'.manager.tracker c.counted) in
      record {
        samples = c.samples + d.samples;
        counted =
            and_Counted fl c.samples p d.samples r s.manager.tracker s'.manager.tracker
              s''.manager.tracker c.counted d.counted;
        balance = omega (arith, c.balance, d.balance);
      }

  probe-Balanced : (c : Call fl) (s : Probes fl) → IsStarted s → Balanced fl 1 s (probe fl c s)
  probe-Balanced c s b = probe_once-Balanced fl c.timely c.ask c.rtt c.now c.later s b

  run_loop-Balanced :
      (over : Bool) (es : List (Event fl)) (s : Probes fl)
      → IsStarted s
      → Balanced fl (ticks over es) s (run_loop fl over es s)
  unfolding run_loop
  run_loop-Balanced over [] s b = self-Balanced s b
  run_loop-Balanced over (done ∷ es) s b = run_loop-Balanced true es s b
  run_loop-Balanced true (tick c ∷ es) s b = run_loop-Balanced true es s b
  run_loop-Balanced false (tick c ∷ es) s b =
      and_Balanced 1 (ticks false es) s (probe fl c s) _ b (probe-Balanced c s b)
        (run_loop-Balanced false es (probe fl c s))
  run_loop-Balanced over (returns r now ∷ es) s b =
      let s' = return_dial fl s.pending r now s.manager in
      subst (λ n. Balanced fl n s (run_loop fl over es s')) (zero_plus (ticks over es))
        (and_Balanced 0 (ticks over es) s s' (run_loop fl over es s') b
          (return_dial-Balanced fl s.pending r now s.manager b) (run_loop-Balanced over es s'))

  -- The loop of the probe, where nothing else uses the tracker: the counters of the probes have grown
  -- by one for the first call and one for every tick before the end of the context, whatever the calls
  -- found and whether they were timely. The samples that were recorded, of which the window keeps as
  -- many as there is room for, and the Dials of late calls that still wait are together two for each
  -- probe and one for every Dial that waited at first: a probe records a sample, and so does the Dial
  -- of the manager through which it goes, once it returns.
  pub run-Balanced :
      (first : Call fl) (es : List (Event fl)) (s : Probes fl)
      → IsBounded fl s.manager.tracker
      → Balanced fl (1 + ticks false es) s (run fl first es s)
  unfolding run
  run-Balanced first es s b =
      and_Balanced 1 (ticks false es) s (probe fl first s) _ b (probe-Balanced first s b)
        (run_loop-Balanced false es (probe fl first s))
