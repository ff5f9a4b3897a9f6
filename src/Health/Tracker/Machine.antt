-- ===== src/Health/Tracker/Machine.antt =====
-- health/tracker.go, evaluate and transition: the states, the callbacks and the holds.
use ssh_worker.Prelude.{
  ℕ, ◌+◌, ◌≤◌, if◌then◌else◌, Bool, true, false, ◌&&◌, some, List, [], ◌≡◌, ◌≢◌, ◌⊎◌, refl, arith,
  ap, ◌∙◌,
}
use ssh_worker.Health.State.{State, Floats}
use ssh_worker.Health.Tracker.{
  Effect, on_degrade, on_unhealthy, on_recover, Hooks, Limits, Tracker, record_sample, call, held,
  judge, is_degraded, is_unhealthy, evaluate, observe, same_state,
}

-- The edges of the machine: an unhealthy tracker is never only degraded again, and nothing leads to
-- the state recovering.
infix 40 ◌⟶◌
pub data ◌⟶◌ : State → State → Type 0 where
  stay : {s : State} → s ⟶ s
  degrade : State.healthy ⟶ State.degraded
  fail : {s : State} → s ⟶ State.unhealthy
  mend : {s : State} → s ⟶ State.healthy

-- What one evaluation announces, by the state before and after it.
unfoldable pub announced : Hooks → State → List Effect
unfolding call
announced h State.healthy = call h.recover on_recover
announced h State.degraded = call h.degrade on_degrade
announced h State.unhealthy = call h.unhealthy on_unhealthy
announced h State.recovering = []

module _ (fl : Floats) where
  judge_follows :
      (s : State) (d u : Bool) (now later : ℕ) (t : Tracker fl)
      → t.state ≡ s
      → s ⟶ (judge fl s d u now later t).0.state
  unfolding judge
  judge_follows State.healthy d u now later t e = grind (arith, stay, degrade, fail, mend)
  judge_follows State.degraded d u now later t e = grind (arith, stay, degrade, fail, mend)
  judge_follows State.unhealthy d u now later t e = grind (arith, stay, degrade, fail, mend)
  judge_follows State.recovering d u now later t e = grind (arith, stay, degrade, fail, mend)

  -- Every evaluation follows an edge of the machine.
  pub evaluate_follows :
      (now later : ℕ) (t : Tracker fl) → t.state ⟶ (evaluate fl now later t).0.state
  unfolding evaluate
  evaluate_follows now later t =
      judge_follows t.state (is_degraded fl t) (is_unhealthy fl t) now later t refl

  -- What an evaluation of a tracker in the state `s` calls back.
  abbrev pub Announces : State → Bool → ℕ → Tracker fl → Tracker fl × List Effect → Type 0
  Announces s d now t r =
      ((r.0.state ≢ s) × (r.1 ≡ announced t.hooks r.0.state))
      ⊎ ((r.0.state ≡ s)
          × (r.1 ≡ (
              if same_state s State.degraded && d && held t.degraded_since t.cfg.degraded_hold now
              then call t.hooks.degrade on_degrade
              else [])))

  judge-Announces :
      (s : State) (d u : Bool) (now later : ℕ) (t : Tracker fl)
      → t.state ≡ s
      → Announces s d now t (judge fl s d u now later t)
  unfolding judge announced
  judge-Announces State.healthy d u now later t e = ground arith
  judge-Announces State.degraded d u now later t e = ground arith
  judge-Announces State.unhealthy d u now later t e = ground arith
  judge-Announces State.recovering d u now later t e = ground arith

  -- An evaluation that changes the state calls the callback of the new state, if it is set, and no
  -- other. One that keeps it calls nothing, but for a degraded tracker whose sample is bad and whose
  -- hold has passed: the callback for degraded is called again.
  pub evaluate-Announces :
      (now later : ℕ) (t : Tracker fl)
      → Announces t.state (is_degraded fl t) now t (evaluate fl now later t)
  unfolding evaluate
  evaluate-Announces now later t =
      judge-Announces t.state (is_degraded fl t) (is_unhealthy fl t) now later t refl

  judge_heals :
      (s : State) (d u : Bool) (now later : ℕ) (t : Tracker fl)
      → t.state ≡ s
      → (s ≡ State.degraded) ⊎ (s ≡ State.unhealthy)
      → (judge fl s d u now later t).0.state ≡ State.healthy
      → (d ≡ false) × (u ≡ false) × (held t.healthy_since t.cfg.heal_hold now ≡ true)
  unfolding judge
  judge_heals State.degraded d u now later t e w h = ground arith
  judge_heals State.unhealthy d u now later t e w h = ground arith
  judge_heals State.healthy d u now later t e w h = ground arith
  judge_heals State.recovering d u now later t e w h = ground arith

  -- A degraded or unhealthy tracker becomes healthy only at a sample that exceeds no threshold, and
  -- if the time from which it counts as healthy was set and is at least the hold ago.
  pub evaluate_heals :
      (now later : ℕ) (t : Tracker fl)
      → (t.state ≡ State.degraded) ⊎ (t.state ≡ State.unhealthy)
      → (evaluate fl now later t).0.state ≡ State.healthy
      → (is_degraded fl t ≡ false)
        × (is_unhealthy fl t ≡ false)
        × (held t.healthy_since t.cfg.heal_hold now ≡ true)
  unfolding evaluate
  evaluate_heals now later t w h =
      judge_heals t.state (is_degraded fl t) (is_unhealthy fl t) now later t refl w h

  evaluate_at :
      (s : State) (now later : ℕ) (t : Tracker fl)
      → t.state ≡ s
      → evaluate fl now later t ≡ judge fl s (is_degraded fl t) (is_unhealthy fl t) now later t
  unfolding evaluate
  evaluate_at s now later t e =
      ap (λ x. judge fl x (is_degraded fl t) (is_unhealthy fl t) now later t) e

  judge_degrades :
      (d u : Bool) (now later : ℕ) (t : Tracker fl)
      → t.state ≡ State.healthy
      → d ≡ true
      → u ≡ false
      → let t' = (judge fl State.healthy d u now later t).0 in
        (t'.state ≡ State.degraded) × (t'.healthy_since ≡ t.healthy_since) × (t'.cfg ≡ t.cfg)
  unfolding judge
  judge_degrades d u now later t s p q = (ground arith, ground arith, ground arith)

  evaluate_degrades :
      (now later : ℕ) (t : Tracker fl)
      → t.state ≡ State.healthy
      → is_degraded fl t ≡ true
      → is_unhealthy fl t ≡ false
      → let t' = (evaluate fl now later t).0 in
        (t'.state ≡ State.degraded) × (t'.healthy_since ≡ t.healthy_since) × (t'.cfg ≡ t.cfg)
  evaluate_degrades now later t s p q =
      rw (evaluate_at State.healthy now later t s)
        (judge_degrades (is_degraded fl t) (is_unhealthy fl t) now later t s p q)

  judge_mends :
      (d u : Bool) (since now later : ℕ) (t : Tracker fl)
      → t.state ≡ State.degraded
      → t.healthy_since ≡ some since
      → d ≡ false
      → u ≡ false
      → since + t.cfg.heal_hold ≤ now
      → (judge fl State.degraded d u now later t).0.state ≡ State.healthy
  unfolding judge
  judge_mends d u since now later t s h p q k = ground arith

  record_sample_keeps :
      (dur : ℕ) (failed : Bool) (t : Tracker fl)
      → let t' = record_sample fl dur failed t in
        (t'.state ≡ t.state) × (t'.healthy_since ≡ t.healthy_since) × (t'.cfg ≡ t.cfg)
  unfolding record_sample
  record_sample_keeps dur failed t = (refl, refl, refl)

  -- The time from which a tracker counts as healthy is not forgotten when it degrades. So if it had
  -- been healthy for the length of the hold before, the first sample that exceeds no threshold makes
  -- it healthy again at once, however soon after the degradation that sample comes.
  pub heal_hold_skipped :
      (t : Tracker fl) (since now later dur now' later' : ℕ)
      → t.state ≡ State.healthy
      → t.healthy_since ≡ some since
      → is_degraded fl t ≡ true
      → is_unhealthy fl t ≡ false
      → let t' = (evaluate fl now later t).0 in
        is_degraded fl (record_sample fl dur false t') ≡ false
        → is_unhealthy fl (record_sample fl dur false t') ≡ false
        → since + t.cfg.heal_hold ≤ now'
        → (t'.state ≡ State.degraded)
          × ((observe fl dur false now' later' t').0.state ≡ State.healthy)
  unfolding observe
  heal_hold_skipped t since now later dur now' later' s h d u d' u' k =
      let t' = (evaluate fl now later t).0 in
      let r = record_sample fl dur false t' in
      let (state, kept, cfg) = evaluate_degrades now later t s d u in
      let (state', kept', cfg') = record_sample_keeps dur false t' in
      let hold = ap (λ (c : Limits fl). c.heal_hold) (cfg' ∙ cfg) in
      (
        state,
        rw (evaluate_at State.degraded now' later' r (state' ∙ state)) (
            judge_mends (is_degraded fl r) (is_unhealthy fl r) since now' later' r (state' ∙ state)
              (kept' ∙ kept ∙ h) d' u' (omega arith)),
      )
