-- ===== src/Health/Tracker/Window.antt =====
-- health/tracker.go: what holds of a tracker after any calls of its methods.
use ssh_worker.Prelude.{
  ℕ, ◌+◌, ◌%◌, ◌≤◌, ◌<◌, Bool, true, false, Option, some, List, [], ◌∷◌, ◌≡◌, ◌≢◌, refl, arith,
  length, length-set, length-replicate, ◌∙◌,
}
use native.Mathlib.Nat.{mod-eq_of_lt, mod-lt}
use ssh_worker.Prelude.Int.{positive_or, positive_or-pos}
use ssh_worker.Health.State.{State, Floats}
use ssh_worker.Health.Tracker.{
  Config, Tracker, new, record_sample, judge, is_degraded, is_unhealthy, evaluate, observe,
  probe_ok, probe_fail, inc_reconnect, is_unset,
}

-- A call of a method of the tracker, with what the clock read during it.
pub data Call : Type 0 where
  sample : ℕ → Bool → ℕ → ℕ → Call
  good_probe : ℕ → ℕ → ℕ → Call
  bad_probe : ℕ → ℕ → Call
  reconnect : Call

module _ (fl : Floats) where
  open fl use {F, millis}

  unfoldable pub apply : Call → Tracker fl → Tracker fl
  unfolding observe probe_ok probe_fail inc_reconnect
  apply (sample dur failed now later) t = (observe fl dur failed now later t).0
  apply (good_probe rtt now later) t = (probe_ok fl rtt now later t).0
  apply (bad_probe now later) t = (probe_fail fl now later t).0
  apply reconnect t = inc_reconnect fl t

  unfoldable pub run : List Call → Tracker fl → Tracker fl
  run [] t = t
  run (c ∷ cs) t = run cs (apply c t)

  pub record IsValid (t : Tracker fl) : Type 0 where
    pub positive : 0 < t.cfg.window_size
    pub sized : length t.window ≡ t.cfg.window_size
    pub inside : t.idx < t.cfg.window_size
    pub counted : t.count ≤ t.cfg.window_size
    pub filling : t.count < t.cfg.window_size → t.idx ≡ t.count
    pub known : t.state ≢ State.recovering
    pub since : t.state ≡ State.degraded → is_unset t.degraded_since ≡ false

  next_index : (i c n : ℕ) → i < n → (c < n → i ≡ c) → c + 1 < n → (i + 1) % n ≡ c + 1
  next_index i c n h e k = rw (e (omega arith)) (mod-eq_of_lt k)

  record_sample-IsValid :
      (dur : ℕ) (failed : Bool) (t : Tracker fl)
      → IsValid t
      → IsValid (record_sample fl dur failed t)
  unfolding record_sample
  record_sample-IsValid dur failed t v = record {
    positive = v.positive;
    sized = length-set t.window t.idx (millis dur) ∙ v.sized;
    inside = mod-lt (t.idx + 1) v.positive;
    counted = ground arith;
    filling = λ h. ground (arith, next_index t.idx t.count t.cfg.window_size v.inside v.filling);
    known = v.known;
    since = v.since;
  }

  judge-IsValid :
      (s : State) (d u : Bool) (now later : ℕ) (t : Tracker fl)
      → t.state ≡ s
      → IsValid t
      → IsValid (judge fl s d u now later t).0
  unfolding judge
  judge-IsValid State.healthy d u now later t e v = ground arith
  judge-IsValid State.degraded d u now later t e v = ground arith
  judge-IsValid State.unhealthy d u now later t e v = ground arith
  judge-IsValid State.recovering d u now later t e v = ground arith

  evaluate-IsValid :
      (now later : ℕ) (t : Tracker fl) → IsValid t → IsValid (evaluate fl now later t).0
  unfolding evaluate
  evaluate-IsValid now later t v =
      judge-IsValid t.state (is_degraded fl t) (is_unhealthy fl t) now later t refl v

  pub observe-IsValid :
      (dur : ℕ) (failed : Bool) (now later : ℕ) (t : Tracker fl)
      → IsValid t
      → IsValid (observe fl dur failed now later t).0
  unfolding observe
  observe-IsValid dur failed now later t v =
      evaluate-IsValid now later _ (record_sample-IsValid dur failed t v)

  -- Counting a probe or a reconnect touches no field that the invariant names.
  pub touch :
      (t : Tracker fl) (last : Option ℕ) (ok_ bad re : ℕ)
      → IsValid t
      → IsValid (record t { last_probe = last; probe_ok = ok_; probe_fail = bad; reconnects = re })
  touch t last ok_ bad re v = record {
    positive = v.positive;
    sized = v.sized;
    inside = v.inside;
    counted = v.counted;
    filling = v.filling;
    known = v.known;
    since = v.since;
  }

  apply-IsValid : (c : Call) (t : Tracker fl) → IsValid t → IsValid (apply c t)
  unfolding apply
  apply-IsValid (sample dur failed now later) t v = observe-IsValid dur failed now later t v
  apply-IsValid (good_probe rtt now later) t v =
      observe-IsValid rtt false now later _
        (touch t (some now) (t.probe_ok + 1) t.probe_fail t.reconnects v)
  apply-IsValid (bad_probe now later) t v =
      observe-IsValid 0 true now later _
        (touch t (some now) t.probe_ok (t.probe_fail + 1) t.reconnects v)
  apply-IsValid reconnect t v = touch t t.last_probe t.probe_ok t.probe_fail (t.reconnects + 1) v

  run-IsValid_from : (cs : List Call) (t : Tracker fl) → IsValid t → IsValid (run cs t)
  unfolding run
  run-IsValid_from [] t v = v
  run-IsValid_from (c ∷ cs) t v = run-IsValid_from cs (apply c t) (apply-IsValid c t v)

  pub new-IsValid : (c : Config fl) (now : ℕ) → IsValid (new fl c now)
  unfolding new
  new-IsValid c now =
      let size = positive_or-pos c.window_size 50 (omega arith) in
      record {
        positive = size;
        sized = length-replicate (positive_or c.window_size 50) fl.zero;
        inside = size;
        counted = omega arith;
        filling = λ h. refl;
        known = λ e. cc;
        since = λ e. cc;
      }

  -- After any calls of its methods, a tracker made by New keeps its ring in bounds, counts no more
  -- samples than the ring has cells, knows since when it is degraded if it is, and never is in the
  -- state recovering.
  pub run-IsValid : (c : Config fl) (start : ℕ) (cs : List Call) → IsValid (run cs (new fl c start))
  run-IsValid c start cs = run-IsValid_from cs (new fl c start) (new-IsValid c start)
