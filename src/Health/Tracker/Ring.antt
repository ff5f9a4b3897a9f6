-- ===== src/Health/Tracker/Ring.antt =====
-- health/tracker.go, Observe: the ring of samples.
use ssh_worker.Prelude.{
  min, sym, ap, ℕ, zero, suc, ◌+◌, ◌-◌, ◌%◌, ◌<◌, ltb, if◌then◌else◌, Bool, true, false, some, List,
  [], ◌∷◌, ◌≡◌, ◌≢◌, ◌⊎◌, inl, inr, arith, get_elem?, length, ◌∙◌, get_elem?-set_self,
  get_elem?-set_ne,
}
use native.Mathlib.Nat.{mod-eq_of_lt, mod_self}
use native.Mathlib.Decide.{dec_lt}
use ssh_worker.Health.State.{State, Floats}
use ssh_worker.Health.Tracker.{
  Config, Tracker, new, record_sample, judge, is_degraded, is_unhealthy, evaluate, observe,
}
use ssh_worker.Health.Tracker.Window.{
  Call, sample, good_probe, bad_probe, reconnect, apply, run, IsValid, observe-IsValid, touch,
  new-IsValid,
}

-- Where in a ring of `size` cells the sample lies that is `k` older than the newest.
pub back : ℕ → ℕ → ℕ → ℕ
back idx size k = if ltb k idx then idx - 1 - k else idx + size - 1 - k

wrap_cases :
    (i n : ℕ) → i < n → ((i + 1 < n) × ((i + 1) % n ≡ i + 1)) ⊎ ((i + 1 ≡ n) × ((i + 1) % n ≡ 0))
wrap_cases i n h = elim (dec_lt (i + 1) n) [
  | yes p ↦ inl (p, mod-eq_of_lt p)
  | no p ↦ let e : i + 1 ≡ n = omega arith in inr (e, rw e (mod_self n))
]

back_newest : (i n : ℕ) → i < n → back ((i + 1) % n) n 0 ≡ i
unfolding back
back_newest i n h = elim (wrap_cases i n h) [
  | inl (p, e) ↦ rw e (ground arith)
  | inr (p, e) ↦ rw e (ground arith)
]

back_older :
    (i n j : ℕ) → i < n → suc j < n → (back ((i + 1) % n) n (suc j) ≡ back i n j) × (i ≢ back i n j)
unfolding back
back_older i n j h k = elim (wrap_cases i n h) [
  | inl (p, e) ↦ rw e (ground arith, ground arith)
  | inr (p, e) ↦ rw e (ground arith, ground arith)
]

module _ (fl : Floats) where
  open fl use {F, millis}

  -- The samples that the calls give, in milliseconds, the newest first, in front of older ones.
  unfoldable pub samples : List Call → List F → List F
  samples [] h = h
  samples (sample dur failed now later ∷ cs) h = samples cs (millis dur ∷ h)
  samples (good_probe rtt now later ∷ cs) h = samples cs (millis rtt ∷ h)
  samples (bad_probe now later ∷ cs) h = samples cs (millis 0 ∷ h)
  samples (reconnect ∷ cs) h = samples cs h

  -- A ring, by its cells, its next index, the number of its samples and its size, holds the newest
  -- samples of a history.
  abbrev pub HoldsIn : List F → ℕ → ℕ → ℕ → List F → Type 0
  HoldsIn w i c n h = (k : ℕ) → k < c → get_elem? w (back i n k) ≡ get_elem? h k

  abbrev pub Holds : Tracker fl → List F → Type 0
  Holds t h =
      (t.count ≡ min (length h) t.cfg.window_size)
      × HoldsIn t.window t.idx t.count t.cfg.window_size h

  record_sample-HoldsIn :
      (dur : ℕ) (failed : Bool) (t : Tracker fl) (h : List F)
      → IsValid fl t
      → HoldsIn t.window t.idx t.count t.cfg.window_size h
      → let t' = record_sample fl dur failed t in
        HoldsIn t'.window t'.idx t'.count t'.cfg.window_size (millis dur ∷ h)
  unfolding record_sample
  record_sample-HoldsIn dur failed t h v r zero k =
      rw (back_newest t.idx t.cfg.window_size v.inside)
        (get_elem?-set_self t.window t.idx (millis dur) (omega (arith, v.sized, v.inside)))
  record_sample-HoldsIn dur failed t h v r (suc j) k =
      let (older, apart) = back_older t.idx t.cfg.window_size j v.inside (ground arith) in
      rw older (get_elem?-set_ne t.window (millis dur) apart ∙ r j (ground arith))

  record_sample-count :
      (dur : ℕ) (failed : Bool) (t : Tracker fl) (n : ℕ)
      → t.count ≡ min n t.cfg.window_size
      → let t' = record_sample fl dur failed t in t'.count ≡ min (suc n) t'.cfg.window_size
  unfolding record_sample
  record_sample-count dur failed t n e = ground arith

  record_sample-Holds :
      (dur : ℕ) (failed : Bool) (t : Tracker fl) (h : List F)
      → IsValid fl t
      → Holds t h
      → Holds (record_sample fl dur failed t) (millis dur ∷ h)
  record_sample-Holds dur failed t h v r =
      (record_sample-count dur failed t (length h) r.0, record_sample-HoldsIn dur failed t h v r.1)

  HoldsIn-transport :
      (h : List F) {w w' : List F} {i i' c c' n n' : ℕ}
      → w ≡ w'
      → i ≡ i'
      → c ≡ c'
      → n ≡ n'
      → HoldsIn w i c n h
      → HoldsIn w' i' c' n' h
  HoldsIn-transport h p q r s hold k lt = rw (← p, ← q, ← s) (hold k (omega arith))

  -- Evaluating leaves the ring alone.
  abbrev SameRing : Tracker fl → Tracker fl → Type 0
  SameRing t t' =
      (t.window ≡ t'.window)
      × (t.idx ≡ t'.idx)
      × (t.count ≡ t'.count)
      × (t.cfg.window_size ≡ t'.cfg.window_size)

  judge-SameRing :
      (s : State) (d u : Bool) (now later : ℕ) (t : Tracker fl)
      → SameRing t (judge fl s d u now later t).0
  unfolding judge
  judge-SameRing State.healthy d u now later t = ground arith
  judge-SameRing State.degraded d u now later t = ground arith
  judge-SameRing State.unhealthy d u now later t = ground arith
  judge-SameRing State.recovering d u now later t = ground arith

  observe-Holds :
      (dur : ℕ) (failed : Bool) (now later : ℕ) (t : Tracker fl) (h : List F)
      → IsValid fl t
      → Holds t h
      → Holds (observe fl dur failed now later t).0 (millis dur ∷ h)
  unfolding observe evaluate
  observe-Holds dur failed now later t h v hold =
      let t' = record_sample fl dur failed t in
      let (p, q, r, s) =
        judge-SameRing t'.state (is_degraded fl t') (is_unhealthy fl t') now later t' in
      let (count, ring) = record_sample-Holds dur failed t h v hold in
      (sym r ∙ count ∙ ap (min (suc (length h))) s, HoldsIn-transport (millis dur ∷ h) p q r s ring)

  new-Holds : (c : Config fl) (now : ℕ) → Holds (new fl c now) []
  unfolding new
  new-Holds c now = (omega arith, λ k h. absurd (omega arith))

  run-Holds_from :
      (cs : List Call) (t : Tracker fl) (h : List F)
      → IsValid fl t
      → Holds t h
      → Holds (run fl cs t) (samples cs h)
  unfolding run samples apply
  run-Holds_from [] t h v hold = hold
  run-Holds_from (sample dur failed now later ∷ cs) t h v hold =
      run-Holds_from cs _ (millis dur ∷ h) (observe-IsValid fl dur failed now later t v)
        (observe-Holds dur failed now later t h v hold)
  run-Holds_from (good_probe rtt now later ∷ cs) t h v hold =
      let v' = touch fl t (some now) (t.probe_ok + 1) t.probe_fail t.reconnects v in
      run-Holds_from cs _ (millis rtt ∷ h) (observe-IsValid fl rtt false now later _ v')
        (observe-Holds rtt false now later _ h v' hold)
  run-Holds_from (bad_probe now later ∷ cs) t h v hold =
      let v' = touch fl t (some now) t.probe_ok (t.probe_fail + 1) t.reconnects v in
      run-Holds_from cs _ (millis 0 ∷ h) (observe-IsValid fl 0 true now later _ v')
        (observe-Holds 0 true now later _ h v' hold)
  run-Holds_from (reconnect ∷ cs) t h v hold =
      run-Holds_from cs _ h (touch fl t t.last_probe t.probe_ok t.probe_fail (t.reconnects + 1) v)
        hold

  -- After any calls of its methods, the ring of a tracker made by New holds the newest samples that
  -- the calls gave, each found by its age, and as many of them as were given and fit; a failed probe
  -- gave the sample 0.
  pub run-Holds :
      (c : Config fl) (start : ℕ) (cs : List Call)
      → Holds (run fl cs (new fl c start)) (samples cs [])
  run-Holds c start cs =
      run-Holds_from cs (new fl c start) [] (new-IsValid fl c start) (new-Holds c start)
