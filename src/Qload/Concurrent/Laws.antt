-- ===== src/Qload/Concurrent/Laws.antt =====
-- qload/qload.go: what calls of Dial that overlap keep, and where they break the breaker.
use ssh_worker.Prelude.{
  ℕ, zero, suc, ◌+◌, ◌%◌, ◌==◌, ltb, if◌then◌else◌, ◌&&◌, ◌≤◌, ◌<◌, ◌⊎◌, inl, inr, Bool, true,
  false, min, max, ◌*◌, some, List, [], ◌∷◌, All, get_elem?, ◌≡◌, ◌≢◌, refl, subst, sym, ap, ◌∙◌,
  arith, Bool-cases,
}
use ssh_worker.Prelude.Int.{positive_or-pos}
use ssh_worker.Errs.{Error}
use ssh_worker.Qload.{Config, Limits, QLoad, new, allow, on_success, adapt_timeout, second}
use ssh_worker.Qload.Bounds.{adapt_timeout-InRange, new-InRange}
use ssh_worker.Qload.Concurrent.{
  Pool, reaches, acquire, release, retake, reset, swap_failures, swap_opened, add_failure,
  open_breaker, remove_at, store_timeout, Step, pass, retakes, resets, enter, time_out, loads,
  stores, succeeds, closes, fails, opens, leaves, Reach, here, next,
}

-- An int32 below the threshold.
abbrev pub IsBelow : ℕ → ℕ → Type 0
IsBelow failures threshold = (failures < threshold) ⊎ (2147483648 ≤ failures)

-- A timeout in the range of the adaptive one.
abbrev pub Fits : Limits → ℕ → Type 0
Fits c v = (min (min (3 * second) c.timeout) c.max_backoff ≤ v) × (v ≤ max c.timeout c.max_backoff)

pub record IsValid (p : Pool) : Type 0 where
  pub threshold : 0 < p.load.cfg.failure_threshold
  pub held : p.load.in_flight ≡ p.dialling + p.closing + p.opening + p.leaving
  pub capped : p.load.in_flight ≤ p.load.cfg.concurrency
  pub counted :
      p.load.opened_at ≡ 0
      → IsBelow p.load.failures p.load.cfg.failure_threshold
        ⊎ (0 < p.opening + p.resetting + p.late)
  pub timeout : Fits p.load.cfg p.load.current_timeout
  pub loaded : All (Fits p.load.cfg) p.loaded

All-remove_at : (P : ℕ → Type 0) (i : ℕ) (vs : List ℕ) → All P vs → All P (remove_at i vs)
All-remove_at P i [] a = tt
All-remove_at P zero (v ∷ vs) a = a.1
All-remove_at P (suc i) (v ∷ vs) a = (a.0, All-remove_at P i vs a.1)

All-get : (P : ℕ → Type 0) (i v : ℕ) (vs : List ℕ) → All P vs → get_elem? vs i ≡ some v → P v
All-get P i v [] a e = absurd (ground arith)
All-get P zero v (w ∷ vs) a e = subst P (cc) a.0
All-get P (suc i) v (w ∷ vs) a e = All-get P i v vs a.1 e

acquire-IsValid :
    (p : Pool) → p.load.in_flight < p.load.cfg.concurrency → IsValid p → IsValid (acquire p)
unfolding acquire
acquire-IsValid p h v = record {
  threshold = v.threshold;
  held = omega (arith, v.held);
  capped = omega (arith, h);
  counted = v.counted;
  timeout = v.timeout;
  loaded = v.loaded;
}

release-IsValid : (p : Pool) → 0 < p.leaving → IsValid p → IsValid (release p)
unfolding release
release-IsValid p h v = record {
  threshold = v.threshold;
  held = omega (arith, v.held, h);
  capped = omega (arith, v.capped);
  counted = v.counted;
  timeout = v.timeout;
  loaded = v.loaded;
}

retake-IsValid : (p : Pool) → IsValid p → IsValid (retake p)
unfolding retake
retake-IsValid p v = record {
  threshold = v.threshold;
  held = v.held;
  capped = v.capped;
  counted = λ e. inr (omega arith);
  timeout = v.timeout;
  loaded = v.loaded;
}

reset-IsValid : (p : Pool) → IsValid p → IsValid (reset p)
unfolding reset
reset-IsValid p v = record {
  threshold = v.threshold;
  held = v.held;
  capped = v.capped;
  counted = λ e. inl (inl v.threshold);
  timeout = v.timeout;
  loaded = v.loaded;
}

swap_failures-IsValid : (p : Pool) → 0 < p.dialling → IsValid p → IsValid (swap_failures p)
unfolding swap_failures
swap_failures-IsValid p h v =
    elim (Bool-cases (ltb 0 p.load.failures && ltb p.load.failures 2147483648)) [
      | inl b ↦ rw b (record {
        threshold = v.threshold;
        held = omega (arith, v.held, h);
        capped = v.capped;
        counted = λ e. inl (inl v.threshold);
        timeout = v.timeout;
        loaded = v.loaded;
      })
      | inr b ↦ rw b (record {
        threshold = v.threshold;
        held = omega (arith, v.held, h);
        capped = v.capped;
        counted = λ e. inl (inl v.threshold);
        timeout = v.timeout;
        loaded = v.loaded;
      })
    ]

below_or_reaches : (n t late : ℕ) → IsBelow n t ⊎ (0 < (if reaches n t then late + 1 else late))
below_or_reaches n t late = elim (Bool-cases (reaches n t)) [
  | inl b ↦ inr (rw b (omega arith))
  | inr b ↦ inl (ground (arith, b))
]

swap_opened-IsValid : (p : Pool) → 0 < p.closing → IsValid p → IsValid (swap_opened p)
unfolding swap_opened
swap_opened-IsValid p h v = record {
  threshold = v.threshold;
  held = omega (arith, v.held, h);
  capped = v.capped;
  counted = λ e. elim (below_or_reaches p.load.failures p.load.cfg.failure_threshold p.late) [
    | inl b ↦ inl b
    | inr b ↦ inr (omega (arith, b))
  ];
  timeout = v.timeout;
  loaded = v.loaded;
}

not_reaches : (n t : ℕ) → reaches n t ≡ false → IsBelow n t
not_reaches n t h = ground (arith, h)

add_failure-IsValid : (p : Pool) → 0 < p.dialling → IsValid p → IsValid (add_failure p)
unfolding add_failure
add_failure-IsValid p h v =
    elim (Bool-cases (reaches ((p.load.failures + 1) % 4294967296) p.load.cfg.failure_threshold)) [
      | inl b ↦ rw b (record {
        threshold = v.threshold;
        held = omega (arith, v.held, h);
        capped = v.capped;
        counted = λ e. inr (omega arith);
        timeout = v.timeout;
        loaded = v.loaded;
      })
      | inr b ↦ rw b (record {
        threshold = v.threshold;
        held = omega (arith, v.held, h);
        capped = v.capped;
        counted = λ e. inl (not_reaches _ _ b);
        timeout = v.timeout;
        loaded = v.loaded;
      })
    ]

stays_open : (o now : ℕ) → 0 < now → (if o == 0 then now else o) ≢ 0
stays_open o now h e = ground (arith, h, e)

open_breaker-IsValid :
    (now : ℕ) (p : Pool) → 0 < now → 0 < p.opening → IsValid p → IsValid (open_breaker now p)
unfolding open_breaker
open_breaker-IsValid now p n h v = record {
  threshold = v.threshold;
  held = omega (arith, v.held, h);
  capped = v.capped;
  counted = λ e. absurd (stays_open p.load.opened_at now n e);
  timeout = v.timeout;
  loaded = v.loaded;
}

adapt_timeout-cfg : (dur : ℕ) (good : Bool) (q : QLoad) → (adapt_timeout dur good q).cfg ≡ q.cfg
unfolding adapt_timeout
adapt_timeout-cfg dur good q = ground arith

adapt-Fits :
    (dur : ℕ) (good : Bool) (q : QLoad) (v : ℕ)
    → Fits q.cfg v
    → Fits q.cfg (adapt_timeout dur good (record q { current_timeout = v })).current_timeout
adapt-Fits dur good q v f =
    let r =
      adapt_timeout-InRange dur good (record q { current_timeout = v })
        (record { low = f.0; high = f.1 }) in
    subst (λ c. Fits c (adapt_timeout dur good (record q { current_timeout = v })).current_timeout)
      (adapt_timeout-cfg dur good (record q { current_timeout = v })) (r.low, r.high)

store_timeout-IsValid :
    (i dur : ℕ) (good : Bool) (x : ℕ) (p : Pool)
    → get_elem? p.loaded i ≡ some x
    → IsValid p
    → IsValid (store_timeout i dur good x p)
unfolding store_timeout
store_timeout-IsValid i dur good x p e v = record {
  threshold = v.threshold;
  held = v.held;
  capped = v.capped;
  counted = v.counted;
  timeout = adapt-Fits dur good p.load x (All-get (Fits p.load.cfg) i x p.loaded v.loaded e);
  loaded = All-remove_at (Fits p.load.cfg) i p.loaded v.loaded;
}

same-IsValid : (p : Pool) (n : ℕ) → IsValid p → IsValid (record p { waiting = n })
same-IsValid p n v = record {
  threshold = v.threshold;
  held = v.held;
  capped = v.capped;
  counted = v.counted;
  timeout = v.timeout;
  loaded = v.loaded;
}

Step-IsValid : {p r : Pool} → Step p r → IsValid p → IsValid r
Step-IsValid (pass p h) v = same-IsValid p _ v
Step-IsValid (retakes p now o h) v = retake-IsValid p v
Step-IsValid (resets p h) v = reset-IsValid p v
Step-IsValid (enter p w h) v = acquire-IsValid p h v
Step-IsValid (time_out p w) v = same-IsValid p _ v
Step-IsValid (loads p h a) v = record {
  threshold = v.threshold;
  held = v.held;
  capped = v.capped;
  counted = v.counted;
  timeout = v.timeout;
  loaded = (v.timeout, v.loaded);
}
Step-IsValid (stores p i x dur good e) v = store_timeout-IsValid i dur good x p e v
Step-IsValid (succeeds p h) v = swap_failures-IsValid p h v
Step-IsValid (closes p h) v = swap_opened-IsValid p h v
Step-IsValid (fails p h) v = add_failure-IsValid p h v
Step-IsValid (opens p now n h) v = open_breaker-IsValid now p n h v
Step-IsValid (leaves p h) v = release-IsValid p h v

-- Whatever calls of Dial overlap and however their atomic operations are interleaved, from any valid
-- state: the semaphore is held by exactly the calls behind it that have not left, and by at most
-- `concurrency`; the adaptive timeout stays in its range; and a closed breaker has counted fewer
-- failures than its threshold, unless a call is about to open it or to reset the failures, or a
-- success has made its second swap late, when there were as many failures again.
pub Reach-IsValid : {p r : Pool} → IsValid p → Reach p r → IsValid r
Reach-IsValid v here = v
Reach-IsValid v (next s t) = Step-IsValid t (Reach-IsValid v s)

abbrev pub no_calls : QLoad → Pool
no_calls q = record {
  load = q;
  waiting = 0;
  resetting = 0;
  dialling = 0;
  closing = 0;
  opening = 0;
  leaving = 0;
  loaded = [];
  late = 0;
}

-- New makes a valid state.
pub new-IsValid : (c : Config) → IsValid (no_calls (new c))
unfolding new
new-IsValid c =
    let r = new-InRange c in
    record {
      threshold = positive_or-pos c.failure_threshold 5 (omega arith);
      held = refl;
      capped = omega arith;
      counted = λ e. inl (inl (positive_or-pos c.failure_threshold 5 (omega arith)));
      timeout = (r.low, r.high);
      loaded = tt;
    }

add_failure-reaches :
    (p : Pool)
    → reaches ((p.load.failures + 1) % 4294967296) p.load.cfg.failure_threshold ≡ true
    → let r = add_failure p in
      (r.opening ≡ p.opening + 1)
      × (r.closing ≡ p.closing)
      × (r.load.failures ≡ (p.load.failures + 1) % 4294967296)
      × (r.load.cfg ≡ p.load.cfg)
unfolding add_failure
add_failure-reaches p b = rw b (refl, refl, refl, refl)

reaches_itself : (n t : ℕ) → n ≡ t → t < 2147483648 → reaches n t ≡ true
reaches_itself n t e h = ground (arith, e, h)

-- A success between its two swaps, and a failure that is the last one to the threshold: the breaker
-- is opened, and the second swap closes it with as many failures as the threshold.
pub Reach-closed_at_threshold :
    (p : Pool)
    → 0 < p.closing
    → 0 < p.dialling
    → suc p.load.failures ≡ p.load.cfg.failure_threshold
    → p.load.cfg.failure_threshold < 2147483648
    → (r : Pool) × Reach p r
      × (r.load.opened_at ≡ 0)
      × (r.load.failures ≡ r.load.cfg.failure_threshold)
unfolding swap_opened open_breaker
Reach-closed_at_threshold p c d f t =
    let n : (p.load.failures + 1) % 4294967296 ≡ p.load.cfg.failure_threshold =
      omega (arith, f, t) in
    let (opening, closing, failures, cfg) = add_failure-reaches p (reaches_itself _ _ n t) in
    (
      swap_opened (open_breaker 1 (add_failure p)),
      next
          (next (next here (fails p d))
            (opens (add_failure p) 1 (omega arith) (omega (arith, opening))))
          (closes (open_breaker 1 (add_failure p)) (omega (arith, closing, c))),
      refl,
      failures ∙ n ∙ sym (ap (λ (x : Limits). x.failure_threshold) cfg),
    )

-- A success that finds failures counted while the breaker is open, as calls that overlap can do,
-- forgets the failures and leaves the breaker open: until the cooldown has passed every call is
-- still refused.
pub allow-on_success_open :
    (now : ℕ) (q : QLoad)
    → 0 < q.failures
    → q.failures < 2147483648
    → q.opened_at ≢ 0
    → now ≤ q.opened_at + q.cfg.cooldown
    → ((on_success q).failures ≡ 0) × ((allow now (on_success q)).1 ≡ some Error.circuit_open)
unfolding on_success allow
allow-on_success_open now q f s o t = (ground arith, ground arith)
