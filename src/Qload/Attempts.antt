-- ===== src/Qload/Attempts.antt =====
-- qload/qload.go, Dial: which attempts are made and what is returned.
use ssh_worker.Prelude.{
  ℕ, zero, suc, ◌+◌, ◌-◌, ◌≤◌, ◌<◌, Bool, true, false, none, some, List, [], ◌≡◌, refl, ◌⊎◌, inl,
  inr, arith, ap, subst, Bool-cases,
}
use native.Mathlib.Decide.{dec_lt}
use ssh_worker.Qload.Bounds.{iterate_backoff}
use ssh_worker.Errs.{Error, is_retryable}
use ssh_worker.Qload.{
  Limits, QLoad, Attempt, connected, failed, Result, ok, err, World, Run, push_backoff, give_up,
  settle, attempts, dial, allow, adapt_timeout, next_backoff,
}

-- An attempt gave what was returned.
abbrev pub Gave : {C : Type 0} → Attempt C → Result C → Type 0
Gave (connected dur c) (ok c') = c ≡ c'
Gave (connected dur c) (err e) = ⊥
Gave (failed dur e) (ok c) = ⊥
Gave (failed dur e) (err e') = e ≡ e'

-- An attempt after which the loop goes on, if the sleep is not cut short.
abbrev pub MayRepeat : {C : Type 0} → Attempt C → Type 0
MayRepeat (connected dur c) = ⊥
MayRepeat (failed dur e) = is_retryable e ≡ true

-- Why the loop was left with an error.
abbrev pub IsFinal : {C : Type 0} → Attempt C → Bool → Type 0
IsFinal (connected dur c) more = Unit
IsFinal (failed dur e) more = (is_retryable e ≡ false) ⊎ (more ≡ false)

self : (i : ℕ) → i - i ≡ 0
self i = omega arith

adapt_timeout-cfg : (last : ℕ) (good : Bool) (q : QLoad) → (adapt_timeout last good q).cfg ≡ q.cfg
unfolding adapt_timeout
adapt_timeout-cfg last good q = ground arith

allow_keeps :
    (now : ℕ) (q : QLoad)
    → ((allow now q).0.cfg ≡ q.cfg) × ((allow now q).0.current_timeout ≡ q.current_timeout)
unfolding allow
allow_keeps now q = ground arith

module _ {C : Type 0} (w : World C) where
  -- What the loop did from attempt `i` on, with `left` more attempts allowed after that one, the
  -- first backoff `b` and the greatest `m`.
  pub record Explains (left i timeout b m : ℕ) (r : Run C) : Type 0 where
    pub last : ℕ
    pub counted : r.calls ≡ suc last
    pub begun : i ≤ last
    pub bounded : last ≤ i + left
    pub gave : Gave (w.call last timeout) r.result
    pub repeated :
        (j : ℕ)
        → i ≤ j
        → j < last
        → MayRepeat (w.call j timeout) × (w.slept j (iterate_backoff (j - i) b m) ≡ true)
    pub stopped :
        (last ≡ i + left)
        ⊎ IsFinal (w.call last timeout) (w.slept last (iterate_backoff (last - i) b m))

  give_up-Explains :
      (left i timeout b m dur : ℕ) (q : QLoad) (x : Error) (slept : List ℕ)
      → w.call i timeout ≡ failed dur x
      → (left ≡ 0) ⊎ IsFinal {C = C} (failed dur x) (w.slept i b)
      → Explains left i timeout b m (give_up w q x (suc i) slept)
  unfolding give_up iterate_backoff
  give_up-Explains left i timeout b m dur q x slept e stop = record {
    last = i;
    counted = refl;
    begun = omega arith;
    bounded = omega arith;
    gave = rw e refl;
    repeated = λ j h k. absurd (omega arith);
    stopped = elim stop [ inl done ↦ inl (omega arith) | inr final ↦ inr (rw (self i, e) final) ];
  }

  later :
      (i j b m : ℕ)
      → i < j
      → iterate_backoff (j - i) b m ≡ iterate_backoff (j - suc i) (next_backoff b m) m
  unfolding iterate_backoff
  later i j b m h = let e : j - i ≡ suc (j - suc i) = omega arith in rw e refl

  push_backoff-Explains :
      (left i timeout b m dur : ℕ) (x : Error) (r : Run C)
      → w.call i timeout ≡ failed dur x
      → is_retryable x ≡ true
      → w.slept i b ≡ true
      → Explains left (suc i) timeout (next_backoff b m) m r
      → Explains (suc left) i timeout b m (push_backoff w b r)
  unfolding iterate_backoff
  push_backoff-Explains left i timeout b m dur x r e retry slept h = record {
    last = h.last;
    counted = h.counted;
    begun = omega arith;
    bounded = omega arith;
    gave = h.gave;
    repeated = λ j p k. elim (dec_lt i j) [
      | yes above ↦ rw (later i j b m above) (h.repeated j above k)
      | no equal ↦
          let same : i ≡ j = omega arith in
          subst
            (λ n. MayRepeat (w.call n timeout) × (w.slept n (iterate_backoff (n - i) b m) ≡ true))
            same (rw (self i, e) (retry, slept))
    ];
    stopped = elim h.stopped [
      | inl done ↦ inl (omega arith)
      | inr final ↦ inr (rw (later i h.last b m h.begun) final)
    ];
  }

  -- One attempt of the loop, whatever it gave.
  settle-Explains :
      (left i timeout b m : ℕ) (q : QLoad) (rest : QLoad → Run C)
      → ((q' : QLoad)
          → q'.cfg ≡ q.cfg
          → Explains left (suc i) timeout (next_backoff b m) m (rest q'))
      → (a : Attempt C) → w.call i timeout ≡ a
      → Explains (suc left) i timeout b m (settle w i b q (some rest) a)
  unfolding settle
  settle-Explains left i timeout b m q rest ih (connected dur c) e = record {
    last = i;
    counted = refl;
    begun = omega arith;
    bounded = omega arith;
    gave = rw e refl;
    repeated = λ j h k. absurd (omega arith);
    stopped = inr (rw e tt);
  }
  settle-Explains left i timeout b m q rest ih (failed dur x) e =
      elim (Bool-cases (is_retryable x)) [
        | inr once ↦ rw once (
            give_up-Explains (suc left) i timeout b m dur (adapt_timeout dur false q) x [] e
              (inr (inl once)))
        | inl retry ↦ elim (Bool-cases (w.slept i b)) [
          | inl slept ↦
              rw (retry, slept)
                (push_backoff-Explains left i timeout b m dur x _ e retry slept
                  (ih (adapt_timeout dur false q) (adapt_timeout-cfg dur false q)))
          | inr cut ↦
              rw (retry, cut)
                (give_up-Explains (suc left) i timeout b m dur (adapt_timeout dur false q) x _ e
                  (inr (inr cut)))
        ]
      ]

  last-Explains :
      (i timeout b m : ℕ) (q : QLoad) (a : Attempt C)
      → w.call i timeout ≡ a
      → Explains 0 i timeout b m (settle w i b q none a)
  unfolding settle
  last-Explains i timeout b m q (connected dur c) e = record {
    last = i;
    counted = refl;
    begun = omega arith;
    bounded = omega arith;
    gave = rw e refl;
    repeated = λ j h k. absurd (omega arith);
    stopped = inl (omega arith);
  }
  last-Explains i timeout b m q (failed dur x) e =
      give_up-Explains 0 i timeout b m dur (adapt_timeout dur false q) x [] e (inl refl)

  pub attempts-Explains :
      (left i timeout b : ℕ) (q : QLoad)
      → Explains left i timeout b q.cfg.max_backoff (attempts w left i timeout b q)
  unfolding attempts
  attempts-Explains zero i timeout b q =
      last-Explains i timeout b q.cfg.max_backoff q (w.call i timeout) refl
  attempts-Explains (suc left) i timeout b q =
      let m = q.cfg.max_backoff in
      settle-Explains left i timeout b m q
        (λ q'. attempts w left (suc i) timeout (next_backoff b m) q')
        (λ q' same.
          subst
            (λ n.
              Explains left (suc i) timeout (next_backoff b m) n
                (attempts w left (suc i) timeout (next_backoff b m) q'))
            (ap (λ (c : Limits). c.max_backoff) same)
            (attempts-Explains left (suc i) timeout (next_backoff b m) q'))
        (w.call i timeout) refl

  -- A call of Dial that the breaker lets through and that takes the semaphore makes attempts until
  -- one connects, its error is not retryable, its sleep is cut short, or max_retries + 1 of them
  -- are made. It returns what the last one gave, after failures that were all retryable and slept;
  -- its attempts have the timeout read at the start, and the backoffs are those of
  -- `iterate_backoff`.
  pub dial-Explains :
      (q : QLoad)
      → (allow w.start q).1 ≡ none
      → w.acquired ≡ true
      → Explains q.cfg.max_retries 0 q.current_timeout q.cfg.min_backoff q.cfg.max_backoff
          (dial w q)
  unfolding dial
  dial-Explains q admitted acquired =
      let q' = (allow w.start q).0 in
      let (same, timeout) = allow_keeps w.start q in
      simp (admitted, acquired, dial)
        (subst
          (λ c.
            Explains c.max_retries 0 q.current_timeout c.min_backoff c.max_backoff
              (attempts w q'.cfg.max_retries 0 q'.current_timeout q'.cfg.min_backoff q'))
          same
          (subst
            (λ t.
              Explains q'.cfg.max_retries 0 t q'.cfg.min_backoff q'.cfg.max_backoff
                (attempts w q'.cfg.max_retries 0 q'.current_timeout q'.cfg.min_backoff q'))
            timeout
            (attempts-Explains q'.cfg.max_retries 0 q'.current_timeout q'.cfg.min_backoff q')))
