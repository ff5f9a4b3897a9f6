-- ===== src/Worker/Startup/Limiter.antt =====
-- qload/qload.go, Dial, as main.go uses it: the breaker stays closed below its threshold.
use ssh_worker.Prelude.{
  ℕ, zero, suc, ◌≤◌, ◌<◌, Bool, true, false, if◌then◌else◌, Option, none, some, [], ◌≡◌, refl, sym,
  ap, subst, arith, if_case,
}
use ssh_worker.Errs.{Error, is_retryable}
use ssh_worker.Qload.{
  QLoad, Attempt, connected, failed, ok, err, World, Run, allow, on_success, on_failure,
  adapt_timeout, give_up, settle, attempts, dial, next_backoff,
}

-- A limiter of a worker of which at most `k` calls have failed: its breaker is closed.
pub record IsClosed (k : ℕ) (q : QLoad) : Type 0 where
  pub threshold : q.cfg.failure_threshold ≡ 5
  pub failures : q.failures ≤ k
  pub closed : q.opened_at ≡ 0

adapt_timeout-IsClosed :
    (k last : ℕ) (good : Bool) (q : QLoad) → IsClosed k q → IsClosed k (adapt_timeout last good q)
unfolding adapt_timeout
adapt_timeout-IsClosed k last good q c =
    if_case (IsClosed k) q.cfg.adaptive_timeout
      (record { threshold = c.threshold; failures = c.failures; closed = c.closed }) c

on_success-IsClosed : (k : ℕ) (q : QLoad) → IsClosed k q → IsClosed k (on_success q)
unfolding on_success
on_success-IsClosed k q c = record {
  threshold = ground (arith, c.threshold);
  failures = ground arith;
  closed = ground (arith, c.closed);
}

on_failure-IsClosed :
    (k now : ℕ) (q : QLoad) → k < 4 → IsClosed k q → IsClosed (suc k) (on_failure now q)
unfolding on_failure
on_failure-IsClosed k now q h c = record {
  threshold = ground (arith, c.threshold);
  failures = ground (arith, c.failures);
  closed = ground (arith, c.closed, c.failures, c.threshold, h);
}

allow-closed : (k now : ℕ) (q : QLoad) → IsClosed k q → allow now q ≡ (q, none)
unfolding allow
allow-closed k now q c = rw (c.closed) refl

pub later-IsClosed : (k : ℕ) (q : QLoad) → IsClosed k q → IsClosed (suc k) q
later-IsClosed k q c = record {
  threshold = c.threshold;
  failures = omega (arith, c.failures);
  closed = c.closed;
}

module _ {C : Type 0} (w : World C) where
  settle_last-IsClosed :
      (k i b : ℕ) (q : QLoad) (a : Attempt C)
      → k < 4
      → IsClosed k q
      → IsClosed (suc k) (settle w i b q none a).state
  unfolding settle give_up
  settle_last-IsClosed k i b q (connected dur c) h v =
      later-IsClosed k _ (adapt_timeout-IsClosed k dur true _ (on_success-IsClosed k q v))
  settle_last-IsClosed k i b q (failed dur e) h v =
      on_failure-IsClosed k w.finish _ h (adapt_timeout-IsClosed k dur false q v)

  settle-IsClosed :
      (k i b : ℕ) (q : QLoad) (f : QLoad → Run C) (a : Attempt C)
      → k < 4
      → IsClosed k q
      → ((q' : QLoad) → IsClosed k q' → IsClosed (suc k) (f q').state)
      → IsClosed (suc k) (settle w i b q (some f) a).state
  unfolding settle give_up
  settle-IsClosed k i b q f (connected dur c) h v ih =
      later-IsClosed k _ (adapt_timeout-IsClosed k dur true _ (on_success-IsClosed k q v))
  settle-IsClosed k i b q f (failed dur e) h v ih =
      let q' = adapt_timeout dur false q in
      let v' = adapt_timeout-IsClosed k dur false q v in
      let stop = on_failure-IsClosed k w.finish q' h v' in
      if_case (λ (r : Run C). IsClosed (suc k) r.state) (is_retryable e)
        (if_case (λ (r : Run C). IsClosed (suc k) r.state) (w.slept i b) (ih q' v') stop) stop

  attempts-IsClosed :
      (k left i timeout b : ℕ) (q : QLoad)
      → k < 4
      → IsClosed k q
      → IsClosed (suc k) (attempts w left i timeout b q).state
  unfolding attempts
  attempts-IsClosed k zero i timeout b q h v = settle_last-IsClosed k i b q (w.call i timeout) h v
  attempts-IsClosed k (suc left) i timeout b q h v =
      settle-IsClosed k i b q
        (λ q'. attempts w left (suc i) timeout (next_backoff b q.cfg.max_backoff) q')
        (w.call i timeout) h v
        (λ q' v'.
          attempts-IsClosed k left (suc i) timeout (next_backoff b q.cfg.max_backoff) q' h v')

  dial_admitted :
      (k : ℕ) (q : QLoad)
      → IsClosed k q
      → dial w q ≡ (
          if w.acquired
          then attempts w q.cfg.max_retries 0 q.current_timeout q.cfg.min_backoff q
          else record { state = q; result = err Error.busy; calls = 0; backoffs = [] })
  unfolding dial
  dial_admitted k q v =
      ap
        (λ (p : QLoad × Option Error). elim p.1 [
          | some e ↦ record { state = p.0; result = err e; calls = 0; backoffs = [] }
          | none ↦
              if w.acquired
              then attempts w p.0.cfg.max_retries 0 p.0.current_timeout p.0.cfg.min_backoff p.0
              else record { state = p.0; result = err Error.busy; calls = 0; backoffs = [] }
        ])
        (allow-closed k w.start q v)

  pub dial-IsClosed : (k : ℕ) (q : QLoad) → k < 4 → IsClosed k q → IsClosed (suc k) (dial w q).state
  dial-IsClosed k q h v =
      subst (λ (r : Run C). IsClosed (suc k) r.state) (sym (dial_admitted k q v))
        (if_case (λ (r : Run C). IsClosed (suc k) r.state) w.acquired
          (attempts-IsClosed k q.cfg.max_retries 0 q.current_timeout q.cfg.min_backoff q h v)
          (later-IsClosed k q v))

  -- A first attempt that connects.
  attempts_connect :
      (left i timeout b dur : ℕ) (q : QLoad) (c : C)
      → w.call i timeout ≡ connected dur c
      → (attempts w left i timeout b q).result ≡ ok c
  unfolding attempts settle
  attempts_connect zero i timeout b dur q c e = rw e refl
  attempts_connect (suc left) i timeout b dur q c e = rw e refl

  pub dial_connects :
      (k dur : ℕ) (q : QLoad) (c : C)
      → IsClosed k q
      → w.acquired ≡ true
      → ((timeout : ℕ) → w.call 0 timeout ≡ connected dur c)
      → (dial w q).result ≡ ok c
  dial_connects k dur q c v a e =
      subst (λ (r : Run C). r.result ≡ ok c) (sym (dial_admitted k q v))
        (subst
          (λ b.
            (if b
              then attempts w q.cfg.max_retries 0 q.current_timeout q.cfg.min_backoff q
              else record { state = q; result = err Error.busy; calls = 0; backoffs = [] }).result
            ≡ ok c)
          (sym a)
          (attempts_connect q.cfg.max_retries 0 q.current_timeout q.cfg.min_backoff dur q c
            (e q.current_timeout)))
