-- ===== src/Qload/Breaker.antt =====
-- qload/qload.go: the circuit breaker, one call after another.
use ssh_worker.Prelude.{
  ℕ, zero, suc, ◌+◌, ◌<◌, List, [], ◌∷◌, ◌≡◌, ◌≢◌, refl, arith, All, get_or, sym, ◌∙◌, ap,
}
use ssh_worker.Qload.{Limits, QLoad, on_failure}

-- A row of failures, by the times at which they are counted.
unfoldable pub fail_all : List ℕ → QLoad → QLoad
fail_all [] q = q
fail_all (now ∷ ts) q = fail_all ts (on_failure now q)

on_failure-cfg : (now : ℕ) (q : QLoad) → (on_failure now q).cfg ≡ q.cfg
unfolding on_failure
on_failure-cfg now q = ground arith

on_failure_open :
    (now : ℕ) (q : QLoad) → q.opened_at ≢ 0 → (on_failure now q).opened_at ≡ q.opened_at
unfolding on_failure
on_failure_open now q h = ground arith

on_failure_trips :
    (now : ℕ) (q : QLoad)
    → q.opened_at ≡ 0
    → q.failures + 1 ≡ q.cfg.failure_threshold
    → q.cfg.failure_threshold < 2147483648
    → (on_failure now q).opened_at ≡ now
unfolding on_failure
on_failure_trips now q o f t = ground arith

on_failure_counts :
    (now : ℕ) (q : QLoad)
    → q.opened_at ≡ 0
    → q.failures + 1 < q.cfg.failure_threshold
    → q.cfg.failure_threshold < 2147483648
    → ((on_failure now q).opened_at ≡ 0) × ((on_failure now q).failures ≡ q.failures + 1)
unfolding on_failure
on_failure_counts now q o f t = ground arith

fail_all_open :
    (ts : List ℕ) (q : QLoad) → q.opened_at ≢ 0 → (fail_all ts q).opened_at ≡ q.opened_at
unfolding fail_all
fail_all_open [] q h = refl
fail_all_open (now ∷ ts) q h =
    let same = on_failure_open now q h in
    fail_all_open ts (on_failure now q) (λ e. h (sym same ∙ e)) ∙ same

-- A closed breaker that has counted fewer failures than its threshold is opened by the failure
-- that reaches the threshold, at the time of that failure, and stays closed before; `missing` more
-- failures are needed. The times are not 0 and the threshold is a positive int32.
pub fail_all_lem :
    (ts : List ℕ) (q : QLoad) (missing : ℕ)
    → q.opened_at ≡ 0
    → q.failures + suc missing ≡ q.cfg.failure_threshold
    → q.cfg.failure_threshold < 2147483648
    → All (λ t. 0 < t) ts
    → (fail_all ts q).opened_at ≡ get_or ts missing 0
unfolding fail_all
fail_all_lem [] q missing o f t h = o
fail_all_lem (now ∷ ts) q zero o f t h =
    let trips = on_failure_trips now q o f t in
    fail_all_open ts (on_failure now q) (omega (arith, h.0)) ∙ trips
fail_all_lem (now ∷ ts) q (suc k) o f t h =
    let (closed, counted) = on_failure_counts now q o (omega arith) t in
    let same = ap (λ (c : Limits). c.failure_threshold) (on_failure-cfg now q) in
    fail_all_lem ts (on_failure now q) k closed (omega arith) (omega arith) h.1
