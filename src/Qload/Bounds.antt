-- ===== src/Qload/Bounds.antt =====
-- qload/qload.go: the ranges of the adaptive timeout and of the backoff.
use ssh_worker.Prelude.{
  ℕ, zero, suc, ◌*◌, ◌/◌, ◌^◌, ◌≤◌, ◌<◌, min, max, Bool, ◌≡◌, arith, Bool-cases, ltb, ltb→lt, inl,
  inr,
}
use native.Mathlib.Nat.{pow-suc}
use ssh_worker.Qload.{
  Config, QLoad, new, second, target_timeout, towards, grown_timeout, adapt_timeout, next_backoff,
  jittered,
}

-- The timeout lies between the least of three seconds, the configured timeout and the greatest
-- backoff, and the greater of the last two.
pub record InRange (q : QLoad) : Type 0 where
  pub low : min (min (3 * second) q.cfg.timeout) q.cfg.max_backoff ≤ q.current_timeout
  pub high : q.current_timeout ≤ max q.cfg.timeout q.cfg.max_backoff

pub target_timeout_bounds :
    (last timeout : ℕ)
    → (min (3 * second) timeout ≤ target_timeout last timeout)
      × (target_timeout last timeout ≤ timeout)
unfolding target_timeout
target_timeout_bounds last timeout = ground arith

pub towards_bounds :
    (cur target : ℕ) → (min cur target ≤ towards cur target) × (towards cur target ≤ max cur target)
unfolding towards
towards_bounds cur target = ground arith

pub grown_timeout_bounds :
    (cur m : ℕ) → (min cur m ≤ grown_timeout cur m) × (grown_timeout cur m ≤ m)
unfolding grown_timeout
grown_timeout_bounds cur m = ground arith

adapt_ok :
    (last cur timeout m : ℕ)
    → min (min (3 * second) timeout) m ≤ cur
    → cur ≤ max timeout m
    → (min (min (3 * second) timeout) m ≤ towards cur (target_timeout last timeout))
      × (towards cur (target_timeout last timeout) ≤ max timeout m)
adapt_ok last cur timeout m l h = omega (
  arith,
  (target_timeout_bounds last timeout).0,
  (target_timeout_bounds last timeout).1,
  (towards_bounds cur (target_timeout last timeout)).0,
  (towards_bounds cur (target_timeout last timeout)).1,
)

adapt_fail :
    (cur timeout m : ℕ)
    → min (min (3 * second) timeout) m ≤ cur
    → cur ≤ max timeout m
    → (min (min (3 * second) timeout) m ≤ grown_timeout cur m)
      × (grown_timeout cur m ≤ max timeout m)
adapt_fail cur timeout m l h =
    omega (arith, (grown_timeout_bounds cur m).0, (grown_timeout_bounds cur m).1)

-- Every adjustment of the timeout, after a success or a failure and whatever the duration, keeps
-- it in its range.
pub adapt_timeout-InRange :
    (last : ℕ) (ok : Bool) (q : QLoad) → InRange q → InRange (adapt_timeout last ok q)
unfolding adapt_timeout
adapt_timeout-InRange last ok q h = ground (
  arith,
  adapt_ok last q.current_timeout q.cfg.timeout q.cfg.max_backoff,
  adapt_fail q.current_timeout q.cfg.timeout q.cfg.max_backoff,
)

pub new-InRange : (c : Config) → InRange (new c)
unfolding new
new-InRange c = record { low = omega arith; high = omega arith }

-- The backoff after k failed attempts.
unfoldable pub iterate_backoff : ℕ → ℕ → ℕ → ℕ
iterate_backoff zero b m = b
iterate_backoff (suc k) b m = iterate_backoff k (next_backoff b m) m

double_pow : (b k : ℕ) → b * 2 * 2 ^ k ≡ b * 2 ^ suc k
double_pow b k = rw (pow-suc 2 k) (omega arith)

le-mul_pow : (a k : ℕ) → a ≤ a * 2 ^ k
le-mul_pow a zero = omega arith
le-mul_pow a (suc k) = rw (pow-suc 2 k) (omega (arith, le-mul_pow a k))

-- The backoff that is slept after k failures is the first one doubled k times, but never more than
-- the configured maximum, where the first one does not pass it.
pub iterate_backoff_lem : (k b m : ℕ) → b ≤ m → iterate_backoff k b m ≡ min (b * 2 ^ k) m
unfolding iterate_backoff next_backoff
iterate_backoff_lem zero b m h = omega arith
iterate_backoff_lem (suc k) b m h = elim (Bool-cases (ltb m (b * 2))) [
  | inl capped ↦ rw capped (
      omega (
        arith,
        iterate_backoff_lem k m m,
        le-mul_pow m k,
        le-mul_pow (b * 2) k,
        double_pow b k,
        ltb→lt m (b * 2) capped,
      ))
  | inr free ↦
      rw free (omega (arith, iterate_backoff_lem k (b * 2) m (ground arith), double_pow b k))
]

-- A jittered sleep of a positive backoff takes at least half of it and at most all of it.
pub jittered_bounds : (d r : ℕ) → 0 < d → (d / 2 ≤ jittered d r) × (jittered d r ≤ d)
unfolding jittered
jittered_bounds d r h = ground arith
