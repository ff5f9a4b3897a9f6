-- ===== src/Qload.antt =====
-- qload/qload.go: the dial limiter. A semaphore, retries with backoff, a circuit breaker and an
-- adaptive timeout. Durations and clock readings are nanoseconds.
mod Examples
pub mod Bounds
pub mod Breaker
pub mod Attempts
pub mod Concurrent
use ssh_worker.Prelude.{
  ℕ, zero, suc, ◌+◌, ◌-◌, ◌*◌, ◌/◌, ◌%◌, ltb, leb, ◌==◌, if◌then◌else◌, Bool, true, false, ◌&&◌,
  Option, none, some, List, [], ◌∷◌,
}
use ssh_worker.Prelude.Int.{ℤ, positive_or, nonneg_or}
use ssh_worker.Errs.{Error, is_retryable}

pub record Config : Type 0 where
  pub max_retries : ℤ
  pub concurrency : ℤ
  pub timeout : ℤ
  pub sem_timeout : ℤ
  pub min_backoff : ℤ
  pub max_backoff : ℤ
  pub failure_threshold : ℤ
  pub cooldown : ℤ
  pub adaptive_timeout : Bool

-- The configuration as New leaves it: no field is negative any more.
pub record Limits : Type 0 where
  pub max_retries : ℕ
  pub concurrency : ℕ
  pub timeout : ℕ
  pub sem_timeout : ℕ
  pub min_backoff : ℕ
  pub max_backoff : ℕ
  pub failure_threshold : ℕ  -- int32
  pub cooldown : ℕ
  pub adaptive_timeout : Bool

abbrev pub millisecond : ℕ
millisecond = 1_000_000

abbrev pub second : ℕ
second = 1_000_000_000

unfoldable pub defaults : Config → Limits
defaults c = record {
  max_retries = nonneg_or c.max_retries 3;
  concurrency = positive_or c.concurrency 10;
  timeout = positive_or c.timeout (15 * second);
  sem_timeout = positive_or c.sem_timeout (5 * second);
  min_backoff = positive_or c.min_backoff (300 * millisecond);
  max_backoff = positive_or c.max_backoff (10 * second);
  failure_threshold = positive_or c.failure_threshold 5;
  cooldown = positive_or c.cooldown (15 * second);
  adaptive_timeout = c.adaptive_timeout;
}

pub record QLoad : Type 0 where
  pub cfg : Limits
  pub in_flight : ℕ  -- len(sem)
  pub failures : ℕ  -- int32, as its bit pattern
  pub opened_at : ℕ  -- 0 while the breaker is closed
  pub current_timeout : ℕ

unfoldable pub new : Config → QLoad
unfolding defaults
new c = record {
  cfg = defaults c;
  in_flight = 0;
  failures = 0;
  opened_at = 0;
  current_timeout = (defaults c).timeout;
}

unfoldable pub allow : ℕ → QLoad → QLoad × Option Error
allow now q =
    if q.opened_at == 0
    then (q, none)
    else if ltb (q.opened_at + q.cfg.cooldown) now
    then (record q { opened_at = 0; failures = 0 }, none)
    else (q, some Error.circuit_open)

-- `failures.Swap(0) > 0 || openedAt.Swap(0) != 0`: the second swap is not made if the first test
-- holds. The sign bit of the int32 is read.
unfoldable pub on_success : QLoad → QLoad
on_success q =
    if ltb 0 q.failures && ltb q.failures 2147483648
    then record q { failures = 0 }
    else record q { failures = 0; opened_at = 0 }

unfoldable pub on_failure : ℕ → QLoad → QLoad
on_failure now q =
    let n = (q.failures + 1) % 4294967296 in
    if ltb n 2147483648 && leb q.cfg.failure_threshold n && q.opened_at == 0
    then record q { failures = n; opened_at = now }
    else record q { failures = n }

-- The clamp of `target` in adaptTimeout.
unfoldable pub target_timeout : ℕ → ℕ → ℕ
target_timeout last timeout =
    let raised = if ltb (last * 2) (3 * second) then 3 * second else last * 2 in
    if ltb timeout raised then timeout else raised

-- `cur - (cur-target)/4`: the division of Go rounds towards zero, also below zero.
unfoldable pub towards : ℕ → ℕ → ℕ
towards cur target = if leb target cur then cur - (cur - target) / 4 else cur + (target - cur) / 4

unfoldable pub grown_timeout : ℕ → ℕ → ℕ
grown_timeout cur max_backoff =
    let next = cur + cur / 4 in if ltb max_backoff next then max_backoff else next

unfoldable pub adapt_timeout : ℕ → Bool → QLoad → QLoad
unfolding target_timeout towards grown_timeout
adapt_timeout last ok q =
    if q.cfg.adaptive_timeout
    then record q {
      current_timeout =
          if ok
          then towards q.current_timeout (target_timeout last q.cfg.timeout)
          else grown_timeout q.current_timeout q.cfg.max_backoff;
    }
    else q

unfoldable pub next_backoff : ℕ → ℕ → ℕ
next_backoff cur max = let n = cur * 2 in if ltb max n then max else n

-- sleepJitter sleeps `d/2 + j` for some `j` below `d/2 + 1`; `r` is the random number.
unfoldable pub jittered : ℕ → ℕ → ℕ
jittered d r = let d' = if d == 0 then 10 * millisecond else d in d' / 2 + r % (d' / 2 + 1)

-- What one call of the dial function gave, and how long it took.
pub data Attempt (C : Type 0) : Type 0 where
  connected : ℕ → C → Attempt C
  failed : ℕ → Error → Attempt C

pub data Result (C : Type 0) : Type 0 where
  ok : C → Result C
  err : Error → Result C

-- What happens outside a call of Dial: the clock when it starts and when it gives up, whether the
-- semaphore was taken before its timeout, the dial function by the number of the attempt and its
-- timeout, and whether the sleep after an attempt ran to its end.
pub record World (C : Type 0) : Type 0 where
  pub start : ℕ
  pub finish : ℕ
  pub acquired : Bool
  pub call : ℕ → ℕ → Attempt C
  pub slept : ℕ → ℕ → Bool

pub record Run (C : Type 0) : Type 0 where
  pub state : QLoad
  pub result : Result C
  pub calls : ℕ
  pub backoffs : List ℕ  -- those that were slept, in order

module _ {C : Type 0} (w : World C) where
  -- The branch that leaves the loop by `break`.
  unfoldable pub give_up : QLoad → Error → ℕ → List ℕ → Run C
  unfolding on_failure
  give_up q e calls slept = record {
    state = on_failure w.finish q;
    result = err e;
    calls = calls;
    backoffs = slept;
  }

  abbrev pub push_backoff : ℕ → Run C → Run C
  push_backoff b r = record r { backoffs = b ∷ r.backoffs }

  -- What the loop does with an attempt: its first was numbered 0. `again` is the rest of the loop,
  -- absent in the last round.
  unfoldable pub settle : ℕ → ℕ → QLoad → Option (QLoad → Run C) → Attempt C → Run C
  unfolding on_success adapt_timeout give_up
  settle i backoff q again (connected dur c) = record {
    state = adapt_timeout dur true (on_success q);
    result = ok c;
    calls = suc i;
    backoffs = [];
  }
  settle i backoff q none (failed dur e) = give_up (adapt_timeout dur false q) e (suc i) []
  settle i backoff q (some rest) (failed dur e) =
      let q' = adapt_timeout dur false q in
      let more = push_backoff backoff (rest q') in
      if is_retryable e
      then (if w.slept i backoff then more else give_up q' e (suc i) (backoff ∷ []))
      else give_up q' e (suc i) []

  -- `left` rounds remain after this one.
  unfoldable pub attempts : ℕ → ℕ → ℕ → ℕ → QLoad → Run C
  unfolding settle next_backoff
  attempts zero i timeout backoff q = settle i backoff q none (w.call i timeout)
  attempts (suc left) i timeout backoff q =
      let rest =
        λ (q' : QLoad). attempts left (suc i) timeout (next_backoff backoff q.cfg.max_backoff) q' in
      settle i backoff q (some rest) (w.call i timeout)

  unfoldable pub dial : QLoad → Run C
  dial q =
      let (q', refused) = allow w.start q in
      elim refused [
        | some e ↦ record { state = q'; result = err e; calls = 0; backoffs = [] }
        | none ↦
            if w.acquired
            then attempts q'.cfg.max_retries 0 q'.current_timeout q'.cfg.min_backoff q'
            else record { state = q'; result = err Error.busy; calls = 0; backoffs = [] }
      ]
