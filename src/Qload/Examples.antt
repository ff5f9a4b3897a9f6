-- ===== src/Qload/Examples.antt =====
-- The dial limiter: an example of each law.
use ssh_worker.Prelude.{ℕ, zero, suc, ◌*◌, ◌^◌, min, true, false, ◌≡◌, refl, arith}
use ssh_worker.Prelude.Int.{pos, negsuc}
use ssh_worker.Errs.{Error, is_retryable}
use ssh_worker.Qload.{
  Config, defaults, QLoad, new, allow, adapt_timeout, World, connected, failed, Attempt, dial,
  attempts, second, millisecond,
}
use ssh_worker.Qload.Bounds.{
  InRange, adapt_timeout-InRange, new-InRange, iterate_backoff, iterate_backoff_lem,
}
use ssh_worker.Qload.Attempts.{Explains, dial-Explains}
use ssh_worker.Qload.Concurrent.{Pool, acquire, add_failure, pass, enter, fails, Reach, here, next}
use ssh_worker.Qload.Concurrent.Laws.{no_calls, IsValid, Reach-IsValid, new-IsValid}

abbrev plain_config : Config
plain_config = record {
  max_retries = pos 2;
  concurrency = pos 0;
  timeout = pos 0;
  sem_timeout = pos 0;
  min_backoff = pos 0;
  max_backoff = pos 0;
  failure_threshold = pos 2;
  cooldown = negsuc 0;
  adaptive_timeout = true;
}

abbrev refused_twice : ℕ → ℕ → Attempt ℕ
refused_twice zero timeout = failed 5 (Error.retryable Error.unavailable)
refused_twice (suc zero) timeout = failed 6 (Error.retryable Error.unavailable)
refused_twice (suc (suc n)) timeout = connected 7 n

abbrev flaky : World ℕ
flaky = record {
  start = 1;
  finish = 100;
  acquired = true;
  call = refused_twice;
  slept = λ i b. true;
}

-- A fresh limiter whose dial function fails twice and then connects.
dial-Explains_example :
    let q = new plain_config in
    Explains flaky q.cfg.max_retries 0 q.current_timeout q.cfg.min_backoff q.cfg.max_backoff
      (dial flaky q)
unfolding new defaults allow
dial-Explains_example = dial-Explains flaky (new plain_config) refl refl

-- It is connected by the third attempt.
dial_connects : (dial flaky (new plain_config)).calls ≡ 3
unfolding dial new allow attempts is_retryable
dial_connects = refl

abbrev tripped : QLoad
tripped = record (new plain_config) { failures = 2; opened_at = 7 }

adapt_timeout-InRange_example : InRange (adapt_timeout (2 * second) false (new plain_config))
adapt_timeout-InRange_example =
    adapt_timeout-InRange (2 * second) false (new plain_config) (new-InRange plain_config)

iterate_backoff_example :
    iterate_backoff 4 (300 * millisecond) (10 * second)
    ≡ min (300 * millisecond * 2 ^ 4) (10 * second)
iterate_backoff_example = iterate_backoff_lem 4 (300 * millisecond) (10 * second) (omega arith)

abbrev empty_pool : Pool
empty_pool = no_calls (new plain_config)

-- A call that passes the breaker, takes the semaphore and fails.
abbrev one_failed : Pool
one_failed = add_failure (acquire (record empty_pool { waiting = 1 }))

one_failed_reached : Reach empty_pool one_failed
unfolding new defaults acquire
one_failed_reached =
    next
      (next (next here (pass empty_pool refl))
        (enter (record empty_pool { waiting = 1 }) (omega arith) (omega arith)))
      (fails (acquire (record empty_pool { waiting = 1 })) (omega arith))

Reach-IsValid_example : IsValid one_failed
Reach-IsValid_example =
    Reach-IsValid {p = empty_pool} {r = one_failed} (new-IsValid plain_config) one_failed_reached
