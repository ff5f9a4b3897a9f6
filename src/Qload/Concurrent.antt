-- ===== src/Qload/Concurrent.antt =====
-- qload/qload.go: calls of Dial that overlap. The atomic operations and the channel operations are
-- the steps; the scheduler, the clock and the dial function choose among them.
pub mod Laws
use ssh_worker.Prelude.{
  ℕ, zero, suc, ◌+◌, ◌-◌, ◌%◌, ◌==◌, ltb, leb, if◌then◌else◌, ◌&&◌, ◌<◌, Bool, true, some, List, [],
  ◌∷◌, get_elem?, ◌≡◌, ◌≢◌,
}
use ssh_worker.Qload.{QLoad, adapt_timeout}

-- The shared state with the calls at work, by where they are: `waiting` between the breaker and the
-- semaphore, `resetting` in allow between the CompareAndSwap and the Store, and with the semaphore
-- `dialling` in the loop, `closing` in onSuccess between the two swaps, `opening` in onFailure between
-- the Add and the CompareAndSwap, and `leaving` behind them. `loaded` are the timeouts that calls of
-- adaptTimeout have loaded and not stored yet. `late` counts the second swaps of onSuccess that met
-- as many failures as the threshold.
pub record Pool : Type 0 where
  pub load : QLoad
  pub waiting : ℕ
  pub resetting : ℕ
  pub dialling : ℕ
  pub closing : ℕ
  pub opening : ℕ
  pub leaving : ℕ
  pub loaded : List ℕ
  pub late : ℕ

-- An int32 that is not below the threshold.
abbrev pub reaches : ℕ → ℕ → Bool
reaches failures threshold = leb threshold failures && ltb failures 2147483648

-- `q.sem <- struct{}{}`, which waits while the channel is full.
unfoldable pub acquire : Pool → Pool
acquire p = record p {
  load = record (p.load) { in_flight = p.load.in_flight + 1 };
  waiting = p.waiting - 1;
  dialling = p.dialling + 1;
}

-- The deferred `<-q.sem`.
unfoldable pub release : Pool → Pool
release p = record p {
  load = record (p.load) { in_flight = p.load.in_flight - 1 };
  leaving = p.leaving - 1;
}

-- openedAt.CompareAndSwap(opened, 0) and failures.Store(0) of allow.
unfoldable pub retake : Pool → Pool
retake p = record p { load = record (p.load) { opened_at = 0 }; resetting = p.resetting + 1 }

unfoldable pub reset : Pool → Pool
reset p = record p {
  load = record (p.load) { failures = 0 };
  resetting = p.resetting - 1;
  waiting = p.waiting + 1;
}

-- failures.Swap(0) of onSuccess: it is over if the old value is positive.
unfoldable pub swap_failures : Pool → Pool
swap_failures p =
    let swapped : Pool = record p {
      load = record (p.load) { failures = 0 };
      dialling = p.dialling - 1;
    } in
    if ltb 0 p.load.failures && ltb p.load.failures 2147483648
    then record swapped { leaving = p.leaving + 1 }
    else record swapped { closing = p.closing + 1 }

-- openedAt.Swap(0) of onSuccess.
unfoldable pub swap_opened : Pool → Pool
swap_opened p = record p {
  load = record (p.load) { opened_at = 0 };
  closing = p.closing - 1;
  leaving = p.leaving + 1;
  late = if reaches p.load.failures p.load.cfg.failure_threshold then p.late + 1 else p.late;
}

-- failures.Add(1) of onFailure: it goes on if the new value reaches the threshold.
unfoldable pub add_failure : Pool → Pool
add_failure p =
    let n = (p.load.failures + 1) % 4294967296 in
    let added : Pool = record p {
      load = record (p.load) { failures = n };
      dialling = p.dialling - 1;
    } in
    if reaches n p.load.cfg.failure_threshold
    then record added { opening = p.opening + 1 }
    else record added { leaving = p.leaving + 1 }

-- openedAt.CompareAndSwap(0, now) of onFailure.
unfoldable pub open_breaker : ℕ → Pool → Pool
open_breaker now p = record p {
  load = record (p.load) { opened_at = if p.load.opened_at == 0 then now else p.load.opened_at };
  opening = p.opening - 1;
  leaving = p.leaving + 1;
}

abbrev pub remove_at : ℕ → List ℕ → List ℕ
remove_at i [] = []
remove_at zero (v ∷ vs) = vs
remove_at (suc i) (v ∷ vs) = v ∷ remove_at i vs

-- The Store of adaptTimeout, of what it makes of the timeout `v` that it loaded.
unfoldable pub store_timeout : ℕ → ℕ → Bool → ℕ → Pool → Pool
unfolding adapt_timeout
store_timeout i dur good v p = record p {
  load = record (p.load) {
    current_timeout =
        (adapt_timeout dur good (record (p.load) { current_timeout = v })).current_timeout;
  };
  loaded = remove_at i p.loaded;
}

pub data Step : Pool → Pool → Type 0 where
  pass : (p : Pool) → p.load.opened_at ≡ 0 → Step p (record p { waiting = p.waiting + 1 })
  retakes :
      (p : Pool) (now : ℕ)
      → p.load.opened_at ≢ 0
      → p.load.opened_at + p.load.cfg.cooldown < now
      → Step p (retake p)
  resets : (p : Pool) → 0 < p.resetting → Step p (reset p)
  enter :
      (p : Pool) → 0 < p.waiting → p.load.in_flight < p.load.cfg.concurrency → Step p (acquire p)
  time_out : (p : Pool) → 0 < p.waiting → Step p (record p { waiting = p.waiting - 1 })
  loads :
      (p : Pool)
      → 0 < p.load.in_flight
      → p.load.cfg.adaptive_timeout ≡ true
      → Step p (record p { loaded = p.load.current_timeout ∷ p.loaded })
  stores :
      (p : Pool) (i v dur : ℕ) (good : Bool)
      → get_elem? p.loaded i ≡ some v
      → Step p (store_timeout i dur good v p)
  succeeds : (p : Pool) → 0 < p.dialling → Step p (swap_failures p)
  closes : (p : Pool) → 0 < p.closing → Step p (swap_opened p)
  fails : (p : Pool) → 0 < p.dialling → Step p (add_failure p)
  opens : (p : Pool) (now : ℕ) → 0 < now → 0 < p.opening → Step p (open_breaker now p)
  leaves : (p : Pool) → 0 < p.leaving → Step p (release p)

pub data Reach (p : Pool) : Pool → Type 0 where
  here : Reach p p
  next : {q r : Pool} → Reach p q → Step q r → Reach p r
