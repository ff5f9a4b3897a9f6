-- ===== src/Worker/Pipeline.antt =====
-- main.go, runWorker: the dial function of a worker, which is the limiter of qload around the Dial
-- of transport.
use ssh_worker.Prelude.{
  ℕ, suc, ◌+◌, ◌-◌, ◌≤◌, ◌<◌, Bool, true, false, none, some, ◌≡◌, ◌⊎◌, inl, inr, arith, subst,
}
use ssh_worker.Errs.{Error}
use ssh_worker.Config.{Config}
use ssh_worker.Qload.{QLoad, Attempt, connected, failed, Result, ok, err, World, Run, allow, dial}
use ssh_worker.Qload.Attempts.{Gave, MayRepeat, IsFinal, dial-Explains}
use ssh_worker.Qload.Bounds.{iterate_backoff}
use ssh_worker.Transport.{Stages, Dialled, dial as transport_dial}
use ssh_worker.Transport.Laws.{IsTidy, dial-IsTidy}

-- What is outside a call of the dial function: the clock of qload, its semaphore and its sleeps, and
-- the stages of each attempt, with the time that they take.
pub record Around : Type 0 where
  pub start : ℕ
  pub finish : ℕ
  pub acquired : Bool
  pub took : ℕ → ℕ
  pub stages : ℕ → ℕ → Stages
  pub slept : ℕ → ℕ → Bool

unfoldable pub attempt_of : ℕ → Dialled → Attempt Dialled
attempt_of dur d = elim d.error [ none ↦ connected dur d | some e ↦ failed dur e ]

unfoldable pub world : Config → Around → World Dialled
unfolding attempt_of
world c a = record {
  start = a.start;
  finish = a.finish;
  acquired = a.acquired;
  call = λ i timeout. attempt_of (a.took i) (transport_dial c (a.stages i timeout));
  slept = a.slept;
}

unfoldable pub dial_fn : Config → Around → QLoad → Run Dialled
unfolding world
dial_fn c a q = dial (world c a) q

Gave-ok : (dur : ℕ) (d x : Dialled) → Gave (attempt_of dur d) (ok x) → (d ≡ x) × (d.error ≡ none)
unfolding attempt_of
Gave-ok dur d x g = ground arith

Gave-err : (dur : ℕ) (d : Dialled) (e : Error) → Gave (attempt_of dur d) (err e) → d.error ≡ some e
unfolding attempt_of
Gave-err dur d e g = ground arith

repeated : (dur : ℕ) (d : Dialled) → MayRepeat (attempt_of dur d) → (e : Error) × (d.error ≡ some e)
unfolding attempt_of
repeated dur d g = ground arith

-- An error that is retryable ends the loop only where the sleep was cut short.
final_sleep :
    (dur : ℕ) (d : Dialled) (e : Error) (more : Bool)
    → IsTidy d
    → d.error ≡ some e
    → IsFinal (attempt_of dur d) more
    → more ≡ false
unfolding attempt_of
final_sleep dur d e more t h f = ground (arith, (t.failure e h).0)

minus_zero : (i : ℕ) → i - 0 ≡ i
minus_zero i = omega arith

module _ (c : Config) (a : Around) (q : QLoad) where
  abbrev pub nth : ℕ → Dialled
  nth i = transport_dial c (a.stages i q.current_timeout)

  -- An attempt that failed, with nothing of it left open.
  abbrev pub Failed : ℕ → Error → Type 0
  Failed i e = ((nth i).error ≡ some e) × ((nth i).closed ≡ (nth i).opened)

  abbrev pub Concludes : ℕ → Result Dialled → Type 0
  Concludes i (ok d) = (nth i ≡ d) × (d.error ≡ none) × (d.opened ≡ true) × (d.closed ≡ false)
  Concludes i (err e) =
      Failed i e
      × ((i ≡ q.cfg.max_retries)
          ⊎ (a.slept i (iterate_backoff i q.cfg.min_backoff q.cfg.max_backoff) ≡ false))

  pub record IsPiped (r : Run Dialled) : Type 0 where
    pub last : ℕ
    pub counted : r.calls ≡ suc last
    pub bounded : last ≤ q.cfg.max_retries
    pub earlier : (i : ℕ) → i < last → (e : Error) × Failed i e
    pub ended : Concludes last r.result

  ends_ok : (i : ℕ) (d : Dialled) → nth i ≡ d → d.error ≡ none → Concludes i (ok d)
  ends_ok i d e h =
      let (open_, kept) =
        (subst IsTidy e (dial-IsTidy c (a.stages i q.current_timeout))).success h in
      (e, h, open_, kept)

  fails : (i : ℕ) (e : Error) → (nth i).error ≡ some e → Failed i e
  fails i e h = (h, ((dial-IsTidy c (a.stages i q.current_timeout)).failure e h).1)

  concludes :
      (i : ℕ) (r : Result Dialled)
      → Gave (attempt_of (a.took i) (nth i)) r
      → (i ≡ 0 + q.cfg.max_retries)
        ⊎ IsFinal
            (attempt_of (a.took i) (nth i))
            (a.slept i (iterate_backoff (i - 0) q.cfg.min_backoff q.cfg.max_backoff))
      → Concludes i r
  concludes i (ok d) g s =
      let (e, h) = Gave-ok (a.took i) (nth i) d g in ends_ok i d e (subst (λ x. x.error ≡ none) e h)
  concludes i (err e) g s =
      let h = Gave-err (a.took i) (nth i) e g in
      (
        fails i e h,
        elim s [
          | inl done ↦ inl (omega (arith, done))
          | inr final ↦ inr (
              subst (λ n. a.slept i (iterate_backoff n q.cfg.min_backoff q.cfg.max_backoff) ≡ false)
                (minus_zero i)
                (final_sleep (a.took i) (nth i) e _ (dial-IsTidy c (a.stages i q.current_timeout)) h
                  final))
        ],
      )

  -- A call of the dial function that the breaker lets through and that takes the semaphore runs the
  -- stages of the transport at most max_retries + 1 times. All the runs but the last failed, and
  -- the connections that they opened are closed. It returns the connection of the last one, which
  -- is open, or its error, with that connection closed; then all the attempts are used up, or the
  -- sleep behind the last one was cut short.
  pub dial_fn-IsPiped : (allow a.start q).1 ≡ none → a.acquired ≡ true → IsPiped (dial_fn c a q)
  unfolding dial_fn world
  dial_fn-IsPiped admitted acquired =
      let x = dial-Explains (world c a) q admitted acquired in
      record {
        last = x.last;
        counted = x.counted;
        bounded = omega (arith, x.bounded);
        earlier = λ i h.
            let (e, g) = repeated (a.took i) (nth i) (x.repeated i (omega arith) h).0 in
            (e, fails i e g);
        ended = concludes x.last _ x.gave x.stopped;
      }
