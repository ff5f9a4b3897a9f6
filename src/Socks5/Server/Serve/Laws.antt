-- ===== src/Socks5/Server/Serve/Laws.antt =====
-- socks5/server.go, Serve: when it returns, and how many connections it may leave behind.
use ssh_worker.Prelude.{
  ℕ, ◌+◌, ◌-◌, ◌==◌, leb, ◌≤◌, ◌⊎◌, inl, inr, Bool-cases, Bool, true, false, ◌||◌, any, none, some,
  List, [], ◌∷◌, ◌≡◌, refl, ap, ◌∙◌, arith, if_case,
}
use ssh_worker.Socks5.Server.{Server, accept, finish}
use ssh_worker.Socks5.Server.Serve.{
  Event, accepts, handler_ends, fails, Loop, serving, draining, counters, end_handler, step, run,
  Served, patience, drain_from, drain, serve,
}

-- An error of Accept that ends the loop.
abbrev pub is_last : Event → Bool
is_last (fails done closed) = done || closed
is_last _ = false

abbrev pub is_draining : Loop → Bool
is_draining (serving s) = false
is_draining (draining s) = true

step-draining : (e : Event) (s : Server) → is_draining (step e (draining s)) ≡ true
unfolding step
step-draining accepts s = refl
step-draining handler_ends s = refl
step-draining (fails done closed) s = refl

run-draining : (es : List Event) (l : Loop) → is_draining l ≡ true → is_draining (run es l) ≡ true
unfolding run
run-draining [] l h = h
run-draining (e ∷ es) (serving s) h = absurd (ground arith)
run-draining (e ∷ es) (draining s) h = run-draining es (step e (draining s)) (step-draining e s)

step-serving : (e : Event) (s : Server) → is_draining (step e (serving s)) ≡ is_last e
unfolding step
step-serving accepts s = refl
step-serving handler_ends s = refl
step-serving (fails done closed) s = ground arith

-- The loop has ended exactly if the context was done or the listener closed at some error.
run-last : (es : List Event) (l : Loop) → is_draining (run es l) ≡ (is_draining l || any is_last es)
unfolding run
run-last [] l = ground arith
run-last (e ∷ es) (draining s) = run-draining es (step e (draining s)) (step-draining e s)
run-last (e ∷ es) (serving s) =
    run-last es (step e (serving s)) ∙ ap (λ b. b || any is_last es) (step-serving e s)

abbrev pub IsLimited : Server → Type 0
IsLimited s = s.active ≤ s.limits.max_conns

accept-IsLimited : (s : Server) → IsLimited s → IsLimited (accept s).0
unfolding accept
accept-IsLimited s h = ground arith

end_handler-IsLimited : (s : Server) → IsLimited s → IsLimited (end_handler s)
unfolding end_handler finish
end_handler-IsLimited s h = ground arith

step-IsLimited : (e : Event) (l : Loop) → IsLimited (counters l) → IsLimited (counters (step e l))
unfolding step
step-IsLimited accepts (serving s) h = accept-IsLimited s h
step-IsLimited accepts (draining s) h = h
step-IsLimited handler_ends (serving s) h = end_handler-IsLimited s h
step-IsLimited handler_ends (draining s) h = h
step-IsLimited (fails done closed) (serving s) h =
    if_case (λ l. IsLimited (counters l)) (done || closed) h h
step-IsLimited (fails done closed) (draining s) h = h

run-IsLimited :
    (es : List Event) (l : Loop) → IsLimited (counters l) → IsLimited (counters (run es l))
unfolding run
run-IsLimited [] l h = h
run-IsLimited (e ∷ es) l h = run-IsLimited es (step e l) (step-IsLimited e l h)

-- A drain that began with the server `s` and `waited` nanoseconds before the rest `timer` of its ten
-- seconds.
pub record IsDrained (waited timer : ℕ) (s : Server) (r : Served) : Type 0 where
  pub no_error : r.error ≡ none
  pub in_time : r.after ≤ waited + timer
  pub fewer : r.left ≤ s.active
  pub patient : (r.left ≡ 0) ⊎ (r.after ≡ waited + timer)

end_handler-active : (s : Server) → (end_handler s).active ≤ s.active
unfolding end_handler finish
end_handler-active s = ground arith

empty-IsDrained :
    (waited timer : ℕ) (s : Server)
    → IsDrained waited timer s (record { error = none; left = 0; after = waited })
empty-IsDrained waited timer s = record {
  no_error = refl;
  in_time = omega arith;
  fewer = omega arith;
  patient = inl refl;
}

late-IsDrained :
    (waited timer : ℕ) (s : Server)
    → IsDrained waited timer s (record { error = none; left = s.active; after = waited + timer })
late-IsDrained waited timer s = record {
  no_error = refl;
  in_time = omega arith;
  fewer = omega arith;
  patient = inr refl;
}

longer-IsDrained :
    (waited timer d : ℕ) (s : Server) (r : Served)
    → leb timer d ≡ false
    → IsDrained (waited + d) (timer - d) (end_handler s) r
    → IsDrained waited timer s r
longer-IsDrained waited timer d s r h v =
    let n : (waited + d) + (timer - d) ≡ waited + timer = ground (arith, h) in
    record {
      no_error = v.no_error;
      in_time = omega (arith, n, v.in_time);
      fewer = omega (arith, v.fewer, end_handler-active s);
      patient = elim v.patient [ inl z ↦ inl z | inr z ↦ inr (z ∙ n) ];
    }

drain_from-IsDrained :
    (waited timer : ℕ) (waits : List ℕ) (s : Server)
    → IsDrained waited timer s (drain_from waited timer waits s)
unfolding drain_from
drain_from-IsDrained waited timer [] s =
    if_case (IsDrained waited timer s) (s.active == 0) (empty-IsDrained waited timer s)
      (late-IsDrained waited timer s)
drain_from-IsDrained waited timer (d ∷ waits) s =
    if_case (IsDrained waited timer s) (s.active == 0) (empty-IsDrained waited timer s)
      (elim (Bool-cases (leb timer d)) [
        | inl late ↦ rw late (late-IsDrained waited timer s)
        | inr early ↦ rw early (
            longer-IsDrained waited timer d s _ early
              (drain_from-IsDrained (waited + d) (timer - d) waits (end_handler s)))
      ])

-- How Serve ends, once it listens.
pub record Returns (before : List Event) (waits : List ℕ) (s : Server) : Type 0 where
  pub goes_on : any is_last before ≡ false → serve none before waits s ≡ none
  pub ends :
      any is_last before ≡ true
      → (r : Served) × (serve none before waits s ≡ some r)
        × (r.error ≡ none)
        × (r.after ≤ 10000000000)
        × (r.left ≤ (counters (run before (serving s))).active)
        × (r.left ≤ (counters (run before (serving s))).limits.max_conns)
        × ((r.left ≡ 0) ⊎ (r.after ≡ 10000000000))

drain-goes_on : (waits : List ℕ) (l : Loop) → is_draining l ≡ false → drain waits l ≡ none
unfolding drain
drain-goes_on waits (serving s) h = refl
drain-goes_on waits (draining s) h = absurd (ground arith)

drain-ends :
    (waits : List ℕ) (l : Loop)
    → is_draining l ≡ true
    → IsLimited (counters l)
    → (r : Served) × (drain waits l ≡ some r)
      × (r.error ≡ none)
      × (r.after ≤ 10000000000)
      × (r.left ≤ (counters l).active)
      × (r.left ≤ (counters l).limits.max_conns)
      × ((r.left ≡ 0) ⊎ (r.after ≡ 10000000000))
unfolding drain
drain-ends waits (serving s) h b = absurd (ground arith)
drain-ends waits (draining s) h b =
    let v = drain_from-IsDrained 0 patience waits s in
    (
      drain_from 0 patience waits s,
      refl,
      v.no_error,
      v.in_time,
      v.fewer,
      omega (arith, v.fewer, b),
      v.patient,
    )

-- Once it listens, Serve goes on through every error of Accept until the context is done or the
-- listener is closed at one. Then it returns without an error, at most ten seconds later, and it
-- leaves at most as many connections as it handled at that error, which are at most max_conns: none,
-- or the ten seconds are over.
pub serve-Returns :
    (before : List Event) (waits : List ℕ) (s : Server) → IsLimited s → Returns before waits s
unfolding serve
serve-Returns before waits s h = record {
  goes_on = λ e. drain-goes_on waits (run before (serving s)) (run-last before (serving s) ∙ e);
  ends = λ e.
      drain-ends waits (run before (serving s)) (run-last before (serving s) ∙ e)
        (run-IsLimited before (serving s) h);
}
