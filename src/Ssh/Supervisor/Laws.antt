-- ===== src/Ssh/Supervisor/Laws.antt =====
-- sshclient/manager.go: what supervise does over many turns.
use ssh_worker.Prelude.{
  ℕ, ◌+◌, ◌*◌, ◌^◌, min, if◌then◌else◌, Bool, true, false, Option, none, some, List, [], ◌∷◌, ◌≡◌,
  refl, arith, subst, ◌∙◌, ap, length, Bool-cases, if_true, if_false, inl, inr,
}
use ssh_worker.Errs.{Error, is_canceled}
use ssh_worker.Qload
use ssh_worker.Qload.Bounds.{iterate_backoff, iterate_backoff_lem}
use ssh_worker.Health.State.{Floats}
use ssh_worker.Ssh.Manager.{State, is_up, Manager, fault, Dialling, mark_down, connect}
use ssh_worker.Ssh.Manager.Laws.{IsValid, Ends, connect-Ends, perform-IsValid, Operation, perform}
use ssh_worker.Ssh.Supervisor.{
  min_backoff, max_backoff, next_backoff, keepalive_once, Loop, fresh, Turn, Next, stop, again,
  reconnected, reconnect, checked, turn, supervise,
}

same_backoff : (b m : ℕ) → next_backoff b m ≡ Qload.next_backoff b m
unfolding next_backoff Qload.next_backoff
same_backoff b m = refl

module _ (fl : Floats) where
  -- The manager that a turn leaves.
  abbrev pub manager_of : Next fl → Manager fl
  manager_of (stop m) = m
  manager_of (again l m) = m

  reconnected-IsValid :
      (r : Manager fl × Option Error) (l : Loop)
      → IsValid fl r.0
      → IsValid fl (manager_of (reconnected fl r l))
  unfolding reconnected
  reconnected-IsValid (m, none) l v = v
  reconnected-IsValid (m, some e) l v = v

  connect_valid : (d : Dialling fl) (m : Manager fl) → IsValid fl m → IsValid fl (connect fl d m).0
  unfolding perform
  connect_valid d m v = perform-IsValid fl (Operation.connects d) m v

  mark_down_valid : (m : Manager fl) → IsValid fl m → IsValid fl (mark_down fl m)
  unfolding perform
  mark_down_valid m v = perform-IsValid fl Operation.goes_down m v

  reconnect-IsValid :
      (t : Turn fl) (l : Loop) (m : Manager fl)
      → IsValid fl m
      → IsValid fl (manager_of (reconnect fl t l m))
  unfolding reconnect
  reconnect-IsValid t l m v = elim (Bool-cases t.slept) [
    | inl yes_ ↦
        rw yes_ (reconnected-IsValid (connect fl t.dialling m) _ (connect_valid t.dialling m v))
    | inr no_ ↦ rw no_ v
  ]

  checked-IsValid :
      (e : Option Error) (t : Turn fl) (l : Loop) (m : Manager fl)
      → IsValid fl m
      → IsValid fl (manager_of (checked fl e t l m))
  unfolding checked
  checked-IsValid none t l m v = elim (Bool-cases t.slept) [
    | inl yes_ ↦ rw yes_ v
    | inr no_ ↦ rw no_ v
  ]
  checked-IsValid (some e) t l m v = elim (Bool-cases (is_canceled e)) [
    | inl yes_ ↦ rw yes_ (reconnect-IsValid t l m v)
    | inr no_ ↦ rw no_ (reconnect-IsValid t l _ (mark_down_valid m v))
  ]

  if_valid :
      (b : Bool) (x y : Next fl)
      → IsValid fl (manager_of x)
      → IsValid fl (manager_of y)
      → IsValid fl (manager_of (if b then x else y))
  if_valid true x y h k = h
  if_valid false x y h k = k

  turn-IsValid :
      (t : Turn fl) (l : Loop) (m : Manager fl)
      → IsValid fl m
      → IsValid fl (manager_of (turn fl t l m))
  unfolding turn
  turn-IsValid t l m v = if_valid t.done _ _ v (
      if_valid (is_up m.state) _ _ (checked-IsValid (keepalive_once m.client t.alive) t l m v)
        (reconnect-IsValid t l m v))

  -- Whatever the turns of supervise meet, a manager that was up with a client or down with none is
  -- so after them.
  pub supervise-IsValid :
      (ts : List (Turn fl)) (n : Next fl)
      → IsValid fl (manager_of n)
      → IsValid fl (manager_of (supervise fl ts n))
  unfolding supervise
  supervise-IsValid [] n v = v
  supervise-IsValid (t ∷ ts) (stop m) v = v
  supervise-IsValid (t ∷ ts) (again l m) v =
      supervise-IsValid ts (turn fl t l m) (turn-IsValid t l m v)

  -- A turn whose connect fails at the transport and that the context does not end.
  pub record Fails (t : Turn fl) : Type 0 where
    pub goes_on : t.done ≡ false
    pub sleeps : t.slept ≡ true
    pub error : Error
    pub broken : t.dialling.raw ≡ fault error

  pub data AllFail : List (Turn fl) → Type 0 where
    none_left : AllFail []
    and_then : {t : Turn fl} {ts : List (Turn fl)} → Fails t → AllFail ts → AllFail (t ∷ ts)

  -- The loop goes on with these counters, and the manager is down.
  pub record GoesOn (backoff fails : ℕ) (n : Next fl) : Type 0 where
    pub loop : Loop
    pub manager : Manager fl
    pub is : n ≡ again loop manager
    pub backoff_is : loop.backoff ≡ backoff
    pub fails_is : loop.fails ≡ fails
    pub is_down : manager.state ≡ State.down

  failed_reconnect :
      (e : Error) (l : Loop) (m : Manager fl) (r : Manager fl × Option Error)
      → Ends fl (fault e) m r
      → GoesOn (next_backoff l.backoff max_backoff) l.fails (reconnected fl r l)
  unfolding reconnected
  failed_reconnect e l m (m', none) h = absurd (ground arith)
  failed_reconnect e l m (m', some e') h = record {
    loop = _;
    manager = m';
    is = refl;
    backoff_is = refl;
    fails_is = refl;
    is_down = ground arith;
  }

  down_is : (s : State) → s ≡ State.down → is_up s ≡ false
  down_is s h = ground arith

  -- A turn that the context does not end, of a manager that is down, is a connect.
  down_turn :
      (t : Turn fl) (l : Loop) (m : Manager fl)
      → t.done ≡ false
      → t.slept ≡ true
      → m.state ≡ State.down
      → reconnected fl (connect fl t.dialling m) (record l { fails = l.fails + 1 }) ≡ turn fl t l m
  unfolding turn reconnect
  down_turn t l m d s h =
      if_true _ _ t.slept s
      ∙ if_false _ _ (is_up m.state) (down_is m.state h)
      ∙ if_false _ _ t.done d

  failed_turn :
      (t : Turn fl) (l : Loop) (m : Manager fl)
      → Fails t
      → m.state ≡ State.down
      → GoesOn (next_backoff l.backoff max_backoff) (l.fails + 1) (turn fl t l m)
  failed_turn t l m f h =
      subst (GoesOn (next_backoff l.backoff max_backoff) (l.fails + 1))
        (down_turn t l m f.goes_on f.sleeps h)
        (failed_reconnect f.error _ m _ (
          subst (λ o. Ends fl o m (connect fl t.dialling m)) f.broken
            (connect-Ends fl t.dialling m h)))

  -- The turns, one after the other.
  all_fail :
      (ts : List (Turn fl)) (l : Loop) (m : Manager fl)
      → AllFail ts
      → m.state ≡ State.down
      → GoesOn
          (iterate_backoff (length ts) l.backoff max_backoff)
          (length ts + l.fails)
          (supervise fl ts (again l m))
  unfolding supervise iterate_backoff
  all_fail [] l m a h = record {
    loop = l;
    manager = m;
    is = refl;
    backoff_is = refl;
    fails_is = omega arith;
    is_down = h;
  }
  all_fail (t ∷ ts) l m (and_then f a) h =
      let g = failed_turn t l m f h in
      let n = all_fail ts g.loop g.manager a g.is_down in
      record {
        loop = n.loop;
        manager = n.manager;
        is = ap (supervise fl ts) g.is ∙ n.is;
        backoff_is =
            n.backoff_is
            ∙ ap (λ b. iterate_backoff (length ts) b max_backoff)
                (g.backoff_is ∙ same_backoff l.backoff max_backoff);
        fails_is = omega (arith, n.fails_is, g.fails_is);
        is_down = n.is_down;
      }

  -- Turns of supervise in which the transport always fails: the loop goes on with the manager down,
  -- has counted each of them, and sleeps next for the first backoff of one second doubled as often,
  -- but never for more than thirty seconds.
  pub supervise_fails :
      (ts : List (Turn fl)) (m : Manager fl)
      → AllFail ts
      → m.state ≡ State.down
      → GoesOn
          (min (min_backoff * 2 ^ length ts) max_backoff)
          (length ts)
          (supervise fl ts (again fresh m))
  supervise_fails ts m a h =
      let n = all_fail ts fresh m a h in
      record {
        loop = n.loop;
        manager = n.manager;
        is = n.is;
        backoff_is =
            n.backoff_is ∙ iterate_backoff_lem (length ts) min_backoff max_backoff (omega arith);
        fails_is = omega (arith, n.fails_is);
        is_down = n.is_down;
      }
