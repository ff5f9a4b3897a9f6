-- ===== src/Ssh/Race.antt =====
-- sshclient/manager.go: connect and markDown taken apart into their steps on the shared state, since
-- several goroutines call them at a time. `dialling` counts the calls of connect that have taken the
-- state to connecting and have not called setConn, `installed` those between setConn and the store
-- of the state, `closing` the calls of markDown between their CompareAndSwap and clearConn.
use ssh_worker.Prelude.{ℕ, ◌+◌, ◌-◌, ◌<◌, ◌≤◌, Option, none, some, ◌≡◌, refl, arith}
use ssh_worker.Ssh.Manager.{State}

pub record Shared : Type 0 where
  pub state : State
  pub client : Option ℕ
  pub dialling : ℕ
  pub installed : ℕ
  pub closing : ℕ

pub data Step : Shared → Shared → Type 0 where
  begin :
      (s : Shared)
      → s.state ≡ State.down
      → Step s (record s { state = State.connecting; dialling = s.dialling + 1 })
  fail :
      (s : Shared)
      → 0 < s.dialling
      → Step s (record s { state = State.down; dialling = s.dialling - 1 })
  install :
      (s : Shared) (c : ℕ)
      → 0 < s.dialling
      → Step s
          (record s { client = some c; dialling = s.dialling - 1; installed = s.installed + 1 })
  come_up :
      (s : Shared)
      → 0 < s.installed
      → Step s (record s { state = State.up; installed = s.installed - 1 })
  go_down :
      (s : Shared)
      → s.state ≡ State.up
      → Step s (record s { state = State.down; closing = s.closing + 1 })
  clear :
      (s : Shared) → 0 < s.closing → Step s (record s { client = none; closing = s.closing - 1 })

pub data Reach (s : Shared) : Shared → Type 0 where
  here : Reach s s
  next : {t u : Shared} → Reach s t → Step t u → Reach s u

abbrev pub connects : State → ℕ
connects State.connecting = 1
connects _ = 0

-- The calls of connect that are at work are the one that the state tells of.
abbrev pub IsExclusive : Shared → Type 0
IsExclusive s = s.dialling + s.installed ≡ connects s.state

connects_le : (s : State) → connects s ≤ 1
connects_le State.down = omega arith
connects_le State.connecting = omega arith
connects_le State.up = omega arith

connects_of : (s t : State) → s ≡ t → connects s ≡ connects t
connects_of s t e = cc

Step-IsExclusive : {s t : Shared} → Step s t → IsExclusive s → IsExclusive t
Step-IsExclusive (begin s h) v = omega (arith, v, connects_of s.state State.down h)
Step-IsExclusive (fail s h) v = omega (arith, v, h, connects_le s.state)
Step-IsExclusive (install s c h) v = omega (arith, v, h)
Step-IsExclusive (come_up s h) v = omega (arith, v, h, connects_le s.state)
Step-IsExclusive (go_down s h) v = omega (arith, v, connects_of s.state State.up h)
Step-IsExclusive (clear s h) v = v

-- However the steps of connect and markDown are interleaved, at most one connect is at work at a
-- time, and one is exactly while the state is connecting.
pub Reach-IsExclusive : {s t : Shared} → IsExclusive s → Reach s t → IsExclusive t
Reach-IsExclusive v here = v
Reach-IsExclusive v (next r t) = Step-IsExclusive t (Reach-IsExclusive v r)

-- From every state that is up, a markDown that is slower than the connect after it: there is a way to
-- a state that is up with the new connection `c` as its client, from which the pending clearConn
-- drops `c` and leaves a manager that is up and has no client.
pub Reach-up_without_client :
    (s : Shared) (c : ℕ)
    → s.state ≡ State.up
    → (u : Shared) × Reach s u
      × (u.state ≡ State.up)
      × (u.client ≡ some c)
      × (t : Shared) × Step u t
      × (t.state ≡ State.up)
      × (t.client ≡ none)
Reach-up_without_client s c h =
    let down : Shared = record s { state = State.down; closing = s.closing + 1 } in
    let busy : Shared = record down { state = State.connecting; dialling = s.dialling + 1 } in
    let new : Shared = record busy {
      client = some c;
      dialling = busy.dialling - 1;
      installed = s.installed + 1;
    } in
    let again : Shared = record new { state = State.up; installed = new.installed - 1 } in
    let lost : Shared = record again { client = none; closing = again.closing - 1 } in
    (
      again,
      next (next (next (next here (go_down s h)) (begin down refl)) (install busy c (omega arith)))
          (come_up new (omega arith)),
      refl,
      refl,
      lost,
      clear again (omega arith),
      refl,
      refl,
    )
