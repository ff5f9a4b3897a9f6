-- ===== src/Ssh/Manager/Laws.antt =====
-- sshclient/manager.go: the state and the connection agree, and no connection is lost.
use ssh_worker.Prelude.{
  ℕ, if◌then◌else◌, Bool, true, false, Option, none, some, List, [], ◌∷◌, ◌≡◌, ◌⊎◌, inl, inr, refl,
  bytes, arith, subst, ap, sym, Bool-cases,
}
use ssh_worker.Errs.{Error}
use ssh_worker.Health.State.{Floats}
use ssh_worker.Health.Tracker.{Effect, on_degrade, on_unhealthy, on_recover}
use ssh_worker.Ssh.Manager.{
  State, is_down, is_up, ClientConfig, Outcome, fine, fault, build_ssh_config, Manager, Dialling,
  handshake_with, configure, connect_raw, connect, mark_down, handle, handle_all, observe_and_heal,
  Reached, opened, broken, dial_through, dial_client, dial, close,
}

module _ (fl : Floats) where
  -- Between two operations a manager is up with a client, or down with none.
  abbrev pub IsSettled : State → Option ℕ → Type 0
  IsSettled State.up (some c) = Unit
  IsSettled State.up none = ⊥
  IsSettled State.down (some c) = ⊥
  IsSettled State.down none = Unit
  IsSettled State.connecting client = ⊥

  abbrev pub IsValid : Manager fl → Type 0
  IsValid m = IsSettled m.state m.client

  mark_down-IsValid : (m : Manager fl) → IsValid m → IsValid (mark_down fl m)
  unfolding mark_down
  mark_down-IsValid m v = ground arith

  handle-IsValid : (e : Effect) (m : Manager fl) → IsValid m → IsValid (handle fl e m)
  unfolding handle
  handle-IsValid on_degrade m v = mark_down-IsValid _ v
  handle-IsValid on_unhealthy m v = mark_down-IsValid _ v
  handle-IsValid on_recover m v = v

  handle_all-IsValid :
      (es : List Effect) (m : Manager fl) → IsValid m → IsValid (handle_all fl es m)
  unfolding handle_all
  handle_all-IsValid [] m v = v
  handle_all-IsValid (e ∷ es) m v = handle_all-IsValid es (handle fl e m) (handle-IsValid e m v)

  observe_and_heal-IsValid :
      (dur : ℕ) (failed : Bool) (now : ℕ) (m : Manager fl)
      → IsValid m
      → IsValid (observe_and_heal fl dur failed now m)
  unfolding observe_and_heal
  observe_and_heal-IsValid dur failed now m v = handle_all-IsValid _ _ v

  dial_through-IsValid :
      (r : Reached fl) (now : ℕ) (m : Manager fl) → IsValid m → IsValid (dial_through fl r now m).0
  unfolding dial_through
  dial_through-IsValid (opened dur) now m v = observe_and_heal-IsValid dur false now m v
  dial_through-IsValid (broken dur e) now m v =
      mark_down-IsValid _ (observe_and_heal-IsValid dur true now m v)

  -- How connect ends, by what the transport gave.
  abbrev pub Ends : Outcome ℕ → Manager fl → Manager fl × Option Error → Type 0
  Ends (fine c) m r =
      ((r.1 ≡ none) × (r.0.state ≡ State.up) × (r.0.client ≡ some c) × (r.0.closed ≡ m.closed))
      ⊎ ((e : Error) × (r.1 ≡ some e)
          × (r.0.state ≡ State.down)
          × (r.0.client ≡ m.client)
          × (r.0.closed ≡ c ∷ m.closed))
  Ends (fault e) m r =
      (r.1 ≡ some (Error.wrap (bytes "dial: ") e))
      × (r.0.state ≡ State.down)
      × (r.0.client ≡ m.client)
      × (r.0.closed ≡ m.closed)

  handshake_with-Ends :
      (h : Option Error) (c : ℕ) (m : Manager fl) → Ends (fine c) m (handshake_with fl h c m)
  unfolding handshake_with
  handshake_with-Ends none c m = inl (refl, refl, refl, refl)
  handshake_with-Ends (some e) c m = inr (_, refl, refl, refl, refl)

  configure-Ends :
      (o : Outcome ClientConfig) (h : Option Error) (c : ℕ) (m : Manager fl)
      → Ends (fine c) m (configure fl o h c m)
  unfolding configure
  configure-Ends (fine cfg) h c m = handshake_with-Ends h c m
  configure-Ends (fault e) h c m = inr (e, refl, refl, refl, refl)

  connect_raw-Ends :
      (o : Outcome ℕ) (d : Dialling fl) (m : Manager fl) → Ends o m (connect_raw fl o d m)
  unfolding connect_raw
  connect_raw-Ends (fine c) d m = configure-Ends (build_ssh_config m.cfg d.files) d.handshake c m
  connect_raw-Ends (fault e) d m = (refl, refl, refl, refl)

  Ends-state :
      (o : Outcome ℕ) (s : State) (m : Manager fl) (r : Manager fl × Option Error)
      → Ends o (record m { state = s }) r
      → Ends o m r
  Ends-state (fine c) s m r h = h
  Ends-state (fault e) s m r h = h

  starts :
      (d : Dialling fl) (m : Manager fl)
      → m.state ≡ State.down
      → connect_raw fl d.raw d (record m { state = State.connecting }) ≡ connect fl d m
  unfolding connect
  starts d m h =
      ap
        (λ b.
          if b then connect_raw fl d.raw d (record m { state = State.connecting }) else (m, none))
        (sym (ap is_down h))

  skips : (d : Dialling fl) (m : Manager fl) → is_down m.state ≡ false → connect fl d m ≡ (m, none)
  unfolding connect
  skips d m h =
      ap
        (λ b.
          if b then connect_raw fl d.raw d (record m { state = State.connecting }) else (m, none))
        h

  -- A connect of a manager that is down ends in one of three ways. The transport failed: it is down
  -- with its error. Or the transport gave a connection: it is up with that one and there is no
  -- error, or it is down with an error and that connection is closed. Nothing else is closed, and
  -- the client changes only in the second case.
  pub connect-Ends :
      (d : Dialling fl) (m : Manager fl) → m.state ≡ State.down → Ends d.raw m (connect fl d m)
  connect-Ends d m h =
      subst (λ r. Ends d.raw m r) (starts d m h)
        (Ends-state d.raw State.connecting m _
          (connect_raw-Ends d.raw d (record m { state = State.connecting })))

  Ends-IsValid :
      (o : Outcome ℕ) (m : Manager fl) (r : Manager fl × Option Error)
      → m.client ≡ none
      → Ends o m r
      → IsValid r.0
  Ends-IsValid (fine c) m r n (inl h) = ground arith
  Ends-IsValid (fine c) m r n (inr h) = ground arith
  Ends-IsValid (fault e) m r n h = ground arith

  settled : (s : State) (c : Option ℕ) → IsSettled s c → s ≡ State.down → c ≡ none
  settled State.down none h e = refl
  settled State.down (some c) h e = absurd h
  settled State.up c h e = cc
  settled State.connecting c h e = absurd h

  is_down_sound : (s : State) → is_down s ≡ true → s ≡ State.down
  is_down_sound s h = ground arith

  connect-IsValid : (d : Dialling fl) (m : Manager fl) → IsValid m → IsValid (connect fl d m).0
  connect-IsValid d m v = elim (Bool-cases (is_down m.state)) [
    | inl down_ ↦
        let s : m.state ≡ State.down = is_down_sound m.state down_ in
        Ends-IsValid d.raw m (connect fl d m) (settled m.state m.client v s) (connect-Ends d m s)
    | inr other ↦ subst (λ (r : Manager fl × Option Error). IsValid r.0) (sym (skips d m other)) v
  ]

  dial_client-IsValid :
      (c : Option ℕ) (ask : ℕ → Reached fl) (now : ℕ) (m : Manager fl)
      → IsValid m
      → IsValid (dial_client fl c ask now m).0
  unfolding dial_client
  dial_client-IsValid none ask now m v = observe_and_heal-IsValid 0 true now m v
  dial_client-IsValid (some c) ask now m v = elim (Bool-cases (is_up m.state)) [
    | inl yes_ ↦ rw yes_ (dial_through-IsValid (ask c) now m v)
    | inr no_ ↦ rw no_ (observe_and_heal-IsValid 0 true now m v)
  ]

  -- An operation of the manager, with what the outside answered.
  pub data Operation : Type 0 where
    connects : Dialling fl → Operation
    dials : (ℕ → Reached fl) → ℕ → Operation
    effect : Effect → Operation
    goes_down closes : Operation

  unfoldable pub perform : Operation → Manager fl → Manager fl
  perform (connects d) m = (connect fl d m).0
  perform (dials ask now) m = (dial fl ask now m).0
  perform (effect e) m = handle fl e m
  perform goes_down m = mark_down fl m
  perform closes m = close fl m

  -- Every operation, a connect, a dial of a destination, a callback of the tracker, markDown and
  -- Close, run to its end, keeps a manager up with a client or down with none: none of them leaves
  -- it connecting.
  pub perform-IsValid : (o : Operation) (m : Manager fl) → IsValid m → IsValid (perform o m)
  unfolding perform dial close
  perform-IsValid (connects d) m v = connect-IsValid d m v
  perform-IsValid (dials ask now) m v = dial_client-IsValid m.client ask now m v
  perform-IsValid (effect e) m v = handle-IsValid e m v
  perform-IsValid goes_down m v = mark_down-IsValid m v
  perform-IsValid closes m v = mark_down-IsValid m v
