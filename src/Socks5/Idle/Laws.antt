-- ===== src/Socks5/Idle/Laws.antt =====
-- socks5/idleconn.go and handleConn: when the wrapper cuts a connection, and when its deadline does.
use ssh_worker.Prelude.{
  ℕ, ◌+◌, ◌-◌, ◌≤◌, ◌<◌, true, false, none, some, List, [], ◌∷◌, ◌≡◌, ◌↔◌, refl, arith, ◌∙◌,
}
use ssh_worker.Socks5.Server.{Limits}
use ssh_worker.Socks5.Idle.{Conn, handle_conn, expired, moved, transfer, close, watch}

-- What happens to a connection: a read or write of some bytes, the end of its handler, a round of
-- watch; each with the clock.
pub data Event : Type 0 where
  io : ℕ → ℕ → Event
  shut : Event
  tick : ℕ → Event

unfoldable pub apply : Event → Conn → Conn
apply (io n now) c = (transfer n now c).0
apply shut c = close c
apply (tick now) c = (watch now c).0

unfoldable pub run : List Event → Conn → Conn
unfolding apply
run [] c = c
run (e ∷ es) c = run es (apply e c)

apply-deadline : (e : Event) (c : Conn) → (apply e c).deadline ≡ c.deadline
unfolding apply transfer close watch
apply-deadline (io n now) c = ground arith
apply-deadline shut c = refl
apply-deadline (tick now) c = ground arith

run-deadline : (es : List Event) (c : Conn) → (run es c).deadline ≡ c.deadline
unfolding run
run-deadline [] c = refl
run-deadline (e ∷ es) c = run-deadline es (apply e c) ∙ apply-deadline e c

nothing_moves : (n now d : ℕ) (c : Conn) → c.deadline ≡ some d → d ≤ now → (transfer n now c).1 ≡ 0
unfolding transfer moved expired
nothing_moves n now d c e h = ground arith

-- The deadline that handleConn sets for the handshake is never taken back: whatever has happened to
-- a connection since, from the end of that time on no read or write moves a byte, however busy the
-- connection is.
pub transfer-run_late :
    (l : Limits) (start : ℕ) (es : List Event) (n now : ℕ)
    → start + l.handshake_to ≤ now
    → (transfer n now (run es (handle_conn l start))).1 ≡ 0
unfolding handle_conn
transfer-run_late l start es n now h =
    nothing_moves n now (start + l.handshake_to) _ (run-deadline es (handle_conn l start)) h

-- A round of watch on a connection that is watched, not stopped and not killed cuts it exactly when
-- its timeout has passed since the last byte moved; it then tells onKill for how long nothing moved,
-- and nothing moves afterwards.
pub watch_cuts_iff :
    (now : ℕ) (c : Conn)
    → c.watched ≡ true
    → c.stopped ≡ false
    → c.killed ≡ false
    → 0 < c.timeout
    → (((watch now c).1 ≡ some (now - c.last_at)) ↔ (c.last_at + c.timeout ≤ now))
      × (c.last_at + c.timeout ≤ now → (n later : ℕ) → (transfer n later (watch now c).0).1 ≡ 0)
      × (now < c.last_at + c.timeout → watch now c ≡ (c, none))
unfolding watch transfer moved
watch_cuts_iff now c w s k t = (ground arith, (λ h n later. ground arith), λ h. ground arith)
