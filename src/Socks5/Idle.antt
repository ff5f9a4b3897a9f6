-- ===== src/Socks5/Idle.antt =====
-- socks5/idleconn.go and handleConn of socks5/server.go: one connection and its two time limits.
pub mod Laws
use ssh_worker.Prelude.{
  ℕ, ◌+◌, ◌-◌, ltb, leb, if◌then◌else◌, Bool, true, false, not, ◌||◌, Option, none, some, List, [],
  ◌∷◌,
}
use ssh_worker.Socks5.Server.{Limits}

-- A connection under the wrapper: its deadline, which package net enforces, whether it is closed,
-- and the fields of idleConn. `watched` is false once the goroutine of watch has returned.
pub record Conn : Type 0 where
  pub deadline : Option ℕ
  pub closed : Bool
  pub timeout : ℕ
  pub last_at : ℕ
  pub killed : Bool
  pub stopped : Bool
  pub watched : Bool

-- SetDeadline and newIdleConn, as handleConn calls them; the timeout is positive.
unfoldable pub handle_conn : Limits → ℕ → Conn
handle_conn l now = record {
  deadline = some (now + l.handshake_to);
  closed = false;
  timeout = l.idle_timeout;
  last_at = now;
  killed = false;
  stopped = false;
  watched = true;
}

unfoldable pub expired : Option ℕ → ℕ → Bool
expired none now = false
expired (some d) now = leb d now

-- What the network does with a read or write of `n` bytes: nothing after the deadline or on a
-- closed connection.
unfoldable pub moved : ℕ → ℕ → Conn → ℕ
unfolding expired
moved n now c = if c.closed || expired c.deadline now then 0 else n

unfoldable pub touch : ℕ → Conn → Conn
touch now c = record c { last_at = now }

-- Read and Write; the number is the count of bytes that moved.
unfoldable pub transfer : ℕ → ℕ → Conn → Conn × ℕ
unfolding touch moved
transfer n now c = let k = moved n now c in (if ltb 0 k then touch now c else c, k)

unfoldable pub close : Conn → Conn
close c = record c { stopped = true; closed = true }

-- A round of watch: the stop channel or a tick. The number is what onKill is told, where it is
-- called.
unfoldable pub watch : ℕ → Conn → Conn × Option ℕ
watch now c =
    if not c.watched
    then (c, none)
    else if c.stopped
    then (record c { watched = false }, none)
    else if leb c.timeout (now - c.last_at)
    then (if c.killed
        then (record c { watched = false }, none)
        else (record c { killed = true; closed = true; watched = false }, some (now - c.last_at)))
    else (c, none)
