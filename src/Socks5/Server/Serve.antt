-- ===== src/Socks5/Server/Serve.antt =====
-- socks5/server.go: the loop of Serve, its end and drain.
pub mod Laws
use ssh_worker.Prelude.{
  ℕ, ◌+◌, ◌-◌, ◌*◌, ◌==◌, leb, if◌then◌else◌, Bool, ◌||◌, Option, none, some, List, [], ◌∷◌,
}
use ssh_worker.Errs.{Error}
use ssh_worker.Socks5.Server.{Server, accept, finish, second}

-- A turn of the accept loop, with what it meets, or the end of a handler in between. An error of
-- Accept comes with whether the context is done and whether the listener is closed.
pub data Event : Type 0 where
  accepts : Event
  handler_ends : Event
  fails : Bool → Bool → Event

-- The loop goes on, or Serve has called drain.
pub data Loop : Type 0 where
  serving : Server → Loop
  draining : Server → Loop

abbrev pub counters : Loop → Server
counters (serving s) = s
counters (draining s) = s

-- A handler that was counted ends.
unfoldable pub end_handler : Server → Server
unfolding finish
end_handler s = if leb 1 s.active then finish s else s

-- Once Serve has called drain, the listener is closed and the loop sees nothing more.
unfoldable pub step : Event → Loop → Loop
unfolding end_handler
step handler_ends (serving s) = serving (end_handler s)
step accepts (serving s) = serving (accept s).0
step (fails done closed) (serving s) = if done || closed then draining s else serving s
step e (draining s) = draining s

unfoldable pub run : List Event → Loop → Loop
unfolding step
run [] l = l
run (e ∷ es) l = run es (step e l)

-- What Serve returns: its error, the handlers that are left and go on, and how many nanoseconds drain
-- took.
pub record Served : Type 0 where
  pub error : Option Error
  pub left : ℕ
  pub after : ℕ

-- The ten seconds of drain.
abbrev pub patience : ℕ
patience = 10 * second

-- The select of drain, `waited` behind its start with `timer` to go: no handler is left, or the timer
-- fires, which it does where the handler that ends next takes longer. `waits` are the times from the
-- end of a handler to the end of the next one; behind them no handler ends.
unfoldable pub drain_from : ℕ → ℕ → List ℕ → Server → Served
unfolding end_handler
drain_from waited timer [] s =
    if s.active == 0
    then record { error = none; left = 0; after = waited }
    else record { error = none; left = s.active; after = waited + timer }
drain_from waited timer (d ∷ waits) s =
    let rest = drain_from (waited + d) (timer - d) waits (end_handler s) in
    if s.active == 0
    then record { error = none; left = 0; after = waited }
    else if leb timer d
    then record { error = none; left = s.active; after = waited + timer }
    else rest

-- `none` while the loop runs.
unfoldable pub drain : List ℕ → Loop → Option Served
unfolding drain_from
drain waits (serving s) = none
drain waits (draining s) = some (drain_from 0 patience waits s)

-- Serve, by the error of Listen, the events of the loop and the ends of handlers behind it.
unfoldable pub serve : Option Error → List Event → List ℕ → Server → Option Served
unfolding drain run
serve (some e) before waits s = some (record { error = some e; left = s.active; after = 0 })
serve none before waits s = drain waits (run before (serving s))
