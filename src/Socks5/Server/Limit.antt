-- ===== src/Socks5/Server/Limit.antt =====
-- socks5/server.go, Serve and handleConn: the limit on connections.
use ssh_worker.Prelude.{ℕ, suc, ◌+◌, ◌≤◌, ◌<◌, ◌≡◌, refl, arith, ◌∙◌}
use ssh_worker.Socks5.Server.{Server, accept, finish}

-- What the accept loop and the handlers do, in any order: a connection arrives, or a handler that
-- was counted ends.
-- `left` counts the handlers that have ended.
pub data Reach (s : Server) : ℕ → Server → Type 0 where
  here : Reach s 0 s
  admit : {left : ℕ} {t : Server} → Reach s left t → Reach s left (accept t).0
  end_one : {left : ℕ} {t : Server} → Reach s left t → 0 < t.active → Reach s (suc left) (finish t)

pub accept_bounds :
    (s : Server) (left : ℕ)
    → s.active ≤ s.limits.max_conns
    → s.total ≡ s.active + left
    → ((accept s).0.active ≤ (accept s).0.limits.max_conns)
      × ((accept s).0.total ≡ (accept s).0.active + left)
      × ((accept s).0.limits ≡ s.limits)
unfolding accept
accept_bounds s left h k = (ground arith, ground arith, ground arith)

pub finish_bounds :
    (s : Server) (left : ℕ)
    → 0 < s.active
    → s.active ≤ s.limits.max_conns
    → s.total ≡ s.active + left
    → ((finish s).active ≤ s.limits.max_conns) × ((finish s).total ≡ (finish s).active + suc left)
unfolding finish
finish_bounds s left p h k = (omega arith, omega arith)

pub record Within (start : Server) (left : ℕ) (s : Server) : Type 0 where
  pub limits : s.limits ≡ start.limits
  pub active : s.active ≤ s.limits.max_conns
  pub total : s.total ≡ s.active + left

finish-limits : (s : Server) → (finish s).limits ≡ s.limits
unfolding finish
finish-limits s = refl

-- From a server with no connections, however connections arrive and handlers end: at most
-- max_conns connections are handled at once, and every connection that was counted in total is
-- handled now or its handler has ended.
pub Reach-Within :
    {start s : Server} {left : ℕ}
    → start.active ≡ 0
    → start.total ≡ 0
    → Reach start left s
    → Within start left s
unfolding finish
Reach-Within z t here = record { limits = refl; active = omega arith; total = omega arith }
Reach-Within z t (admit {left = left} {t = s} r) =
    let w = Reach-Within z t r in
    let (active, total, limits) = accept_bounds s left w.active w.total in
    record { limits = limits ∙ w.limits; active = active; total = total }
Reach-Within z t (end_one {left = left} {t = s} r p) =
    let w = Reach-Within z t r in
    let (active, total) = finish_bounds s left p w.active w.total in
    record { limits = w.limits; active = active; total = total }
