-- ===== src/Clashapi/Traffic.antt =====
-- clashapi/traffic.go, and serveTrafficWS of clashapi/handlers.go: the counters of bytes. An int64 is
-- its bit pattern.
pub mod Laws
use ssh_worker.Prelude.{
  ℕ, zero, suc, ◌+◌, ◌-◌, ◌%◌, ◌<◌, Option, none, some, List, [], ◌∷◌, get_elem?, ◌≡◌,
}
use ssh_worker.Clashapi.Connections.{int64_add}

pub record TrafficTracker : Type 0 where
  pub upload : ℕ
  pub download : ℕ
  pub last_up : ℕ
  pub last_dn : ℕ

abbrev pub new_traffic_tracker : TrafficTracker
new_traffic_tracker = record { upload = 0; download = 0; last_up = 0; last_dn = 0 }

unfoldable pub add_upload : ℕ → TrafficTracker → TrafficTracker
add_upload n t = record t { upload = int64_add t.upload n }

unfoldable pub add_download : ℕ → TrafficTracker → TrafficTracker
add_download n t = record t { download = int64_add t.download n }

unfoldable pub totals : TrafficTracker → ℕ × ℕ
totals t = (t.upload, t.download)

abbrev pub int64_sub : ℕ → ℕ → ℕ
int64_sub a b = (a + 18446744073709551616 - b) % 18446744073709551616

-- Snapshot, as one step.
unfoldable pub snapshot : TrafficTracker → TrafficTracker × ℕ × ℕ
snapshot t = (
  record t { last_up = t.upload; last_dn = t.download },
  int64_sub t.upload t.last_up,
  int64_sub t.download t.last_dn,
)

-- One of the two counters with all the dashboards that read it: `loaded` are the values that
-- calls of Snapshot have loaded and not swapped yet, `given` is the sum of the differences that
-- were returned, and `traffic` the amounts that were added, the newest first.
pub record Counter : Type 0 where
  pub traffic : List ℕ
  pub total : ℕ
  pub last : ℕ
  pub loaded : List ℕ
  pub given : ℕ

abbrev pub remove_at : ℕ → List ℕ → List ℕ
remove_at i [] = []
remove_at zero (v ∷ vs) = vs
remove_at (suc i) (v ∷ vs) = v ∷ remove_at i vs

pub data Step : Counter → Counter → Type 0 where
  adds :
      (c : Counter) (n : ℕ)
      → Step c (record c { traffic = n ∷ c.traffic; total = int64_add c.total n })
  loads : (c : Counter) → Step c (record c { loaded = c.total ∷ c.loaded })
  swaps :
      (c : Counter) (i v : ℕ)
      → get_elem? c.loaded i ≡ some v
      → Step c (record c {
        last = v;
        loaded = remove_at i c.loaded;
        given = int64_add c.given (int64_sub v c.last);
      })

pub data Reach (c : Counter) : Counter → Type 0 where
  here : Reach c c
  next : {d e : Counter} → Reach c d → Step d e → Reach c e
