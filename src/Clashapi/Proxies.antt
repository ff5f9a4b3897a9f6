-- ===== src/Clashapi/Proxies.antt =====
-- clashapi/proxies_yaml.go, the loop of handleGetProxies in handlers.go, and the workers of
-- server.go: the proxies that the dashboard shows.
pub mod Laws
use ssh_worker.Prelude.{
  ℕ, zero, suc, ◌/◌, if◌then◌else◌, Bool, true, false, Option, none, some, List, [], ◌∷◌, map, Text,
  bytes, text_eq, is_empty,
}
use ssh_worker.Prelude.Int.{ℤ, pos, negsuc}
use ssh_worker.Prelude.Maps.{put}
use ssh_worker.Config.{itoa}
use ssh_worker.Clashconfig.{ProxyEntry, ProxyGroup, ClashConfig}

-- What the functions of a worker return; `none` where the function is nil. A snapshot is the JSON
-- of it, or `none` where there is none.
pub record WorkerRef : Type 0 where
  pub name : Text
  pub addr : Text
  pub healthy : Option Bool
  pub latency : Option ℤ
  pub snapshot : Option (Option Text)

-- The delays of the history, in milliseconds.
pub record Proxy : Type 0 where
  pub kind : Text
  pub name : Text
  pub udp : Bool
  pub history : List ℤ
  pub now : Text
  pub all : List Text
  pub alive : Bool
  pub extra : List (Text × Text)

abbrev pub bare : Text → Text → Proxy
bare kind name = record {
  kind = kind;
  name = name;
  udp = false;
  history = [];
  now = [];
  all = [];
  alive = false;
  extra = [];
}

abbrev pub opposite : ℕ → ℤ
opposite zero = pos 0
opposite (suc n) = negsuc n

-- Milliseconds of a duration of so many nanoseconds.
unfoldable pub milliseconds : ℤ → ℤ
milliseconds (pos n) = pos (n / 1_000_000)
milliseconds (negsuc n) = opposite (suc n / 1_000_000)

unfoldable pub find_worker : Text → List WorkerRef → Option WorkerRef
find_worker name [] = none
find_worker name (w ∷ ws) =
    let rest = find_worker name ws in if text_eq w.name name then some w else rest

unfoldable pub is_alive : WorkerRef → Bool
is_alive w = elim w.healthy [ none ↦ true | some b ↦ b ]

abbrev pub history_of : Option ℤ → List ℤ
history_of none = []
history_of (some d) = milliseconds d ∷ []

abbrev pub health_of : Option (Option Text) → List (Text × Text)
health_of (some (some json)) = (bytes "health", json) ∷ []
health_of _ = []

unfoldable pub worker_proxy : WorkerRef → Proxy
unfolding is_alive milliseconds
worker_proxy w = record (bare (bytes "Socks5") w.name) {
  history = history_of w.latency;
  alive = is_alive w;
  extra = (bytes "addr", w.addr) ∷ health_of w.snapshot;
}

unfoldable pub yaml_proxy : ProxyEntry → Proxy
unfolding itoa
yaml_proxy p = record (bare (bytes "Socks5") p.name) {
  udp = p.udp;
  extra =
      (bytes "server", p.server)
      ∷ (bytes "port", itoa p.port)
      ∷ (bytes "source", bytes "yaml")
      ∷ [];
}

unfoldable pub map_group_type : Text → Text
map_group_type t =
    if text_eq t (bytes "select")
    then bytes "Selector"
    else if text_eq t (bytes "url-test")
    then bytes "URLTest"
    else if text_eq t (bytes "fallback")
    then bytes "Fallback"
    else if text_eq t (bytes "load-balance")
    then bytes "LoadBalance"
    else bytes "Selector"

abbrev pub first_or_empty : List Text → Text
first_or_empty [] = []
first_or_empty (t ∷ ts) = t

unfoldable pub group_proxy : ProxyGroup → Proxy
unfolding map_group_type
group_proxy g = record (bare (map_group_type g.kind) g.name) {
  all = g.proxies;
  now = if text_eq g.kind (bytes "select") then first_or_empty g.proxies else [];
}

-- A loop that puts what it goes over into the map, each under its name.
module _ {A : Type 0} (name_of : A → Text) (proxy_of : A → Proxy) where
  unfoldable pub put_each : List A → List (Text × Proxy) → List (Text × Proxy)
  put_each [] m = m
  put_each (x ∷ xs) m = put_each xs (put (name_of x) (proxy_of x) m)

unfoldable pub merge_yaml_proxies : Option ClashConfig → List (Text × Proxy) → List (Text × Proxy)
unfolding put_each yaml_proxy group_proxy
merge_yaml_proxies none m = m
merge_yaml_proxies (some c) m =
    put_each (λ (g : ProxyGroup). g.name) group_proxy c.proxy_groups
      (put_each (λ (p : ProxyEntry). p.name) yaml_proxy c.proxies m)

-- `active` is what ActiveWorker returned, and the empty text where it is nil.
unfoldable pub selector_now : Text → List WorkerRef → Text
selector_now active ws =
    if is_empty active then first_or_empty (map (λ (w : WorkerRef). w.name) ws) else active

unfoldable pub selector_proxy : Text → Text → List WorkerRef → Proxy
unfolding selector_now
selector_proxy selector active ws = record (bare (bytes "Selector") selector) {
  now = selector_now active ws;
  all = map (λ (w : WorkerRef). w.name) ws;
}

abbrev pub fixed_proxies : List (Text × Proxy)
fixed_proxies =
    (bytes "DIRECT", record (bare (bytes "Direct") (bytes "DIRECT")) { udp = true })
    ∷ (bytes "REJECT", bare (bytes "Reject") (bytes "REJECT"))
    ∷ []

-- The map that handleGetProxies writes.
unfoldable pub all_proxies : Text → Text → List WorkerRef → Option ClashConfig → List (Text × Proxy)
unfolding put_each worker_proxy selector_proxy merge_yaml_proxies
all_proxies selector active ws clash = merge_yaml_proxies clash (
    put selector (selector_proxy selector active ws)
      (put_each (λ (w : WorkerRef). w.name) worker_proxy ws fixed_proxies))
