-- ===== src/Clashapi/Handlers.antt =====
-- clashapi/handlers.go, rules.go, routes.go, models.go and server.go: the answers of the API.
pub mod Rules
pub mod Routes
pub mod Laws
use ssh_worker.Prelude.{
  ℕ, zero, suc, ◌+◌, ◌-◌, ◌*◌, ltb, leb, ◌==◌, if◌then◌else◌, Bool, true, false, not, ◌&&◌, ◌||◌,
  Option, none, some, List, [], ◌∷◌, Text, bytes, text_eq, is_empty, min,
}
use ssh_worker.Prelude.Int.{ℤ, pos, negsuc}
use ssh_worker.Errs.{Error, error_text}
use ssh_worker.Socks5.Server.{Addresses}
use ssh_worker.Clashconfig.{ClashConfig, or_text}
use ssh_worker.Clashapi.Connections.{ConnectionTracker, ConnectionsResponse, snapshot}
use ssh_worker.Clashapi.Traffic.{TrafficTracker, totals}
use ssh_worker.Clashapi.Proxies.{
  WorkerRef, Proxy, bare, find_worker, is_alive, milliseconds, all_proxies,
}

-- The options that the handlers read: a function that is nil is `none`, and ActiveWorker is what it
-- returns.
pub record Options : Type 0 where
  pub version : Text
  pub workers : List WorkerRef
  pub selector_name : Text
  pub active_worker : Option Text
  pub set_active_worker : Option (Text → Option Error)
  pub clash_config : Option ClashConfig

unfoldable pub new_server : Options → Options
new_server o = record o {
  selector_name = or_text o.selector_name (bytes "WORKERS");
  version = or_text o.version (bytes "1.0.0");
}

pub record ConfigsResponse : Type 0 where
  pub port : ℤ
  pub socks_port : ℤ
  pub redir_port : ℤ
  pub mixed_port : ℤ
  pub allow_lan : Bool
  pub bind_address : Text
  pub mode : Text
  pub log_level : Text
  pub ipv6 : Bool

-- What is written behind the status; `empty` writes none.
pub data Body : Type 0 where
  empty hello no_logs : Body
  version : Text → Body
  configs : ConfigsResponse → Body
  proxies : List (Text × Proxy) → Body
  proxy : Proxy → Body
  delay : ℤ → Body  -- both of its fields
  connections : ConnectionsResponse → Body
  traffic : ℕ × ℕ → Body
  error : Text → Body

pub record Response : Type 0 where
  pub status : ℕ
  pub body : Body

abbrev pub answer : ℕ → Body → Response
answer n b = record { status = n; body = b }

unfoldable pub handle_hello : Response
handle_hello = answer 200 hello

unfoldable pub handle_version : Options → Response
handle_version o = answer 200 (version o.version)

-- strconv.Atoi without its error: 0 for a text that is no number, and the nearest int for a number
-- that is none. It stops at the byte where the number leaves the 64 bits, whatever stands behind.
unfoldable pub decimal : ℕ → Text → Option ℕ
decimal n [] = some n
decimal n (c ∷ cs) =
    let n' = n * 10 + (c - b'0') in
    let rest = decimal n' cs in
    if leb b'0' c && leb c b'9' then if leb 18446744073709551616 n' then some n' else rest else none

abbrev pub clamp : Bool → Option ℕ → ℤ
clamp minus none = pos 0
clamp false (some n) = pos (min n 9223372036854775807)
clamp true (some zero) = pos 0
clamp true (some (suc n)) = negsuc (min n 9223372036854775807)

abbrev pub unsigned : Bool → Text → ℤ
unsigned minus [] = pos 0
unsigned minus (c ∷ cs) = clamp minus (decimal 0 (c ∷ cs))

unfoldable pub std_atoi : Text → ℤ
unfolding decimal
std_atoi [] = pos 0
std_atoi (c ∷ cs) =
    if c == b'-'
    then unsigned true cs
    else if c == b'+'
    then unsigned false cs
    else unsigned false (c ∷ cs)

unfoldable pub split_host_port : Addresses → Text → Option (Text × ℤ)
unfolding std_atoi
split_host_port ad addr = elim (ad.split_host_port addr) [
  | none ↦ none
  | some (host, port) ↦ some (host, std_atoi port)
]

abbrev pub port_or_zero : Option (Text × ℤ) → ℤ
port_or_zero none = pos 0
port_or_zero (some (host, port)) = port

-- The port of the first worker.
unfoldable pub socks_port_of : Addresses → List WorkerRef → ℤ
unfolding split_host_port
socks_port_of ad [] = pos 0
socks_port_of ad (w ∷ ws) = port_or_zero (split_host_port ad w.addr)

unfoldable pub configs_of : Addresses → Option ClashConfig → List WorkerRef → ConfigsResponse
unfolding socks_port_of
configs_of ad (some c) ws = record {
  port = c.port;
  socks_port = c.socks_port;
  redir_port = c.redir_port;
  mixed_port = c.mixed_port;
  allow_lan = c.allow_lan;
  bind_address = c.bind_address;
  mode = c.mode;
  log_level = c.log_level;
  ipv6 = c.ipv6;
}
configs_of ad none ws = record {
  port = pos 0;
  socks_port = socks_port_of ad ws;
  redir_port = pos 0;
  mixed_port = socks_port_of ad ws;
  allow_lan = false;
  bind_address = bytes "127.0.0.1";
  mode = bytes "rule";
  log_level = bytes "info";
  ipv6 = false;
}

unfoldable pub handle_get_configs : Addresses → Options → Response
unfolding configs_of
handle_get_configs ad o = answer 200 (configs (configs_of ad o.clash_config o.workers))

unfoldable pub handle_patch_configs : Response
handle_patch_configs = answer 204 empty

unfoldable pub handle_get_proxies : Options → Response
handle_get_proxies o = answer 200 (
    proxies (
      all_proxies o.selector_name (elim o.active_worker [ none ↦ [] | some t ↦ t ]) o.workers
        o.clash_config))

abbrev pub not_found : Response
not_found = answer 404 (error (bytes "Proxy not found"))

unfoldable pub found_proxy : Text → Option WorkerRef → Response
found_proxy name none = not_found
found_proxy name (some w) = answer 200 (
    proxy (record (bare (bytes "Socks5") name) {
      alive = is_alive w;
      extra = (bytes "addr", w.addr) ∷ [];
    }))

unfoldable pub handle_get_proxy : Text → Options → Response
unfolding handle_get_proxies found_proxy
handle_get_proxy name o =
    if text_eq name o.selector_name
    then handle_get_proxies o
    else found_proxy name (find_worker name o.workers)

-- A body of a PUT: the name in it, or the error of its JSON.
pub data Decoded : Type 0 where
  decoded : Text → Decoded
  malformed : Text → Decoded

unfoldable pub switched : Option Error → Response
unfolding error_text
switched none = answer 204 empty
switched (some e) = answer 500 (error (error_text e))

unfoldable pub switch_to : Decoded → Option (Text → Option Error) → Response
unfolding switched
switch_to (malformed e) set = answer 400 (error e)
switch_to (decoded name) none = answer 501 (error (bytes "switching not supported"))
switch_to (decoded name) (some set) = switched (set name)

unfoldable pub handle_put_proxy : Text → Decoded → Options → Response
unfolding switch_to
handle_put_proxy name body o =
    if text_eq name o.selector_name
    then switch_to body o.set_active_worker
    else answer 400 (error (bytes "not a selector"))

unfoldable pub delay_of : WorkerRef → ℤ
delay_of w = if is_alive w then elim w.latency [ none ↦ pos 0 | some d ↦ milliseconds d ] else pos 0

unfoldable pub found_delay : Option WorkerRef → Response
unfolding delay_of
found_delay none = not_found
found_delay (some w) = answer 200 (delay (delay_of w))

unfoldable pub handle_proxy_delay : Text → Options → Response
unfolding found_delay
handle_proxy_delay name o = found_delay (find_worker name o.workers)

unfoldable pub is_web_socket : Text → Bool
is_web_socket upgrade = text_eq upgrade (bytes "websocket")

-- `none` where the connection is handed to the loop of a WebSocket.
unfoldable pub handle_connections : Text → ConnectionTracker → Option Response
unfolding is_web_socket
handle_connections upgrade t =
    if is_web_socket upgrade then none else some (answer 200 (connections (snapshot t)))

unfoldable pub handle_close_all_connections : Response
handle_close_all_connections = answer 204 empty

unfoldable pub handle_close_connection : Text → Response
handle_close_connection id = answer 204 empty

unfoldable pub handle_traffic : Text → TrafficTracker → Option Response
unfolding is_web_socket
handle_traffic upgrade t =
    if is_web_socket upgrade then none else some (answer 200 (traffic (totals t)))

unfoldable pub handle_logs : Text → Option Response
unfolding is_web_socket
handle_logs upgrade = if is_web_socket upgrade then none else some (answer 200 no_logs)
