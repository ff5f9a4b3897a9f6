-- ===== src/Config.antt =====
-- config/config.go: the configuration, its addresses, its defaults and its validation. Reading the
-- file and the JSON are left out.
mod Examples
pub mod Laws
pub mod Addresses
use ssh_worker.Prelude.{
  ℕ, zero, suc, ◌+◌, ◌-◌, ◌*◌, ◌/◌, ◌%◌, ltb, leb, if◌then◌else◌, Bool, true, false, not, ◌&&◌,
  ◌||◌, List, [], ◌∷◌, ◌++◌, Text, bytes, is_empty, text_eq, any, ◌==◌,
}
use ssh_worker.Prelude.Int.{ℤ, pos, negsuc, is_zero, is_nonpos, positive_or, add_nat}
use ssh_worker.Rules.Number.{int64}

pub record ListenConfig : Type 0 where
  pub host : Text
  pub port : ℤ

pub record ConcurrencyConfig : Type 0 where
  pub enable : Bool
  pub workers : ℤ
  pub start_port : ℤ

pub record SshConfig : Type 0 where
  pub host : Text
  pub port : ℤ
  pub username : Text
  pub password : Text
  pub private_key : Text

pub record TransportConfig : Type 0 where
  pub tls : Bool
  pub host : Text
  pub path : Text
  pub sni : Text

pub record ProxyConfig : Type 0 where
  pub enable : Bool
  pub host : Text
  pub port : ℤ
  pub kind : Text
  pub username : Text
  pub password : Text

pub record PayloadConfig : Type 0 where
  pub enable : Bool
  pub request : Text
  pub expect : List Text

pub record Socks5Options : Type 0 where
  pub max_conns : ℤ
  pub idle_timeout : ℤ

-- The part of Config that its methods read; `network` is Network.Type.
pub record Config : Type 0 where
  pub listen : ListenConfig
  pub concurrency : ConcurrencyConfig
  pub ssh : SshConfig
  pub network : Text
  pub transport : TransportConfig
  pub proxy : ProxyConfig
  pub payload : PayloadConfig
  pub socks5 : Socks5Options
  pub log_level : Text

-- strconv.Itoa: the digits, with room for the twenty of an unsigned number of 64 bits.
unfoldable pub digits : ℕ → ℕ → Text → Text
digits zero n s = s
digits (suc room) n s =
    let rest = digits room (n / 10) ((b'0' + n % 10) ∷ s) in
    if ltb n 10 then (b'0' + n) ∷ s else rest

unfoldable pub itoa : ℤ → Text
itoa (pos n) = digits 20 n []
itoa (negsuc n) = b'-' ∷ digits 20 (suc n) []

-- net.JoinHostPort: a host with a colon is an IPv6 address.
unfoldable pub join_host_port : Text → Text → Text
join_host_port host port =
    (if any (λ c. c == b':') host then b'[' ∷ host ++ b']' ∷ [] else host) ++ b':' ∷ port

abbrev pub or_text : Text → Text → Text
or_text [] d = d
or_text (c ∷ cs) d = c ∷ cs

unfoldable pub dial_target : Config → Text
dial_target c =
    if c.proxy.enable && not (is_empty c.proxy.host)
    then join_host_port c.proxy.host (itoa c.proxy.port)
    else join_host_port c.ssh.host (itoa c.ssh.port)

unfoldable pub payload_host : Config → Text
payload_host c = or_text c.transport.host c.ssh.host

unfoldable pub sni_host : Config → Text
sni_host c = or_text c.transport.sni (or_text c.transport.host c.ssh.host)

-- `start + i`, an int of 64 bits.
unfoldable pub port_at : ℤ → ℕ → ℤ
port_at (pos s) i = int64 (s + i)
port_at (negsuc s) i = add_nat (negsuc s) i

-- The loop over the workers from the i-th on; `n` are left.
unfoldable pub addrs_from : Text → ℤ → ℕ → ℕ → List Text
addrs_from host start i zero = []
addrs_from host start i (suc n) =
    join_host_port host (itoa (port_at start i)) ∷ addrs_from host start (suc i) n

-- The number of workers when there are more than one, and 0 otherwise.
abbrev pub many : ℤ → ℕ
many (pos n) = if leb n 1 then 0 else n
many (negsuc n) = 0

unfoldable pub listen_host : Config → Text
listen_host c = or_text c.listen.host (bytes "127.0.0.1")

unfoldable pub start_port : Config → ℤ
start_port c = if is_zero c.concurrency.start_port then c.listen.port else c.concurrency.start_port

unfoldable pub listen_addrs : Config → List Text
unfolding listen_host
listen_addrs c =
    if not c.concurrency.enable || (many c.concurrency.workers == 0)
    then join_host_port (listen_host c) (itoa c.listen.port) ∷ []
    else addrs_from (listen_host c) (start_port c) 0 (many c.concurrency.workers)

abbrev pub or_zero : ℤ → ℤ → ℤ
or_zero n d = if is_zero n then d else n

unfoldable pub apply_defaults : Config → Config
apply_defaults c = record c {
  network = or_text c.network (bytes "tcp");
  transport = record c.transport { path = or_text c.transport.path (bytes "/") };
  proxy = record c.proxy { kind = or_text c.proxy.kind (bytes "http") };
  concurrency = record c.concurrency { workers = pos (positive_or c.concurrency.workers 1) };
  ssh = record c.ssh { port = or_zero c.ssh.port (pos 22) };
  socks5 = record {
    max_conns = pos (positive_or c.socks5.max_conns 2048);
    idle_timeout = pos (positive_or c.socks5.idle_timeout 20000000000);
  };
  log_level = or_text c.log_level (bytes "info");
}

-- The messages of the conditions that hold, in order.
unfoldable pub complaints : List (Bool × Text) → List Text
complaints [] = []
complaints ((b, msg) ∷ cs) = if b then msg ∷ complaints cs else complaints cs

abbrev pub network_ok : Text → Bool
network_ok t = text_eq t (bytes "tcp") || text_eq t (bytes "ws")

abbrev pub proxy_ok : Text → Bool
proxy_ok t = is_empty t || text_eq t (bytes "http") || text_eq t (bytes "socks5")

unfoldable pub validate_all : Config → List Text
validate_all c = complaints (
    (is_empty c.ssh.host, bytes "ssh.host wajib")
    ∷ (is_empty c.ssh.username, bytes "ssh.username wajib")
    ∷ (
      is_empty c.ssh.password && is_empty c.ssh.private_key,
      bytes "ssh: isi password atau private_key",
    )
    ∷ (c.proxy.enable && is_empty c.proxy.host, bytes "proxy.enable=true tapi proxy.host kosong")
    ∷ (
      c.payload.enable && is_empty c.payload.request,
      bytes "payload.enable=true tapi payload.request kosong",
    )
    ∷ (is_zero c.listen.port && not c.concurrency.enable, bytes "listen.port wajib")
    ∷ (not (network_ok c.network), bytes "network.type tidak didukung: " ++ c.network)
    ∷ (not (proxy_ok c.proxy.kind), bytes "proxy.type tidak didukung: " ++ c.proxy.kind)
    ∷ [])
