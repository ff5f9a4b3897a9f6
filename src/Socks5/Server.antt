-- ===== src/Socks5/Server.antt =====
-- socks5/server.go: the options, the route of a destination and the accept loop.
pub mod Routing
pub mod Limit
pub mod Serve
use ssh_worker.Prelude.{
  ℕ, zero, suc, ◌+◌, ◌-◌, ◌*◌, ltb, leb, if◌then◌else◌, Bool, true, false, Option, none, some, List,
  [], ◌∷◌, Text, text_eq,
}
use ssh_worker.Prelude.Int.{ℤ, positive_or}
use ssh_worker.Rules.Number.{atoi_or_zero}
use ssh_worker.Rules.Matcher.{Regexp}
use ssh_worker.Rules.Types.{
  Networks, MatchContext, MatchResult, Rule, adapter_direct, adapter_reject,
}
use ssh_worker.Rules.Engine.{normalize_host, match_rules}

abbrev pub second : ℕ
second = 1_000_000_000

pub record Options : Type 0 where
  pub max_conns : ℤ
  pub idle_timeout : ℤ
  pub handshake_to : ℤ

-- The options as New leaves them.
pub record Limits : Type 0 where
  pub max_conns : ℕ
  pub idle_timeout : ℕ
  pub handshake_to : ℕ

unfoldable pub defaults : Options → Limits
defaults o = record {
  max_conns = positive_or o.max_conns 1024;
  idle_timeout = positive_or o.idle_timeout (300 * second);
  handshake_to = positive_or o.handshake_to (15 * second);
}

-- net.SplitHostPort and net.ParseIP.
pub record Addresses : Type 0 where
  pub split_host_port : Text → Option (Text × Text)
  pub parse_ip : Text → Option Text

-- Where route sends a connection; `own_direct` is the option DirectDial.
pub data Route : Type 0 where
  ssh own_direct net_direct bad_address : Route
  blocked : Text → Route

-- The context that route matches: an address literal has no host.
unfoldable pub context : Addresses → Text → Text → Text → MatchContext
context ad network host port = elim (ad.parse_ip host) [
  | none ↦ record {
    host = normalize_host host;
    ip = none;
    port = atoi_or_zero port;
    network = network;
  }
  | some ip ↦ record { host = []; ip = some ip; port = atoi_or_zero port; network = network }
]

-- The switch on the adapter.
unfoldable pub send : Bool → MatchResult → Route
send has_direct res =
    if text_eq res.adapter adapter_reject
    then blocked res.matched_by
    else if text_eq res.adapter adapter_direct
    then (if has_direct then own_direct else net_direct)
    else ssh

module _ {re : Regexp} {net : Networks} where
  unfoldable pub route_to :
      Addresses → List (Rule re net) → Bool → Text → Option (Text × Text) → Route
  unfolding send
  route_to ad rules has_direct network none = bad_address
  route_to ad rules has_direct network (some (host, port)) =
      send has_direct (match_rules rules (context ad network host port))

  unfoldable pub route : Addresses → Option (List (Rule re net)) → Bool → Text → Text → Route
  unfolding route_to
  route ad none has_direct network addr = ssh
  route ad (some rules) has_direct network addr =
      route_to ad rules has_direct network (ad.split_host_port addr)

-- The counters of a server that serves.
pub record Server : Type 0 where
  pub limits : Limits
  pub active : ℕ
  pub total : ℕ

-- What a connection that Accept gave meets; `turned_away` is closed at once.
pub data Admission : Type 0 where
  handled turned_away : Admission

unfoldable pub accept : Server → Server × Admission
accept s =
    if leb s.limits.max_conns s.active
    then (s, turned_away)
    else (record s { active = s.active + 1; total = s.total + 1 }, handled)

-- The deferred `active.Add(-1)` of handleConn.
unfoldable pub finish : Server → Server
finish s = record s { active = s.active - 1 }
