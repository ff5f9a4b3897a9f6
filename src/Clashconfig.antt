-- ===== src/Clashconfig.antt =====
-- internal/clashconfig: the configuration of Clash that is read from YAML, its defaults and its
-- validation. Reading the file and the YAML are left out.
mod Examples
pub mod Paths
pub mod Laws
use ssh_worker.Prelude.{
  if◌then◌else◌, Bool, true, false, not, ◌&&◌, ◌||◌, Option, none, some, List, [], ◌∷◌, ◌++◌, Text,
  bytes, is_empty,
}
use ssh_worker.Prelude.Int.{ℤ, is_neg}
use ssh_worker.Prelude.Maps.{lookup, put}
use ssh_worker.Errs.{Error}
use ssh_worker.Clashconfig.Paths.{is_abs, dir, join_path}

pub record ProxyEntry : Type 0 where
  pub name : Text
  pub kind : Text
  pub server : Text
  pub port : ℤ
  pub udp : Bool
  pub username : Text
  pub password : Text

pub record ProxyGroup : Type 0 where
  pub name : Text
  pub kind : Text
  pub proxies : List Text
  pub url : Text
  pub interval : ℤ
  pub tolerance : ℤ
  pub lazy : Bool
  pub strategy : Text

pub record SniffProtocol : Type 0 where
  pub ports : List Text

pub record Sniffer : Type 0 where
  pub enable : Bool
  pub sniff : List (Text × SniffProtocol)
  pub force_dns_mapping : Bool
  pub parse_pure_ip : Bool

pub record FallbackFilter : Type 0 where
  pub geo_ip : Bool
  pub ip_cidr : List Text

pub record DnsConfig : Type 0 where
  pub enable : Bool
  pub ipv6 : Bool
  pub listen : Text
  pub enhanced_mode : Text
  pub fake_ip_range : Text
  pub fake_ip_filter : List Text
  pub default_nameserver : List Text
  pub nameserver : List Text
  pub proxy_server_ns : List Text
  pub fallback : List Text
  pub fallback_filter : Option FallbackFilter

pub record RuleProvider : Type 0 where
  pub kind : Text
  pub behavior : Text
  pub url : Text
  pub path : Text
  pub interval : ℤ

pub record ClashConfig : Type 0 where
  pub mixed_port : ℤ
  pub redir_port : ℤ
  pub socks_port : ℤ
  pub port : ℤ
  pub allow_lan : Bool
  pub bind_address : Text
  pub mode : Text
  pub log_level : Text
  pub ipv6 : Bool
  pub external_controller : Text
  pub external_ui : Text
  pub secret : Text
  pub global_client_fingerprint : Text
  pub unified_delay : Bool
  pub tcp_concurrent : Bool
  pub find_process_mode : Text
  pub sniffer : Option Sniffer
  pub proxies : List ProxyEntry
  pub proxy_groups : List ProxyGroup
  pub dns : Option DnsConfig
  pub rules : List Text
  pub rule_providers : List (Text × RuleProvider)

abbrev pub or_text : Text → Text → Text
or_text [] d = d
or_text (c ∷ cs) d = c ∷ cs

-- The directory of the dashboard is sought beside the file.
unfoldable pub place_ui : Text → Text → Text
place_ui yaml_path ui =
    if not (is_empty ui) && not (is_abs ui) then join_path (dir yaml_path) ui else ui

unfoldable pub apply_defaults : Text → ClashConfig → ClashConfig
unfolding place_ui
apply_defaults yaml_path c = record c {
  mode = or_text c.mode (bytes "rule");
  log_level = or_text c.log_level (bytes "info");
  external_controller = or_text c.external_controller (bytes "127.0.0.1:9090");
  external_ui = place_ui yaml_path c.external_ui;
}

abbrev pub all_known : List Text → List (Text × Bool) → List (Text × Bool)
all_known [] m = m
all_known (n ∷ ns) m = all_known ns (put n true m)

abbrev pub proxy_names : List ProxyEntry → List Text
proxy_names [] = []
proxy_names (p ∷ ps) = p.name ∷ proxy_names ps

abbrev pub group_names : List ProxyGroup → List Text
group_names [] = []
group_names (g ∷ gs) = g.name ∷ group_names gs

unfoldable pub known : ClashConfig → List (Text × Bool)
known c = all_known (group_names c.proxy_groups) (
    all_known (proxy_names c.proxies)
      ((bytes "DIRECT", true) ∷ (bytes "REJECT", true) ∷ (bytes "GLOBAL", true) ∷ []))

-- A key that is not in the map reads as false.
abbrev pub holds : Option Bool → Bool
holds none = false
holds (some b) = b

abbrev pub unknown_reference : Text → Text → Error
unknown_reference name ref =
    Error.other (bytes "clashconfig: group " ++ name ++ bytes " merujuk proxy tak dikenal: " ++ ref)

-- The loop over the references of a group; `rest` is the loop over the groups behind it.
unfoldable pub check_refs : List (Text × Bool) → Text → List Text → Option Error → Option Error
check_refs m name [] rest = rest
check_refs m name (ref ∷ refs) rest =
    let more = check_refs m name refs rest in
    if holds (lookup ref m) then more else some (unknown_reference name ref)

unfoldable pub check_groups : List (Text × Bool) → List ProxyGroup → Option Error
unfolding check_refs
check_groups m [] = none
check_groups m (g ∷ gs) = check_refs m g.name g.proxies (check_groups m gs)

abbrev pub negative_port : Error
negative_port = Error.other (bytes "clashconfig: port tidak boleh negatif")

unfoldable pub validate : ClashConfig → Option Error
unfolding known check_groups
validate c =
    if is_neg c.mixed_port || is_neg c.socks_port || is_neg c.port
    then some negative_port
    else check_groups (known c) c.proxy_groups
