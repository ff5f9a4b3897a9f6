-- ===== src/Rules/Types.antt =====
-- internal/rules/types.go: the kinds of rule, and when each matches.
use ssh_worker.Prelude.{
  ◌||◌, if◌then◌else◌, Bool, true, false, [], ◌∷◌, Text, bytes, text_eq, ends_with, contains,
  Option, none, some, ◌==◌,
}
use ssh_worker.Prelude.Int.{ℤ, pos, negsuc}
use ssh_worker.Rules.Number.{itoa}
use ssh_worker.Rules.Matcher.{Regexp, DomainMatcher, contains_host}

-- What of package net the rules use: an address is its bytes.
pub record Networks : Type 1 where
  pub Network : Type 0
  pub parse_cidr : Text → Option Network
  pub net_contains : Network → Text → Bool
  pub is_v4 : Network → Bool
  pub net_text : Network → Text

-- The adapters that the program knows; any other names a proxy.
abbrev pub adapter_direct : Text
adapter_direct = bytes "DIRECT"

abbrev pub adapter_reject : Text
adapter_reject = bytes "REJECT"

pub record MatchContext : Type 0 where
  pub host : Text
  pub ip : Option Text
  pub port : ℤ
  pub network : Text

pub record MatchResult : Type 0 where
  pub adapter : Text
  pub matched_by : Text

abbrev pub int_eq : ℤ → ℤ → Bool
int_eq (pos m) (pos n) = m == n
int_eq (pos m) (negsuc n) = false
int_eq (negsuc m) (pos n) = false
int_eq (negsuc m) (negsuc n) = m == n

-- What a rule tests; the fields adapter and raw are those of every rule.
pub data Test (re : Regexp) (net : Networks) : Type 0 where
  domain : Text → Test re net
  domain_suffix : Text → Test re net
  domain_keyword : Text → Test re net
  domain_regex : re.Regex → Text → Test re net
  ip_cidr : net.Network → Bool → Test re net
  dst_port : ℤ → Test re net
  geosite : Text → DomainMatcher re → Test re net
  match_all : Test re net

pub record Rule (re : Regexp) (net : Networks) : Type 0 where
  pub test : Test re net
  pub adapter : Text
  pub raw : Text

module _ {re : Regexp} {net : Networks} where
  unfoldable pub test_matches : Test re net → MatchContext → Bool
  unfolding contains_host
  test_matches (domain d) ctx = text_eq ctx.host d
  test_matches (domain_suffix s) ctx = text_eq ctx.host s || ends_with ctx.host (b'.' ∷ s)
  test_matches (domain_keyword k) ctx = contains ctx.host k
  test_matches (domain_regex r pattern_text) ctx = re.match_string r ctx.host
  test_matches (ip_cidr n no_resolve) ctx = elim ctx.ip [
    | none ↦ false
    | some ip ↦ net.net_contains n ip
  ]
  test_matches (dst_port p) ctx = int_eq ctx.port p
  test_matches (geosite category m) ctx = contains_host re m ctx.host
  test_matches match_all ctx = true

  unfoldable pub matches : Rule re net → MatchContext → Bool
  unfolding test_matches
  matches r ctx = test_matches r.test ctx

  unfoldable pub test_type : Test re net → Text
  test_type (domain d) = bytes "DOMAIN"
  test_type (domain_suffix s) = bytes "DOMAIN-SUFFIX"
  test_type (domain_keyword k) = bytes "DOMAIN-KEYWORD"
  test_type (domain_regex r pattern_text) = bytes "DOMAIN-REGEX"
  test_type (ip_cidr n no_resolve) = if net.is_v4 n then bytes "IP-CIDR" else bytes "IP-CIDR6"
  test_type (dst_port p) = bytes "DST-PORT"
  test_type (geosite category m) = bytes "GEOSITE"
  test_type match_all = bytes "MATCH"

  -- The method Payload; `none` is its panic.
  unfoldable pub payload : Test re net → Option Text
  unfolding itoa
  payload (domain d) = some d
  payload (domain_suffix s) = some s
  payload (domain_keyword k) = some k
  payload (domain_regex r pattern_text) = some pattern_text
  payload (ip_cidr n no_resolve) = some (net.net_text n)
  payload (dst_port p) = itoa p
  payload (geosite category m) = some category
  payload match_all = some []
