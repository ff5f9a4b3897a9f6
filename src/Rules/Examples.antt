-- ===== src/Rules/Examples.antt =====
-- The rules: an example of each law.
use ssh_worker.Prelude.{
  ◌&&◌, ◌||◌, not, any, false, none, some, List, [], ◌∷◌, Text, bytes, text_eq, is_empty, to_lower,
  ends_with, trim_space, trim_left, split, to_upper, starts_with, upper, is_space, ◌≡◌, ◌⊎◌, refl,
  arith, All, lower,
}
use ssh_worker.Prelude.Int.{pos}
use ssh_worker.Samples.{literal, prefixes}
use ssh_worker.Geodata.{DomainType}
use ssh_worker.Rules.Matcher.{DomainMatcher, contains_host}
use ssh_worker.Rules.Matcher.Laws.{contains_host_lem}
use ssh_worker.Rules.Types.{MatchContext, Rule, domain_suffix, match_all, matches}
use ssh_worker.Rules.Geosite.{Sites, GeoSiteStore, new_store, get}
use ssh_worker.Rules.Geosite.Laws.{answer, IsCoherent, get_lem, new_store-IsCoherent}
use ssh_worker.Rules.Parser.{
  parsed, parse, split_csv, parse_parts, parse_plain, is_plain, make_rule,
}
use ssh_worker.Rules.Parser.Laws.{IsFrom, parse-IsFrom}
use ssh_worker.Rules.Engine.{match_rules, implicit}
use ssh_worker.Rules.Engine.Laws.{FirstMatch, match_rules-FirstMatch, IsLower}
use ssh_worker.Rules.Builder.{loaded, build}
use ssh_worker.Rules.Builder.Laws.{rules_for, build_lem}

abbrev ads : DomainMatcher literal
ads = record {
  exact = bytes "ads.example" ∷ [];
  suffix = bytes "example.org" ∷ [];
  regex = bytes "x.y" ∷ [];
}

contains_host_example : contains_host literal ads (bytes "A.Example.org") ≡ (
    not (is_empty (bytes "A.Example.org"))
    && (any (text_eq (to_lower (bytes "A.Example.org"))) ads.exact
        || any
            (λ d.
              text_eq (to_lower (bytes "A.Example.org")) d
              || ends_with (to_lower (bytes "A.Example.org")) (b'.' ∷ d))
            ads.suffix
        || any (λ r. text_eq r (to_lower (bytes "A.Example.org"))) ads.regex))
contains_host_example = contains_host_lem literal ads (bytes "A.Example.org")

abbrev sites : Sites
sites =
    (bytes "ads", record { kind = DomainType.domain; value = bytes "Ads.net"; attrs = [] } ∷ [])
    ∷ []

abbrev store : GeoSiteStore literal
store = new_store literal (some sites)

get_example :
    ((get literal (bytes "ads") store).1 ≡ answer literal store.loader (bytes "ads"))
    × ((get literal (bytes "ads") store).0.loader ≡ store.loader)
    × IsCoherent literal (get literal (bytes "ads") store).0
get_example = get_lem literal (bytes "ads") store (new_store-IsCoherent literal (some sites))

abbrev org_rule : Rule literal prefixes
org_rule = record {
  test = domain_suffix (bytes "example.org");
  adapter = bytes "DIRECT";
  raw = bytes "DOMAIN-SUFFIX,example.org,DIRECT";
}

abbrev last_rule : Rule literal prefixes
last_rule = record { test = match_all; adapter = bytes "PROXY"; raw = bytes "MATCH,PROXY" }

org_line :
    (parse literal prefixes (bytes " DOMAIN-SUFFIX, example.org ,DIRECT") none).1
    ≡ parsed (record org_rule { raw = bytes "DOMAIN-SUFFIX, example.org ,DIRECT" })
unfolding parse split_csv parse_parts parse_plain is_plain make_rule text_eq split trim_space
    trim_left to_lower to_upper starts_with lower upper is_space
org_line = refl

parse-IsFrom_example :
    IsFrom literal prefixes
      (split_csv (trim_space (bytes " DOMAIN-SUFFIX, example.org ,DIRECT")))
      (trim_space (bytes " DOMAIN-SUFFIX, example.org ,DIRECT"))
      none
      (record org_rule { raw = bytes "DOMAIN-SUFFIX, example.org ,DIRECT" })
parse-IsFrom_example =
    parse-IsFrom literal prefixes (bytes " DOMAIN-SUFFIX, example.org ,DIRECT") none
      (record org_rule { raw = bytes "DOMAIN-SUFFIX, example.org ,DIRECT" }) org_line

abbrev visit : MatchContext
visit = record { host = bytes "www.example.com"; ip = none; port = pos 443; network = bytes "tcp" }

match_rules-FirstMatch_example :
    (All (λ (r : Rule literal prefixes). matches r visit ≡ false) (org_rule ∷ last_rule ∷ [])
      × (match_rules (org_rule ∷ last_rule ∷ []) visit ≡ implicit))
    ⊎ FirstMatch (org_rule ∷ last_rule ∷ []) visit (match_rules (org_rule ∷ last_rule ∷ []) visit)
match_rules-FirstMatch_example = match_rules-FirstMatch (org_rule ∷ last_rule ∷ []) visit

-- The second rule matches.
second_rule :
    match_rules (org_rule ∷ last_rule ∷ []) visit
    ≡ record { adapter = bytes "PROXY"; matched_by = bytes "MATCH,PROXY" }
unfolding match_rules matches ends_with text_eq
second_rule = refl

upper_keyword : IsLower (bytes "Ads") → ⊥
unfolding lower
upper_keyword h = ground (arith, h.0)

abbrev lines : List Text
lines =
    bytes "GEOSITE,ads,REJECT"
    ∷ bytes "# a remark"
    ∷ bytes "DST-PORT,0,DIRECT"
    ∷ bytes "GEOSITE,ads,DIRECT"
    ∷ []

build_example :
    build literal prefixes (loaded sites) (some lines)
    ≡ rules_for literal prefixes (loaded sites) lines
build_example = build_lem literal prefixes (loaded sites) lines
