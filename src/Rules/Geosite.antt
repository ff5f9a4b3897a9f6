-- ===== src/Rules/Geosite.antt =====
-- internal/rules/geosite.go: matchers made from the categories of geosite.dat, and their cache.
-- The loader of internal/geodata/loader.go is its map of categories.
pub mod Laws
use ssh_worker.Prelude.{
  Bool, true, false, if◌then◌else◌, List, [], ◌∷◌, Text, text_eq, Option, none, some,
}
pub use ssh_worker.Geodata.{Sites}
use ssh_worker.Geodata.{Domain, DomainType}
use ssh_worker.Rules.Matcher.{Regexp, DomainMatcher, new_matcher, add_exact, add_suffix, add_regex}

unfoldable pub find {ℓ} : {A : Type ℓ} → Text → List (Text × A) → Option A
find k [] = none
find k ((j, v) ∷ m) = if text_eq j k then some v else find k m

-- Lookup: a category that is not there gives nil, as does one with no domain.
unfoldable pub lookup_domains : Sites → Text → List Domain
unfolding find
lookup_domains sites category = elim (find category sites) [ none ↦ [] | some ds ↦ ds ]

module _ (re : Regexp) where
  pub record GeoSiteStore : Type 0 where
    pub loader : Option Sites
    pub cache : List (Text × DomainMatcher re)

  unfoldable pub new_store : Option Sites → GeoSiteStore
  new_store loader = record { loader = loader; cache = [] }

  -- The case of TypeRegex: a pattern that does not compile is left out.
  unfoldable pub add_pattern : Option (re.Regex) → DomainMatcher re → DomainMatcher re
  unfolding add_regex
  add_pattern none m = m
  add_pattern (some r) m = add_regex re r m

  -- The body of the loop of Get; a type that is none of the four adds nothing.
  unfoldable pub add_domain_of : DomainType → Text → DomainMatcher re → DomainMatcher re
  unfolding add_exact add_suffix add_pattern
  add_domain_of DomainType.domain v m = add_suffix re v m
  add_domain_of DomainType.full v m = add_exact re v m
  add_domain_of DomainType.keyword v m = add_suffix re v m
  add_domain_of DomainType.regex v m = add_pattern (re.compile v) m
  add_domain_of (DomainType.unknown n) v m = m

  unfoldable pub add_domains : List Domain → DomainMatcher re → DomainMatcher re
  unfolding add_domain_of
  add_domains [] m = m
  add_domains (d ∷ ds) m = add_domains ds (add_domain_of d.kind d.value m)

  -- What Get does on a cache miss, with a loader.
  unfoldable pub load : Text → List Domain → GeoSiteStore → GeoSiteStore × Option (DomainMatcher re)
  unfolding add_domains new_matcher
  load category [] s = (s, none)
  load category (d ∷ ds) s =
      let m = add_domains (d ∷ ds) (new_matcher re) in
      (record s { cache = (category, m) ∷ s.cache }, some m)

  -- A cache miss; without a loader nothing is known.
  unfoldable pub miss :
      Option Sites → Text → GeoSiteStore → GeoSiteStore × Option (DomainMatcher re)
  unfolding load lookup_domains
  miss none category s = (s, none)
  miss (some sites) category s = load category (lookup_domains sites category) s

  unfoldable pub get_with :
      Option (DomainMatcher re) → Text → GeoSiteStore → GeoSiteStore × Option (DomainMatcher re)
  unfolding miss
  get_with (some m) category s = (s, some m)
  get_with none category s = miss s.loader category s

  unfoldable pub get : Text → GeoSiteStore → GeoSiteStore × Option (DomainMatcher re)
  unfolding get_with find
  get category s = get_with (find category s.cache) category s
