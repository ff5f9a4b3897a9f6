-- ===== src/Rules/Parser.antt =====
-- internal/rules/parser.go: a line of the rules section of a Clash configuration.
pub mod Laws
use ssh_worker.Prelude.{
  ℕ, zero, suc, ltb, ◌||◌, ◌&&◌, Bool, true, false, if◌then◌else◌, List, [], ◌∷◌, map, Text, bytes,
  text_eq, is_empty, starts_with, to_lower, to_upper, trim_space, split, Option, none, some, length,
  get_or, leb, not,
}
use ssh_worker.Prelude.Int.{ℤ, is_nonpos}
use ssh_worker.Rules.Number.{atoi}
use ssh_worker.Rules.Matcher.{Regexp, DomainMatcher}
use ssh_worker.Rules.Types.{
  Networks, Test, domain, domain_suffix, domain_keyword, domain_regex, ip_cidr, dst_port, geosite,
  match_all, Rule,
}
use ssh_worker.Rules.Geosite.{GeoSiteStore, get}

pub data ParseError : Type 0 where
  invalid malformed bad_regex bad_cidr bad_port no_store unknown_category : ParseError

-- `skipped` is the pair of nils.
pub data Parsed (re : Regexp) (net : Networks) : Type 0 where
  skipped : Parsed re net
  parsed : Rule re net → Parsed re net
  refused : ParseError → Parsed re net

unfoldable pub split_csv : Text → List Text
split_csv s = map trim_space (split s b',')

-- `parts[i]`, read where the length has been tested.
abbrev pub part : List Text → ℕ → Text
part parts i = get_or parts i []

unfoldable pub no_resolve_flag : List Text → Bool
no_resolve_flag parts =
    leb 4 (length parts) && text_eq (to_lower (part parts 3)) (bytes "no-resolve")

-- The types of parse_plain.
unfoldable pub is_plain : Text → Bool
is_plain typ =
    text_eq typ (bytes "DOMAIN")
    || (text_eq typ (bytes "DOMAIN-SUFFIX")
        || (text_eq typ (bytes "DOMAIN-KEYWORD")
            || (text_eq typ (bytes "DOMAIN-REGEX")
                || (text_eq typ (bytes "IP-CIDR")
                    || (text_eq typ (bytes "IP-CIDR6") || text_eq typ (bytes "DST-PORT"))))))

module _ (re : Regexp) (net : Networks) where
  abbrev pub Store : Type 0
  Store = GeoSiteStore re

  unfoldable pub make_rule : Test re net → Text → Text → Parsed re net
  make_rule t adapter line = parsed (record { test = t; adapter = adapter; raw = line })

  -- The cases that make a rule from a value that may be refused.
  unfoldable pub from_option :
      {A : Type 0} → Option A → ParseError → (A → Parsed re net) → Parsed re net
  from_option none e k = refused e
  from_option (some a) e k = k a

  -- The case GEOSITE: the only one that reads and changes the store.
  unfoldable pub parse_geosite : List Text → Text → Option Store → Option Store × Parsed re net
  unfolding make_rule from_option
  parse_geosite parts line none = (none, refused no_store)
  parse_geosite parts line (some s) =
      let (s', m) = get re (part parts 1) s in
      (
        some s',
        from_option m unknown_category
            (λ m'. make_rule (geosite (part parts 1) m') (part parts 2) line),
      )

  -- The other cases with three parts.
  unfoldable pub parse_plain : Text → List Text → Text → Parsed re net
  unfolding make_rule from_option no_resolve_flag
  parse_plain typ parts line =
      if text_eq typ (bytes "DOMAIN")
      then make_rule (domain (to_lower (part parts 1))) (part parts 2) line
      else if text_eq typ (bytes "DOMAIN-SUFFIX")
      then make_rule (domain_suffix (to_lower (part parts 1))) (part parts 2) line
      else if text_eq typ (bytes "DOMAIN-KEYWORD")
      then make_rule (domain_keyword (part parts 1)) (part parts 2) line
      else if text_eq typ (bytes "DOMAIN-REGEX")
      then from_option (re.compile (part parts 1)) bad_regex
          (λ r. make_rule (domain_regex r (part parts 1)) (part parts 2) line)
      else if text_eq typ (bytes "IP-CIDR") || text_eq typ (bytes "IP-CIDR6")
      then from_option (net.parse_cidr (part parts 1)) bad_cidr
          (λ n. make_rule (ip_cidr n (no_resolve_flag parts)) (part parts 2) line)
      else if is_nonpos (atoi (part parts 1))
      then refused bad_port
      else make_rule (dst_port (atoi (part parts 1))) (part parts 2) line

  -- The switch; the types of its last case and of `default` give a pair of nils.
  unfoldable pub parse_parts : List Text → Text → Option Store → Option Store × Parsed re net
  unfolding parse_geosite parse_plain is_plain make_rule
  parse_parts parts line store =
      let typ = to_upper (part parts 0) in
      if is_plain typ
      then (store, if ltb (length parts) 3 then refused malformed else parse_plain typ parts line)
      else if text_eq typ (bytes "GEOSITE")
      then (if ltb (length parts) 3
          then (store, refused malformed)
          else parse_geosite parts line store)
      else if text_eq typ (bytes "MATCH")
      then (store, make_rule match_all (part parts 1) line)
      else (store, skipped)

  unfoldable pub parse : Text → Option Store → Option Store × Parsed re net
  unfolding parse_parts split_csv
  parse text store =
      let line = trim_space text in
      if is_empty line || starts_with line (bytes "#")
      then (store, skipped)
      else (let parts = split_csv line in
          if ltb (length parts) 2 then (store, refused invalid) else parse_parts parts line store)
