-- ===== src/Socks5/Server/Routing.antt =====
-- socks5/server.go, route: what decides, and what cannot.
use ssh_worker.Prelude.{
  ℕ, Bool, false, none, some, List, [], ◌∷◌, Text, text_eq, contains, ends_with, starts_with, lower,
  to_lower, ◌≡◌, ◌≢◌, refl, sym, ap, ◌∙◌, arith, ◌==◌,
}
use ssh_worker.Rules.Matcher.{Regexp, contains_host}
use ssh_worker.Rules.Types.{
  Networks, MatchContext, Rule, Test, domain, domain_suffix, domain_keyword, geosite, test_matches,
}
use ssh_worker.Rules.Engine.{trim_dot, normalize_host}
use ssh_worker.Socks5.Server.{Addresses, context, route}

-- The tests that read the host by a text of their own that is not empty, and those of a category.
abbrev pub ReadsHost : {re : Regexp} {net : Networks} → Test re net → Type 0
ReadsHost (domain d) = d ≢ []
ReadsHost (domain_suffix s) = s ≢ []
ReadsHost (domain_keyword k) = k ≢ []
ReadsHost (geosite category m) = Unit
ReadsHost _ = ⊥

not_nil : (s : Text) → s ≢ [] → text_eq [] s ≡ false
unfolding text_eq
not_nil [] h = absurd (h refl)
not_nil (c ∷ cs) h = refl

nothing_starts : (s : Text) → s ≢ [] → starts_with [] s ≡ false
unfolding starts_with
nothing_starts [] h = absurd (h refl)
nothing_starts (c ∷ cs) h = refl

empty_host :
    {re : Regexp} {net : Networks} (t : Test re net) (ctx : MatchContext)
    → ReadsHost t
    → ctx.host ≡ []
    → test_matches t ctx ≡ false
unfolding test_matches contains contains_host ends_with text_eq
empty_host (domain d) ctx h e = rw e (not_nil d h)
empty_host (domain_suffix s) ctx h e = rw (e, not_nil s h) refl
empty_host (domain_keyword k) ctx h e = rw e (nothing_starts k h)
empty_host (geosite category m) ctx h e = rw e refl
empty_host _ ctx h e = elim h [ ]

-- To a connection whose destination is an address literal no DOMAIN, DOMAIN-SUFFIX or
-- DOMAIN-KEYWORD rule with a text and no GEOSITE rule applies, whatever the port and the network.
pub literal_skips :
    {re : Regexp} {net : Networks} (ad : Addresses) (network host port ip : Text) (t : Test re net)
    → ad.parse_ip host ≡ some ip
    → ReadsHost t
    → test_matches t (context ad network host port) ≡ false
unfolding context
literal_skips ad network host port ip t e h =
    empty_host t (context ad network host port) h (rw (e, context) refl)

lower_dot : (c : ℕ) → (lower c == b'.') ≡ (c == b'.')
unfolding lower
lower_dot c = ground arith

trim_dot-to_lower : (h : Text) → trim_dot (to_lower h) ≡ to_lower (trim_dot h)
unfolding trim_dot to_lower
trim_dot-to_lower [] = refl
trim_dot-to_lower (c ∷ []) = ground (arith, lower_dot c)
trim_dot-to_lower (c ∷ d ∷ cs) = ap (λ t. lower c ∷ t) (trim_dot-to_lower (d ∷ cs))

same_case : (h h' : Text) → to_lower h ≡ to_lower h' → normalize_host h ≡ normalize_host h'
unfolding normalize_host
same_case h h' e = sym (trim_dot-to_lower h) ∙ ap trim_dot e ∙ trim_dot-to_lower h'

same_context :
    (ad : Addresses) (network host host' port : Text)
    → ad.parse_ip host ≡ none
    → ad.parse_ip host' ≡ none
    → to_lower host ≡ to_lower host'
    → context ad network host port ≡ context ad network host' port
unfolding context
same_context ad network host host' port p p' e = rw (p, p', context, same_case host host' e) refl

-- Two destinations with one port and hosts that differ at most in the case of letters, neither an
-- address literal, are routed alike.
pub route_ignores_case :
    {re : Regexp} {net : Networks} (ad : Addresses) (rules : List (Rule re net)) (has_direct : Bool)
    (network addr addr' host host' port : Text)
    → ad.split_host_port addr ≡ some (host, port)
    → ad.split_host_port addr' ≡ some (host', port)
    → ad.parse_ip host ≡ none
    → ad.parse_ip host' ≡ none
    → to_lower host ≡ to_lower host'
    → route ad (some rules) has_direct network addr ≡ route ad (some rules) has_direct network addr'
unfolding route
route_ignores_case ad rules has_direct network addr addr' host host' port s s' p p' e =
    rw (s, s', same_context ad network host host' port p p' e) refl
