-- ===== src/Rules/Parser/Laws.antt =====
-- internal/rules/parser.go: what a rule keeps of its line, and what a DOMAIN line means.
use ssh_worker.Prelude.{
  ltb, ◌≤◌, ◌||◌, Bool, true, false, if◌then◌else◌, List, Text, bytes, text_eq, text_eq_sound,
  subst, refl, ◌<◌, ℕ, is_empty, starts_with, to_lower, to_upper, trim_space, Option, none, some,
  length, ◌≡◌, ◌⊎◌, inl, inr, arith, Bool-cases,
}
use ssh_worker.Prelude.Int.{is_nonpos}
use ssh_worker.Rules.Number.{atoi}
use ssh_worker.Rules.Matcher.{Regexp, DomainMatcher}
use ssh_worker.Rules.Types.{
  Networks, Test, Rule, match_all, domain, domain_suffix, domain_keyword, domain_regex, ip_cidr,
  dst_port, geosite,
}
use ssh_worker.Rules.Geosite.{GeoSiteStore, get}
use ssh_worker.Rules.Parser.{
  ParseError, no_store, invalid, bad_regex, bad_cidr, bad_port, malformed, unknown_category,
  no_resolve_flag, Parsed, skipped, parsed, refused, split_csv, part, make_rule, from_option,
  is_plain, parse_geosite, parse_plain, parse_parts, parse,
}

module _ (re : Regexp) (net : Networks) where
  -- What the test of a rule is by the type of the line and its parts, where `m` is what the store
  -- had for the second part.
  abbrev pub IsTest : Text → List Text → Option (DomainMatcher re) → Test re net → Type 0
  IsTest typ parts m (domain d) = (typ ≡ bytes "DOMAIN") × (d ≡ to_lower (part parts 1))
  IsTest typ parts m (domain_suffix d) =
      (typ ≡ bytes "DOMAIN-SUFFIX") × (d ≡ to_lower (part parts 1))
  IsTest typ parts m (domain_keyword d) = (typ ≡ bytes "DOMAIN-KEYWORD") × (d ≡ part parts 1)
  IsTest typ parts m (domain_regex r d) =
      (typ ≡ bytes "DOMAIN-REGEX") × (d ≡ part parts 1) × (re.compile d ≡ some r)
  IsTest typ parts m (ip_cidr n flag) =
      ((typ ≡ bytes "IP-CIDR") ⊎ (typ ≡ bytes "IP-CIDR6"))
      × (net.parse_cidr (part parts 1) ≡ some n)
      × (flag ≡ no_resolve_flag parts)
  IsTest typ parts m (dst_port n) =
      (typ ≡ bytes "DST-PORT") × (n ≡ atoi (part parts 1)) × (is_nonpos n ≡ false)
  IsTest typ parts m (geosite c x) = (typ ≡ bytes "GEOSITE") × (c ≡ part parts 1) × (m ≡ some x)
  IsTest typ parts m match_all = typ ≡ bytes "MATCH"

  -- The part that names the adapter.
  abbrev pub adapter_part : Test re net → ℕ
  adapter_part match_all = 1
  adapter_part _ = 2

  abbrev pub stored : List Text → Option (GeoSiteStore re) → Option (DomainMatcher re)
  stored parts none = none
  stored parts (some s) = (get re (part parts 1) s).1

  pub record IsFrom (parts : List Text) (line : Text) (m : Option (DomainMatcher re))
      (r : Rule re net) : Type 0 where
    pub raw : r.raw ≡ line
    pub test : IsTest (to_upper (part parts 0)) parts m r.test
    pub long_enough : adapter_part r.test < length parts
    pub adapter : r.adapter ≡ part parts (adapter_part r.test)

  module _ (parts : List Text) (line : Text) (m : Option (DomainMatcher re)) where
    abbrev Keeps : Parsed re net → Type 0
    Keeps p = (r : Rule re net) → p ≡ parsed r → IsFrom parts line m r

    abbrev typ : Text
    typ = to_upper (part parts 0)

    refused-Keeps : (e : ParseError) → Keeps (refused e)
    refused-Keeps e r h = cc

    skipped-Keeps : Keeps skipped
    skipped-Keeps r h = cc

    made :
        (t : Test re net)
        → IsTest typ parts m t
        → adapter_part t < length parts
        → Keeps (make_rule re net t (part parts (adapter_part t)) line)
    unfolding make_rule
    made t h n r e =
        subst (IsFrom parts line m) (rule_of e)
          (record { raw = refl; test = h; long_enough = n; adapter = refl })
      where
        rule_of : {a b : Rule re net} → parsed a ≡ parsed b → a ≡ b
        rule_of h = cc

    from_option-Keeps :
        {A : Type 0} (o : Option A) (e : ParseError) (k : A → Parsed re net)
        → ((a : A) → o ≡ some a → Keeps (k a))
        → Keeps (from_option re net o e k)
    unfolding from_option
    from_option-Keeps none e k h = refused-Keeps e
    from_option-Keeps (some a) e k h = h a refl

    -- A case of the switch.
    on :
        (b : Bool) {p q : Parsed re net}
        → (b ≡ true → Keeps p)
        → (b ≡ false → Keeps q)
        → Keeps (if b then p else q)
    on true h k = h refl
    on false h k = k refl

    last_plain :
        (t : Text)
        → is_plain t ≡ true
        → text_eq t (bytes "DOMAIN") ≡ false
        → text_eq t (bytes "DOMAIN-SUFFIX") ≡ false
        → text_eq t (bytes "DOMAIN-KEYWORD") ≡ false
        → text_eq t (bytes "DOMAIN-REGEX") ≡ false
        → (text_eq t (bytes "IP-CIDR") || text_eq t (bytes "IP-CIDR6")) ≡ false
        → text_eq t (bytes "DST-PORT") ≡ true
    unfolding is_plain
    last_plain t p a b c d e = ground (arith, p, a, b, c, d, e)

    either_cidr :
        (t : Text)
        → (text_eq t (bytes "IP-CIDR") || text_eq t (bytes "IP-CIDR6")) ≡ true
        → (t ≡ bytes "IP-CIDR") ⊎ (t ≡ bytes "IP-CIDR6")
    either_cidr t h = elim (Bool-cases (text_eq t (bytes "IP-CIDR"))) [
      | inl e ↦ inl (text_eq_sound t (bytes "IP-CIDR") e)
      | inr e ↦ inr (text_eq_sound t (bytes "IP-CIDR6") (ground (arith, h, e)))
    ]

    parse_plain-Keeps :
        is_plain typ ≡ true → 2 < length parts → Keeps (parse_plain re net typ parts line)
    unfolding parse_plain
    parse_plain-Keeps p n =
        on (text_eq typ (bytes "DOMAIN"))
          (λ a.
            made (domain (to_lower (part parts 1))) (text_eq_sound typ (bytes "DOMAIN") a, refl) n)
          (λ a.
            on (text_eq typ (bytes "DOMAIN-SUFFIX"))
              (λ b.
                made (domain_suffix (to_lower (part parts 1)))
                  (text_eq_sound typ (bytes "DOMAIN-SUFFIX") b, refl) n)
              (λ b.
                on (text_eq typ (bytes "DOMAIN-KEYWORD"))
                  (λ c.
                    made (domain_keyword (part parts 1))
                      (text_eq_sound typ (bytes "DOMAIN-KEYWORD") c, refl) n)
                  (λ c.
                    on (text_eq typ (bytes "DOMAIN-REGEX"))
                      (λ d. from_option-Keeps (re.compile (part parts 1)) bad_regex _ (λ r h.
                        made (domain_regex r (part parts 1))
                          (text_eq_sound typ (bytes "DOMAIN-REGEX") d, refl, h) n))
                      (λ d.
                        on (text_eq typ (bytes "IP-CIDR") || text_eq typ (bytes "IP-CIDR6"))
                          (λ e. from_option-Keeps (net.parse_cidr (part parts 1)) bad_cidr _ (λ x h.
                            made (ip_cidr x (no_resolve_flag parts)) (either_cidr typ e, h, refl)
                              n))
                          (λ e.
                            on (is_nonpos (atoi (part parts 1))) (λ f. refused-Keeps bad_port)
                              (λ f.
                                made (dst_port (atoi (part parts 1)))
                                  (
                                    text_eq_sound typ (bytes "DST-PORT")
                                        (last_plain typ p a b c d e),
                                    refl,
                                    f,
                                  )
                                  n))))))

    -- A case with three parts: nothing of it is a rule if there are fewer.
    guarded :
        (p : Parsed re net)
        → (2 < length parts → Keeps p)
        → Keeps (if ltb (length parts) 3 then refused malformed else p)
    guarded p h =
        on (ltb (length parts) 3) (λ short. refused-Keeps malformed) (λ enough. h (ground arith))

  abbrev Answer : Type 0
  Answer = Option (GeoSiteStore re) × Parsed re net

  module _ (parts : List Text) (line : Text) (store : Option (GeoSiteStore re)) where
    abbrev Gives : Answer → Type 0
    Gives a = Keeps parts line (stored parts store) a.1

    gives :
        (b : Bool) (p q : Answer)
        → (b ≡ true → Gives p)
        → (b ≡ false → Gives q)
        → Gives (if b then p else q)
    gives true p q h k = h refl
    gives false p q h k = k refl

  parse_geosite-Gives :
      (parts : List Text) (line : Text) (store : Option (GeoSiteStore re))
      → to_upper (part parts 0) ≡ bytes "GEOSITE"
      → 2 < length parts
      → Gives parts line store (parse_geosite re net parts line store)
  unfolding parse_geosite
  parse_geosite-Gives parts line none g n = refused-Keeps parts line none no_store
  parse_geosite-Gives parts line (some s) g n =
      let m = (get re (part parts 1) s).1 in
      from_option-Keeps parts line m m unknown_category _
        (λ x h. made parts line m (geosite (part parts 1) x) (g, refl, h) n)

  parse_parts-Gives :
      (parts : List Text) (line : Text) (store : Option (GeoSiteStore re))
      → 2 ≤ length parts
      → Gives parts line store (parse_parts re net parts line store)
  unfolding parse_parts
  parse_parts-Gives parts line store h =
      let typ = to_upper (part parts 0) in
      let m = stored parts store in
      gives parts line store (is_plain typ) _ _
        (λ p. guarded parts line m _ (parse_plain-Keeps parts line m p))
        (λ p.
          gives parts line store (text_eq typ (bytes "GEOSITE")) _ _
            (λ g.
              gives parts line store (ltb (length parts) 3) _ _
                (λ short. refused-Keeps parts line m malformed)
                (λ enough.
                  parse_geosite-Gives parts line store (text_eq_sound typ (bytes "GEOSITE") g)
                    (ground arith)))
            (λ g.
              gives parts line store (text_eq typ (bytes "MATCH")) _ _
                (λ x. made parts line m match_all (text_eq_sound typ (bytes "MATCH") x) h)
                (λ x. skipped-Keeps parts line m)))

  -- A rule that Parse makes of a line has the trimmed line as its text. Its test is that of the type
  -- that the first part names, in upper case, made of the second part: of GEOSITE what the store had
  -- for it, of MATCH the one that every connection passes. Its adapter is the second part of a MATCH
  -- line and the third part of any other, and the line has that part.
  pub parse-IsFrom :
      (text : Text) (store : Option (GeoSiteStore re)) (r : Rule re net)
      → (parse re net text store).1 ≡ parsed r
      → let parts = split_csv (trim_space text) in
        IsFrom parts (trim_space text) (stored parts store) r
  unfolding parse
  parse-IsFrom text store =
      let line = trim_space text in
      let parts = split_csv line in
      let m = stored parts store in
      gives parts line store (is_empty line || starts_with line (bytes "#")) _ _
        (λ e. skipped-Keeps parts line m)
        (λ e.
          gives parts line store (ltb (length parts) 2) _ _
            (λ short. refused-Keeps parts line m invalid)
            (λ enough. parse_parts-Gives parts line store (ground arith)))
