-- ===== src/Rules/Engine/Laws.antt =====
-- internal/rules/engine.go: the first match, and the form of the hosts that rules see.
use ssh_worker.Prelude.{
  Option, ℕ, true, false, List, [], ◌∷◌, ◌++◌, Text, lower, to_lower, contains, starts_with, ◌≡◌,
  ◌⊎◌, refl, ap, ap₂, ◌∙◌, arith, inl, inr, Bool-cases, All,
}
use ssh_worker.Prelude.Int.{ℤ}
use ssh_worker.Rules.Matcher.{Regexp}
use ssh_worker.Rules.Types.{Networks, MatchContext, MatchResult, Rule, domain_keyword, matches}
use ssh_worker.Rules.Engine.{trim_dot, normalize_host, match_rules, implicit}

module _ {re : Regexp} {net : Networks} where
  -- The rules before the first that matches, it, and those after it.
  pub record FirstMatch (rs : List (Rule re net)) (ctx : MatchContext) (res : MatchResult)
      : Type 0 where
    pub before : List (Rule re net)
    pub rule : Rule re net
    pub behind : List (Rule re net)
    pub parts : rs ≡ before ++ rule ∷ behind
    pub missed : All (λ r. matches r ctx ≡ false) before
    pub matched : matches rule ctx ≡ true
    pub result : res ≡ record { adapter = rule.adapter; matched_by = rule.raw }

  match_rules_hit :
      (r : Rule re net) (rs : List (Rule re net)) (ctx : MatchContext)
      → matches r ctx ≡ true
      → match_rules (r ∷ rs) ctx ≡ record { adapter = r.adapter; matched_by = r.raw }
  unfolding match_rules
  match_rules_hit r rs ctx h = rw h refl

  match_rules_miss :
      (r : Rule re net) (rs : List (Rule re net)) (ctx : MatchContext)
      → matches r ctx ≡ false
      → match_rules (r ∷ rs) ctx ≡ match_rules rs ctx
  unfolding match_rules
  match_rules_miss r rs ctx h = rw h refl

  -- For every list of rules and context, either no rule matches and the result is the implicit
  -- DIRECT, or the result has the adapter and the line of a rule that matches and before which none
  -- does.
  pub match_rules-FirstMatch :
      (rs : List (Rule re net)) (ctx : MatchContext)
      → (All (λ r. matches r ctx ≡ false) rs × (match_rules rs ctx ≡ implicit))
        ⊎ FirstMatch rs ctx (match_rules rs ctx)
  unfolding match_rules
  match_rules-FirstMatch [] ctx = inl (tt, refl)
  match_rules-FirstMatch (r ∷ rs) ctx = elim (Bool-cases (matches r ctx)) [
    | inl hit ↦ inr (record {
      before = [];
      rule = r;
      behind = rs;
      parts = refl;
      missed = tt;
      matched = hit;
      result = match_rules_hit r rs ctx hit;
    })
    | inr miss ↦
        let step = match_rules_miss r rs ctx miss in
        elim (match_rules-FirstMatch rs ctx) [
          | inl all_miss ↦ inl ((miss, all_miss.0), step ∙ all_miss.1)
          | inr f ↦ inr (record {
            before = r ∷ f.before;
            rule = f.rule;
            behind = f.behind;
            parts = ap (λ l. r ∷ l) f.parts;
            missed = (miss, f.missed);
            matched = f.matched;
            result = step ∙ f.result;
          })
        ]
  ]

-- No upper-case letter stands in the text.
abbrev pub IsLower : Text → Type 0
IsLower s = All (λ c. lower c ≡ c) s

lower-lower : (c : ℕ) → lower (lower c) ≡ lower c
unfolding lower
lower-lower c = ground arith

to_lower-IsLower : (s : Text) → IsLower (to_lower s)
unfolding to_lower
to_lower-IsLower [] = tt
to_lower-IsLower (c ∷ cs) = (lower-lower c, to_lower-IsLower cs)

pub to_lower_of_IsLower : (s : Text) → IsLower s → to_lower s ≡ s
unfolding to_lower
to_lower_of_IsLower [] h = refl
to_lower_of_IsLower (c ∷ cs) h = ap₂ ◌∷◌ h.0 (to_lower_of_IsLower cs h.1)

-- A host that NormalizeHost gives has no upper-case letter.
pub normalize_host-IsLower : (h : Text) → IsLower (normalize_host h)
unfolding normalize_host
normalize_host-IsLower h = to_lower-IsLower (trim_dot h)

-- Whatever matches at the start of a text in lower case is in lower case.
starts_with-IsLower : (s t : Text) → IsLower s → starts_with s t ≡ true → IsLower t
unfolding starts_with
starts_with-IsLower s [] h e = tt
starts_with-IsLower [] (p ∷ ps) h e = cc
starts_with-IsLower (x ∷ xs) (p ∷ ps) h e =
    let same : x ≡ p = ground arith in
    (rw same at (h.0), starts_with-IsLower xs ps h.1 (ground arith))

contains-IsLower : (s t : Text) → IsLower s → contains s t ≡ true → IsLower t
unfolding contains
contains-IsLower [] t h e = starts_with-IsLower [] t h e
contains-IsLower (x ∷ xs) t h e = elim (Bool-cases (starts_with (x ∷ xs) t)) [
  | inl here ↦ starts_with-IsLower (x ∷ xs) t h here
  | inr later ↦ contains-IsLower xs t h.1 (rw later at e)
]

-- A DOMAIN-KEYWORD rule whose keyword has an upper-case letter matches no connection: the hosts
-- that the server matches are in lower case.
pub keyword_never_matches :
    (re : Regexp) (net : Networks) (k adapter raw host network : Text) (port : ℤ) (ip : Option Text)
    → (IsLower k → ⊥)
    → matches {re = re} {net = net}
        (record { test = domain_keyword k; adapter = adapter; raw = raw })
        (record { host = normalize_host host; ip = ip; port = port; network = network })
      ≡ false
unfolding matches
keyword_never_matches re net k adapter raw host network port ip h =
    elim (Bool-cases (contains (normalize_host host) k)) [
      | inl found ↦ absurd (h (contains-IsLower _ k (normalize_host-IsLower host) found))
      | inr missing ↦ missing
    ]
