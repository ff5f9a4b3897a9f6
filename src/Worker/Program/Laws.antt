-- ===== src/Worker/Program/Laws.antt =====
-- main.go: when the program starts, and where the API listens.
use ssh_worker.Prelude.{
  false, Option, none, some, List, [], ◌∷◌, Text, is_empty, ◌≡◌, ◌↔◌, refl, sym, ap, subst, arith,
}
use ssh_worker.Errs.{Error}
use ssh_worker.Config.{Config, apply_defaults, validate_all}
use ssh_worker.Clashconfig.{ClashConfig, validate, apply_defaults as clash_defaults}
use ssh_worker.Clashconfig.Laws.{apply_defaults-controller}
use ssh_worker.Rules.Matcher.{Regexp}
use ssh_worker.Rules.Types.{Networks, Rule}
use ssh_worker.Rules.Builder.{Loading, build}
use ssh_worker.Worker.Program.{
  YamlFile, load_yaml, valid_only, checked, read_clash, lines_of, Ready, with_rules, with_clash,
  checked_config, start_up, or_given, ClashApiConfig, api_settings,
}

-- What the file of -clash gives.
abbrev pub Reads : Option YamlFile → Option ClashConfig → Type 0
Reads none clash = clash ≡ none
Reads (some f) clash =
    (raw : ClashConfig) × (f.content ≡ some raw)
    × (validate (clash_defaults f.path raw) ≡ none)
    × (clash ≡ some (clash_defaults f.path raw))

valid_only-Reads :
    (c : ClashConfig) (v : Option Error) (clash : Option ClashConfig)
    → valid_only c v ≡ some clash
    → (v ≡ none) × (clash ≡ some c)
valid_only-Reads c none clash e = (refl, cc)
valid_only-Reads c (some x) clash e = absurd (ground arith)

loaded-Reads :
    (path : Text) (content : Option ClashConfig) (clash : Option ClashConfig)
    → checked (load_yaml (record { path = path; content = content })) ≡ some clash
    → Reads (some (record { path = path; content = content })) clash
unfolding load_yaml
loaded-Reads path none clash e = absurd (ground arith)
loaded-Reads path (some raw) clash e =
    let (v, same) =
      valid_only-Reads (clash_defaults path raw) (validate (clash_defaults path raw)) clash e in
    (raw, refl, v, same)

read_clash-Reads :
    (yaml : Option YamlFile) (clash : Option ClashConfig)
    → read_clash yaml ≡ some clash
    → Reads yaml clash
unfolding read_clash
read_clash-Reads none clash e = cc
read_clash-Reads (some f) clash e = loaded-Reads f.path f.content clash e

module _ (re : Regexp) (net : Networks) where
  pub record Starts (c : Option Config) (yaml : Option YamlFile) (l : Loading) (r : Ready re net)
      : Type 0 where
    pub raw : Config
    pub loaded : c ≡ some raw
    pub valid : validate_all (apply_defaults raw) ≡ []
    pub config : r.config ≡ apply_defaults raw
    pub clash : Reads yaml r.clash
    pub rules : build re net l (lines_of r.clash) ≡ some r.rules

  with_rules-some :
      (c : Config) (clash : Option ClashConfig) (rs : Option (List (Rule re net)))
      (r : Ready re net)
      → with_rules re net c clash rs ≡ some r
      → (rs ≡ some r.rules) × (r.config ≡ c) × (r.clash ≡ clash)
  with_rules-some c clash none r e = absurd (ground arith)
  with_rules-some c clash (some rs) r e = ground arith

  with_clash-some :
      (c : Config) (l : Loading) (o : Option (Option ClashConfig)) (r : Ready re net)
      → with_clash re net c l o ≡ some r
      → (o ≡ some r.clash) × (build re net l (lines_of r.clash) ≡ some r.rules) × (r.config ≡ c)
  with_clash-some c l none r e = absurd (ground arith)
  with_clash-some c l (some clash) r e =
      let (rules, config, same) = with_rules-some c clash (build re net l (lines_of clash)) r e in
      (
        ap some (sym same),
        subst (λ x. build re net l (lines_of x) ≡ some r.rules) (sym same) rules,
        config,
      )

  checked_config-some :
      (es : List Text) (c : Config) (yaml : Option YamlFile) (l : Loading) (r : Ready re net)
      → checked_config re net es c yaml l ≡ some r
      → (es ≡ []) × (with_clash re net c l (read_clash yaml) ≡ some r)
  unfolding checked_config
  checked_config-some [] c yaml l r e = (refl, e)
  checked_config-some (x ∷ es) c yaml l r e = absurd (ground arith)

  start_up-some :
      (c : Option Config) (yaml : Option YamlFile) (l : Loading) (r : Ready re net)
      → start_up re net c yaml l ≡ some r
      → Starts c yaml l r
  unfolding start_up
  start_up-some none yaml l r e = absurd (ground arith)
  start_up-some (some raw) yaml l r e =
      let (valid, rest) =
        checked_config-some (validate_all (apply_defaults raw)) (apply_defaults raw) yaml l r e in
      let (clash, rules, config) =
        with_clash-some (apply_defaults raw) l (read_clash yaml) r rest in
      record {
        raw = raw;
        loaded = refl;
        valid = valid;
        config = config;
        clash = read_clash-Reads yaml r.clash clash;
        rules = rules;
      }

  read_clash-back :
      (yaml : Option YamlFile) (clash : Option ClashConfig)
      → Reads yaml clash
      → read_clash yaml ≡ some clash
  unfolding read_clash load_yaml
  read_clash-back none clash h = ap some (sym h)
  read_clash-back (some f) clash (raw, content, valid, same) =
      rw (content, valid) (ap some (sym same))

  start_up-back :
      (c : Option Config) (yaml : Option YamlFile) (l : Loading) (r : Ready re net)
      → Starts c yaml l r
      → start_up re net c yaml l ≡ some r
  unfolding start_up checked_config
  start_up-back c yaml l r s =
      rw (s.loaded, s.valid, read_clash-back yaml r.clash s.clash, s.rules)
        (ap (λ x. some (record { config = x; clash = r.clash; rules = r.rules })) (sym s.config))

  -- The program goes on to its workers if and only if the configuration was read and is valid with
  -- its defaults, the YAML, if one is given, was read and is valid with its defaults, and the rules
  -- were built from its lines; what it then has are those. In every other case it exits.
  pub start_up_iff :
      (c : Option Config) (yaml : Option YamlFile) (l : Loading) (r : Ready re net)
      → (start_up re net c yaml l ≡ some r) ↔ Starts c yaml l r
  start_up_iff c yaml l r = (start_up-some c yaml l r, start_up-back c yaml l r)

  or_given-filled : (s d : Text) → is_empty s ≡ false → or_given s d ≡ s
  or_given-filled [] d h = absurd (ground arith)
  or_given-filled (c ∷ cs) d h = refl

  -- Where the program was given a YAML, the API listens at the external controller of it, its
  -- default included: the address of clash_api in the JSON is not used.
  pub start_up-listen :
      (c : Option Config) (f : YamlFile) (l : Loading) (r : Ready re net) (a : ClashApiConfig)
      → start_up re net c (some f) l ≡ some r
      → (clash : ClashConfig) × (r.clash ≡ some clash)
        × (is_empty clash.external_controller ≡ false)
        × ((api_settings a r.clash).listen ≡ clash.external_controller)
  unfolding api_settings
  start_up-listen c f l r a e =
      let (raw, content, valid, same) = (start_up-some c (some f) l r e).clash in
      let filled = apply_defaults-controller f.path raw in
      (
        clash_defaults f.path raw,
        same,
        filled,
        subst
            (λ (o : Option ClashConfig).
              (api_settings a o).listen ≡ (clash_defaults f.path raw).external_controller)
            (sym same)
            (or_given-filled (clash_defaults f.path raw).external_controller a.listen filled),
      )
