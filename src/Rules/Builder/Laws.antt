-- ===== src/Rules/Builder/Laws.antt =====
-- internal/rules/builder.go: the rules of the engine are those of the lines, in their order.
use ssh_worker.Prelude.{
  if_rel, List, [], ◌∷◌, ◌++◌, append_assoc, append-nil, Text, text_eq, bytes, Option, none, some,
  ◌≡◌, refl, sym, ap, ap₂, ◌∙◌, ltb, length, to_upper, is_empty, starts_with, ◌||◌, trim_space,
}
use ssh_worker.Rules.Matcher.{Regexp}
use ssh_worker.Rules.Types.{Networks, Rule}
use ssh_worker.Rules.Geosite.{Sites, GeoSiteStore, new_store, get}
use ssh_worker.Rules.Geosite.Laws.{IsCoherent, new_store-IsCoherent, get_lem}
use ssh_worker.Rules.Parser.{
  Parsed, skipped, parsed, refused, part, parse_geosite, is_plain, parse_parts, split_csv, parse,
}
use ssh_worker.Rules.Engine.{add_rule}
use ssh_worker.Rules.Builder.{Loading, load_failed, no_path, loaded, keep, build_lines, build}

module _ (re : Regexp) (net : Networks) where
  abbrev Answer : Type 0
  Answer = Option (GeoSiteStore re) × Parsed re net

  -- `r` is what `s` gave and `r'` what a fresh store gave: the same, and `s` still agrees with its
  -- loader.
  abbrev Agrees : GeoSiteStore re → Answer → Answer → Type 0
  Agrees s r r' =
      (s' : GeoSiteStore re) × (r.1 ≡ r'.1)
      × (r.0 ≡ some s')
      × (s'.loader ≡ s.loader)
      × IsCoherent re s'

  parse_geosite-Agrees :
      (s : GeoSiteStore re)
      → IsCoherent re s
      → (parts : List Text) (line : Text)
      → Agrees s
          (parse_geosite re net parts line (some s))
          (parse_geosite re net parts line (some (new_store re s.loader)))
  unfolding parse_geosite new_store
  parse_geosite-Agrees s h parts line =
      let (found, kept, coherent) = get_lem re (part parts 1) s h in
      let (fresh, _, _) =
        get_lem re (part parts 1) (new_store re s.loader) (new_store-IsCoherent re s.loader) in
      ((get re (part parts 1) s).0, rw (found, fresh) refl, refl, kept, coherent)

  parse_parts-Agrees :
      (s : GeoSiteStore re)
      → IsCoherent re s
      → (parts : List Text) (line : Text)
      → Agrees s
          (parse_parts re net parts line (some s))
          (parse_parts re net parts line (some (new_store re s.loader)))
  unfolding parse_parts
  parse_parts-Agrees s h parts line =
      let typ = to_upper (part parts 0) in
      if_rel (Agrees s) (is_plain typ) (s, refl, refl, refl, h)
        (if_rel (Agrees s) (text_eq typ (bytes "GEOSITE"))
          (if_rel (Agrees s) (ltb (length parts) 3) (s, refl, refl, refl, h)
            (parse_geosite-Agrees s h parts line))
          (if_rel (Agrees s) (text_eq typ (bytes "MATCH")) (s, refl, refl, refl, h)
            (s, refl, refl, refl, h)))

  parse-Agrees :
      (s : GeoSiteStore re)
      → IsCoherent re s
      → (text : Text)
      → Agrees s (parse re net text (some s)) (parse re net text (some (new_store re s.loader)))
  unfolding parse
  parse-Agrees s h text =
      let line = trim_space text in
      if_rel (Agrees s) (is_empty line || starts_with line (bytes "#")) (s, refl, refl, refl, h)
        (if_rel (Agrees s) (ltb (length (split_csv line)) 2) (s, refl, refl, refl, h)
          (parse_parts-Agrees s h (split_csv line) line))

  unfoldable pub kept : Parsed re net → List (Rule re net)
  kept skipped = []
  kept (parsed r) = r ∷ []
  kept (refused e) = []

  -- The rules of the lines, each read with nothing cached.
  unfoldable pub rules_of : Option Sites → List Text → List (Rule re net)
  rules_of loader [] = []
  rules_of loader (line ∷ lines) =
      kept (parse re net line (some (new_store re loader))).1 ++ rules_of loader lines

  keep_lem : (p : Parsed re net) (rs : List (Rule re net)) → keep re net p rs ≡ rs ++ kept p
  unfolding keep kept add_rule
  keep_lem skipped rs = sym (append-nil rs)
  keep_lem (parsed r) rs = refl
  keep_lem (refused e) rs = sym (append-nil rs)

  build_lines_lem :
      (lines : List Text) (s : GeoSiteStore re) (rs : List (Rule re net))
      → IsCoherent re s
      → build_lines re net lines (some s) rs ≡ rs ++ rules_of s.loader lines
  unfolding build_lines rules_of
  build_lines_lem [] s rs h = sym (append-nil rs)
  build_lines_lem (line ∷ lines) s rs h =
      let (s', same, store, loader, coherent) = parse-Agrees s h line in
      let p = (parse re net line (some (new_store re s.loader))).1 in
      ap₂ (λ st (q : Parsed re net). build_lines re net lines st (keep re net q rs)) store same
      ∙ build_lines_lem lines s' (keep re net p rs) coherent
      ∙ ap₂ ◌++◌ (keep_lem p rs) (ap (λ l. rules_of l lines) loader)
      ∙ append_assoc rs (kept p) (rules_of s.loader lines)

  -- What Build answers for a configuration with these lines.
  unfoldable pub rules_for : Loading → List Text → Option (List (Rule re net))
  rules_for load_failed lines = none
  rules_for no_path lines = some (rules_of none lines)
  rules_for (loaded sites) lines = some (rules_of (some sites) lines)

  -- Build answers an error exactly where the loader fails. Otherwise the rules of the engine are
  -- those of the lines that can be read, in the order of the lines, each as if it were the only
  -- one: the cache of categories, which every line may change, makes no difference.
  pub build_lem :
      (loading : Loading) (lines : List Text)
      → build re net loading (some lines) ≡ rules_for loading lines
  unfolding build new_store rules_for
  build_lem load_failed lines = refl
  build_lem no_path lines =
      ap some (build_lines_lem lines (new_store re none) [] (new_store-IsCoherent re none))
  build_lem (loaded sites) lines =
      ap some (
        build_lines_lem lines (new_store re (some sites)) [] (new_store-IsCoherent re (some sites)))
