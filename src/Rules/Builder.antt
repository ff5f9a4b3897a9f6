-- ===== src/Rules/Builder.antt =====
-- internal/rules/builder.go: the engine of a configuration.
pub mod Laws
pub mod Files
use ssh_worker.Prelude.{List, [], ◌∷◌, Text, Option, none, some}
use ssh_worker.Rules.Matcher.{Regexp}
use ssh_worker.Rules.Types.{Networks, Rule}
use ssh_worker.Rules.Geosite.{GeoSiteStore, Sites, new_store}
use ssh_worker.Rules.Parser.{Parsed, skipped, parsed, refused, parse}
use ssh_worker.Rules.Engine.{add_rule}

-- What geodata.New gives for the configured path.
pub data Loading : Type 0 where
  no_path : Loading
  load_failed : Loading
  loaded : Sites → Loading

module _ (re : Regexp) (net : Networks) where
  -- A line that is refused is logged and left out, as is one that is skipped.
  unfoldable pub keep : Parsed re net → List (Rule re net) → List (Rule re net)
  unfolding add_rule
  keep skipped rs = rs
  keep (parsed r) rs = add_rule rs r
  keep (refused e) rs = rs

  unfoldable pub build_lines :
      List Text → Option (GeoSiteStore re) → List (Rule re net) → List (Rule re net)
  unfolding keep
  build_lines [] store rs = rs
  build_lines (line ∷ lines) store rs =
      let (store', p) = parse re net line store in build_lines lines store' (keep p rs)

  -- `none` is the error of the loader; a configuration that is not there gives no rule.
  unfoldable pub build : Loading → Option (List Text) → Option (List (Rule re net))
  unfolding build_lines
  build load_failed config = none
  build loading none = some []
  build no_path (some lines) = some (build_lines lines (some (new_store re none)) [])
  build (loaded sites) (some lines) = some (build_lines lines (some (new_store re (some sites))) [])
