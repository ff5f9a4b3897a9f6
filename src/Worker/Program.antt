-- ===== src/Worker/Program.antt =====
-- main.go: from the two configurations to the workers and the API.
pub mod Laws
pub mod Serving
pub mod Shown
use ssh_worker.Prelude.{
  ℕ, ◌==◌, if◌then◌else◌, Bool, true, false, not, Option, none, some, List, [], ◌∷◌, ◌++◌, Text,
  is_empty, bytes, ◌≡◌,
}
use ssh_worker.Errs.{Error, is_canceled}
use ssh_worker.Qload.{Result, ok, err}
use ssh_worker.Config.{Config, apply_defaults, validate_all}
use ssh_worker.Clashconfig.{ClashConfig, validate, apply_defaults as clash_defaults}
use ssh_worker.Rules.Matcher.{Regexp}
use ssh_worker.Rules.Types.{Networks, Rule}
use ssh_worker.Rules.Builder.{Loading, build}
use ssh_worker.Health.State.{Floats}

-- config.Load: what os.ReadFile and json.Unmarshal gave, each with its error.
unfoldable pub load : Result Text → (Text → Result Config) → Result Config
load (err e) parse = err e
load (ok content) parse = elim (parse content) [
  | ok c ↦ ok c
  | err e ↦ err (Error.wrap (bytes "parse json: ") e)
]

-- The file that is given with -clash: its path, and what the YAML of it is, if it is read.
pub record YamlFile : Type 0 where
  pub path : Text
  pub content : Option ClashConfig

-- clashconfig.Load.
unfoldable pub load_yaml : YamlFile → Option ClashConfig
load_yaml f = elim f.content [ none ↦ none | some c ↦ some (clash_defaults f.path c) ]

abbrev pub valid_only : ClashConfig → Option Error → Option (Option ClashConfig)
valid_only c none = some (some c)
valid_only c (some e) = none

abbrev pub checked : Option ClashConfig → Option (Option ClashConfig)
checked none = none
checked (some c) = valid_only c (validate c)

-- The second stage: no file is no configuration of Clash, and the outer `none` is os.Exit(1).
unfoldable pub read_clash : Option YamlFile → Option (Option ClashConfig)
unfolding load_yaml
read_clash none = some none
read_clash (some f) = checked (load_yaml f)

abbrev pub lines_of : Option ClashConfig → Option (List Text)
lines_of none = none
lines_of (some c) = some c.rules

module _ (re : Regexp) (net : Networks) where
  -- What main has before it starts the workers.
  pub record Ready : Type 0 where
    pub config : Config
    pub clash : Option ClashConfig
    pub rules : List (Rule re net)

  abbrev pub with_rules : Config → Option ClashConfig → Option (List (Rule re net)) → Option Ready
  with_rules c clash none = none
  with_rules c clash (some rs) = some (record { config = c; clash = clash; rules = rs })

  abbrev pub with_clash : Config → Loading → Option (Option ClashConfig) → Option Ready
  with_clash c l none = none
  with_clash c l (some clash) = with_rules c clash (build re net l (lines_of clash))

  unfoldable pub checked_config : List Text → Config → Option YamlFile → Loading → Option Ready
  unfolding read_clash
  checked_config [] c yaml l = with_clash c l (read_clash yaml)
  checked_config (e ∷ es) c yaml l = none

  -- The first argument is what config.Load gave, without its error; `none` is os.Exit(1).
  unfoldable pub start_up : Option Config → Option YamlFile → Loading → Option Ready
  unfolding checked_config
  start_up none yaml l = none
  start_up (some c) yaml l =
      checked_config (validate_all (apply_defaults c)) (apply_defaults c) yaml l

-- The section clash_api of the configuration.
pub record ClashApiConfig : Type 0 where
  pub enable : Bool
  pub listen : Text
  pub secret : Text
  pub cors_origins : Text

pub record ApiSettings : Type 0 where
  pub listen : Text
  pub secret : Text
  pub cors_origins : Text
  pub external_ui : Text

abbrev pub or_given : Text → Text → Text
or_given [] d = d
or_given (c ∷ cs) d = c ∷ cs

unfoldable pub api_settings : ClashApiConfig → Option ClashConfig → ApiSettings
api_settings a none = record {
  listen = a.listen;
  secret = a.secret;
  cors_origins = a.cors_origins;
  external_ui = [];
}
api_settings a (some c) = record {
  listen = or_given c.external_controller a.listen;
  secret = or_given c.secret a.secret;
  cors_origins = a.cors_origins;
  external_ui = c.external_ui;
}

-- The workers that run, the references that the goroutines have appended, each with the number of
-- its worker, or none where it is the empty one, and the copy of them that the API was given.
pub record Workers : Type 0 where
  pub running : ℕ → Bool
  pub refs : List (Option ℕ)
  pub shown : Option (List (Option ℕ))

-- The goroutine of a worker behind runWorker.
unfoldable pub add_ref : ℕ → Option Error → List (Option ℕ) → List (Option ℕ)
unfolding is_canceled
add_ref i none refs = refs ++ some i ∷ []
add_ref i (some e) refs = if is_canceled e then refs ++ none ∷ [] else refs

abbrev pub without : ℕ → (ℕ → Bool) → ℕ → Bool
without i running j = if i == j then false else running j

pub data Step : Workers → Workers → Type 0 where
  returned :
      (s : Workers) (i : ℕ) (e : Option Error)
      → s.running i ≡ true
      → Step s (record s { running = without i s.running; refs = add_ref i e s.refs })
  api_made : (s : Workers) → s.shown ≡ none → Step s (record s { shown = some s.refs })

pub data Reach (s : Workers) : Workers → Type 0 where
  here : Reach s s
  next : {t u : Workers} → Reach s t → Step t u → Reach s u
