-- ===== src/Worker/Examples.antt =====
-- Workers and the program: an example of each law.
use ssh_worker.Prelude.{
  ◌==◌, if◌then◌else◌, ℕ, arith, true, false, none, some, [], ◌∷◌, bytes, ◌≡◌, ◌↔◌, refl, ap,
  text_eq,
}
use ssh_worker.Prelude.Int.{pos}
use ssh_worker.Samples.{thousandths, literal, prefixes}
use ssh_worker.Errs.{Error}
use ssh_worker.Config.{Config, apply_defaults, validate_all, complaints}
use ssh_worker.Clashconfig.{
  ClashConfig, validate, known, check_groups, check_refs, apply_defaults as clash_defaults,
  place_ui,
}
use ssh_worker.Rules.Builder.{no_path, build, build_lines}
use ssh_worker.Qload.{allow, new as new_limiter, defaults as limiter_defaults}
use ssh_worker.Transport.{Stages, dial as transport_dial, dial_stage, payload_stage}
use ssh_worker.Ssh.Manager.{
  is_up, AuthMethod, HostKey, build_ssh_config, finish_config, host_key_callback,
}
use ssh_worker.Worker.Pipeline.{Around, IsPiped, dial_fn, dial_fn-IsPiped}
use ssh_worker.Worker.Startup.{perform_all, Life, limits, run_worker, Boot}
use ssh_worker.Worker.Startup.Liveness.{Works}
use ssh_worker.Worker.Startup.Laws.{Leaves, run_worker-Leaves}
use ssh_worker.Worker.Program.{
  Workers, here, next, returned, api_made, without, add_ref, Ready, YamlFile, ClashApiConfig,
  start_up,
}
use ssh_worker.Worker.Program.Laws.{Starts, start_up_iff}
use ssh_worker.Worker.Program.Serving.{Serves, start_up-Serves}
use ssh_worker.Worker.Program.Shown.{HidesRunning, Reach-HidesRunning}

abbrev config : Config
config = record {
  listen = record { host = bytes "127.0.0.1"; port = pos 1080 };
  concurrency = record { enable = false; workers = pos 1; start_port = pos 0 };
  ssh = record {
    host = bytes "ssh.example";
    port = pos 22;
    username = bytes "u";
    password = bytes "p";
    private_key = [];
  };
  network = bytes "tcp";
  transport = record { tls = false; host = []; path = []; sni = [] };
  proxy = record {
    enable = false;
    host = [];
    port = pos 0;
    kind = [];
    username = [];
    password = [];
  };
  payload = record { enable = false; request = []; expect = [] };
  socks5 = record { max_conns = pos 0; idle_timeout = pos 0 };
  log_level = [];
}

abbrev unreachable : Stages
unreachable = record {
  network = some Error.unavailable;
  tls = none;
  peer = record {
    head_error = none;
    arrives = record { lines = []; partial = [] };
    tail_error = none;
  };
}

abbrev refusing : Around
refusing = record {
  start = 1;
  finish = 9;
  acquired = true;
  took = λ i. 5;
  stages = λ i t. unreachable;
  slept = λ i b. true;
}

-- A network that is never reached: all four attempts are made.
dial_fn-IsPiped_example :
    IsPiped config refusing (new_limiter limits) (dial_fn config refusing (new_limiter limits))
unfolding new_limiter limiter_defaults allow
dial_fn-IsPiped_example = dial_fn-IsPiped config refusing (new_limiter limits) refl refl

abbrev life : Life thousandths
life = record {
  known_hosts = [];
  health = record {
    degraded_rtt = pos 0;
    unhealthy_rtt = pos 0;
    degraded_err = 0;
    unhealthy_err = 0;
    degraded_hold = pos 0;
    heal_hold = pos 0;
  };
  now = 0;
  boots = λ i. record {
    around = refusing;
    id = i;
    files = record { key_read = none; key_parse = none; hosts = none };
    handshake = none;
    waited = true;
  };
  before = [];
  server = none;
  listen = none;
  during = [];
}

run_worker-Leaves_example : Leaves thousandths none (run_worker thousandths config life 0 none)
run_worker-Leaves_example = run_worker-Leaves thousandths config life 0 none

abbrev both : Workers
both = record { running = λ i. true; refs = []; shown = none }

-- The second of two workers ends early, and then the API is made.
Reach-HidesRunning_example :
    HidesRunning
      (record { running = without 1 (λ i. true); refs = some 1 ∷ []; shown = some (some 1 ∷ []) })
unfolding add_ref
Reach-HidesRunning_example =
    Reach-HidesRunning (record { refs = tt; shown = tt })
      (next (next here (returned both 1 none refl)) (
        api_made (record { running = without 1 (λ i. true); refs = some 1 ∷ []; shown = none })
          refl))

abbrev yaml : ClashConfig
yaml = record {
  mixed_port = pos 7890;
  redir_port = pos 0;
  socks_port = pos 0;
  port = pos 0;
  allow_lan = false;
  bind_address = [];
  mode = [];
  log_level = [];
  ipv6 = false;
  external_controller = [];
  external_ui = [];
  secret = [];
  global_client_fingerprint = [];
  unified_delay = false;
  tcp_concurrent = false;
  find_process_mode = [];
  sniffer = none;
  proxies = [];
  proxy_groups =
      record {
        name = bytes "auto";
        kind = bytes "select";
        proxies = bytes "DIRECT" ∷ [];
        url = [];
        interval = pos 0;
        tolerance = pos 0;
        lazy = false;
        strategy = [];
      }
      ∷ [];
  dns = none;
  rules = [];
  rule_providers = [];
}

abbrev yaml_file : YamlFile
yaml_file = record { path = bytes "clash.yaml"; content = some yaml }

abbrev ready : Ready literal prefixes
ready = record {
  config = apply_defaults config;
  clash = some (clash_defaults (bytes "clash.yaml") yaml);
  rules = [];
}

config_valid : validate_all (apply_defaults config) ≡ []
unfolding validate_all apply_defaults complaints text_eq
config_valid = refl

yaml_valid : validate (clash_defaults (bytes "clash.yaml") yaml) ≡ none
unfolding validate clash_defaults known check_groups check_refs text_eq place_ui
yaml_valid = refl

ready_rules : build literal prefixes no_path (some []) ≡ some []
unfolding build build_lines
ready_rules = refl

ready-Starts : Starts literal prefixes (some config) (some yaml_file) no_path ready
unfolding clash_defaults
ready-Starts = record {
  raw = config;
  loaded = refl;
  valid = config_valid;
  config = refl;
  clash = (yaml, refl, yaml_valid, refl);
  rules = ready_rules;
}

start_up_example :
    (start_up literal prefixes (some config) (some yaml_file) no_path ≡ some ready)
    ↔ Starts literal prefixes (some config) (some yaml_file) no_path ready
start_up_example = start_up_iff literal prefixes (some config) (some yaml_file) no_path ready

abbrev json_api : ClashApiConfig
json_api = record {
  enable = true;
  listen = bytes "0.0.0.0:8080";
  secret = bytes "s";
  cors_origins = [];
}

abbrev reachable : Stages
reachable = record {
  network = none;
  tls = none;
  peer = record {
    head_error = none;
    arrives = record { lines = []; partial = bytes "SSH-2.0-x" };
    tail_error = none;
  };
}

-- The first start meets a network that is not reached, the others one that is.
abbrev boots : ℕ → Boot thousandths
boots i = record {
  around = record refusing { stages = λ j t. if i == 0 then unreachable else reachable };
  id = i;
  files = record { key_read = none; key_parse = none; hosts = none };
  handshake = none;
  waited = true;
}

abbrev second_life : Life thousandths
second_life = record life { boots = boots }

second-Works :
    Works thousandths ready.config
      (record { password = bytes "p"; private_key = []; known_hosts = [] })
      (boots 1)
unfolding apply_defaults transport_dial dial_stage payload_stage build_ssh_config finish_config
    host_key_callback
second-Works = record {
  acquired = refl;
  connection = record { opened = true; closed = false; left = bytes "SSH-2.0-x"; error = none };
  reached = λ t. refl;
  open_ = refl;
  client_config = record { auth = AuthMethod.password ∷ []; host_key = HostKey.insecure_ignore };
  files = refl;
  handshake = refl;
}

start_up-Serves_example :
    Serves thousandths 0 none (run_worker thousandths ready.config second_life 0 none)
unfolding apply_defaults perform_all
start_up-Serves_example =
    start_up-Serves thousandths literal prefixes (some config) (some yaml_file) no_path ready
      second_life 0 none 1 (start_up_example.1 ready-Starts) (omega arith) second-Works
      (λ i h. refl) (λ w up. ap is_up up.0) (refl, refl)
