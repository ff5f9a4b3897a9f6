-- ===== src/Clashapi/Examples.antt =====
-- The API: an example of each law of its trackers and handlers.
use ssh_worker.Prelude.{
  ◌+◌, ◌-◌, ◌≤◌, arith, true, false, none, some, List, [], ◌∷◌, ◌++◌, any, length, bytes, text_eq,
  ◌≡◌, ◌↔◌, refl, if◌then◌else◌,
}
use ssh_worker.Prelude.Int.{pos}
use ssh_worker.Prelude.Maps.{lookup}
use ssh_worker.Samples.{literal, prefixes, plain}
use ssh_worker.Rules.Types.{Rule, domain_suffix}
use ssh_worker.Rules.Engine.{count_rejects}
use ssh_worker.Clashconfig.{ProxyEntry, ProxyGroup}
use ssh_worker.Clashapi.Connections.{Metadata, new_connection_tracker}
use ssh_worker.Clashapi.Connections.Laws.{Operation, run, all_taken, IsAccounted, run-IsAccounted}
use ssh_worker.Clashapi.Connections.Watch.{
  Shared, subscribed, ids, notified, written, here, done, followed, work, IsStuck, Settles-shown,
}
use ssh_worker.Clashapi.Traffic.{
  Counter, adds, loads, swaps, Reach as TrafficReach, new_traffic_tracker,
}
use ssh_worker.Clashapi.Traffic.Laws.{IsAccounted as IsShared, Reach-IsAccounted}
use ssh_worker.Clashapi.Logs.{LogMessage, Dashboard, published, receives, run as run_logs}
use ssh_worker.Clashapi.Logs.Laws.{got, accepted, run_accepts}
use ssh_worker.Clashapi.Proxies.{
  WorkerRef, worker_proxy, yaml_proxy, group_proxy, selector_proxy, fixed_proxies, all_proxies,
}
use ssh_worker.Clashapi.Proxies.Laws.{
  or_else, last_named, yaml_groups, yaml_proxies, all_proxies_lem,
}
use ssh_worker.Clashapi.Handlers.{Options, Decoded}
use ssh_worker.Clashapi.Handlers.Rules.{RuleEntry, handle_get_rules, handle_get_blocklist}
use ssh_worker.Clashapi.Handlers.Laws.{is_missing, panics, rejecting, blocklist_lem}
use ssh_worker.Clashapi.Auth.{served, handle}
use ssh_worker.Clashapi.Handlers.Routes.{dispatch}
use ssh_worker.Clashapi.Server.{Call, Reply, Backend, serve}
use ssh_worker.Clashapi.Server.Laws.{Cause, serve_iff}

abbrev no_metadata : Metadata
no_metadata = record {
  network = bytes "tcp";
  kind = [];
  source_ip = [];
  destination_ip = [];
  source_port = [];
  destination_port = [];
  host = bytes "a.example";
}

-- A connection with id 0a that moves bytes and is closed.
abbrev calls : List Operation
calls =
    Operation.opens (10 ∷ []) no_metadata [] []
    ∷ Operation.counts (bytes "0a") 5 7
    ∷ Operation.counts (bytes "0b") 1 1
    ∷ Operation.closes (bytes "0a")
    ∷ []

run-IsAccounted_example :
    IsAccounted
      (all_taken (λ c. c.upload) calls new_connection_tracker + 0)
      (all_taken (λ c. c.download) calls new_connection_tracker + 0)
      (run calls new_connection_tracker)
run-IsAccounted_example =
    run-IsAccounted calls 0 0 new_connection_tracker
      (record { unique = tt; uploads = refl; downloads = refl })

-- A call of Close that has not called notify yet when the dashboard subscribes.
Settles-shown_example :
    let s = subscribed new_connection_tracker 1 in
    let u : Shared = record (record s { reading = false; shown = ids s }) {
      notifying = 1 - 1;
      pending = true;
    } in
    (2 ≤ work s) × (IsStuck u → u.shown ≡ ids s)
Settles-shown_example =
    let s = subscribed new_connection_tracker 1 in
    let v : Shared = record s { reading = false; shown = ids s } in
    let u : Shared = record v { notifying = 1 - 1; pending = true } in
    Settles-shown new_connection_tracker 1 2 s u here
      (followed (written s refl) tt (followed (notified v (omega arith)) tt (done u)))

abbrev idle_counter : Counter
idle_counter = record { traffic = []; total = 0; last = 0; loaded = []; given = 0 }

abbrev moved : Counter
moved = record { traffic = 9 ∷ []; total = 9; last = 0; loaded = []; given = 0 }

abbrev read_once : Counter
read_once = record moved { loaded = 9 ∷ [] }

Reach-IsAccounted_example : IsShared (record moved { last = 9; given = 9 })
Reach-IsAccounted_example =
    Reach-IsAccounted
      (record { total = refl; given = refl; last = ([], [], refl, refl); loaded = tt })
      (TrafficReach.next
        (TrafficReach.next (TrafficReach.next TrafficReach.here (adds idle_counter 9))
          (loads moved))
        (swaps read_once 0 9 refl))

abbrev hello_message : LogMessage
hello_message = record { kind = bytes "info"; payload = bytes "hello" }

abbrev listener : Dashboard
listener = record { channel = record { number = 1; messages = [] }; taken = [] }

run_accepts_example :
    got (run_logs (published hello_message ∷ receives ∷ []) listener)
    ≡ got listener ++ accepted 0 (published hello_message ∷ receives ∷ [])
run_accepts_example = run_accepts (published hello_message ∷ receives ∷ []) listener

abbrev worker_0 : WorkerRef
worker_0 = record {
  name = bytes "worker-0";
  addr = bytes "127.0.0.1:1080";
  healthy = some true;
  latency = some (pos 42_000_000);
  snapshot = none;
}

all_proxies_example :
    lookup (bytes "worker-0") (all_proxies (bytes "WORKERS") [] (worker_0 ∷ []) none)
    ≡ or_else
        (last_named (λ (g : ProxyGroup). g.name) group_proxy (bytes "worker-0") (yaml_groups none))
        (or_else
          (last_named
            (λ (p : ProxyEntry). p.name)
            yaml_proxy
            (bytes "worker-0")
            (yaml_proxies none))
          (if text_eq (bytes "WORKERS") (bytes "worker-0")
            then some (selector_proxy (bytes "WORKERS") [] (worker_0 ∷ []))
            else or_else
                (last_named
                  (λ (w : WorkerRef). w.name)
                  worker_proxy
                  (bytes "worker-0")
                  (worker_0 ∷ []))
                (lookup (bytes "worker-0") fixed_proxies)))
all_proxies_example = all_proxies_lem (bytes "worker-0") (bytes "WORKERS") [] (worker_0 ∷ []) none

abbrev options : Options
options = record {
  version = bytes "1.0.0";
  workers = worker_0 ∷ [];
  selector_name = bytes "WORKERS";
  active_worker = some (bytes "worker-0");
  set_active_worker = none;
  clash_config = none;
}

abbrev block_ads : Rule literal prefixes
block_ads = record {
  test = domain_suffix (bytes "ads.example");
  adapter = bytes "REJECT";
  raw = bytes "DOMAIN-SUFFIX,ads.example,REJECT";
}

blocklist_example :
    (is_missing (handle_get_rules (some (block_ads ∷ []))) ≡ any panics (block_ads ∷ []))
    × ((es : List RuleEntry)
        → handle_get_rules (some (block_ads ∷ [])) ≡ some es
        → (handle_get_blocklist (some (block_ads ∷ [])) ≡ some (rejecting es))
          × (length (rejecting es) ≡ count_rejects (block_ads ∷ [])))
blocklist_example = blocklist_lem (block_ads ∷ [])

abbrev backend : Backend literal prefixes
backend = record {
  options = options;
  secret = bytes "s3";
  addresses = plain;
  connections = new_connection_tracker;
  traffic = new_traffic_tracker;
  rule_engine = some (block_ads ∷ []);
}

abbrev list_rules : Call
list_rules = record {
  access = record {
    method = bytes "GET";
    authorization = bytes "Bearer s3";
    token = [];
    origin = [];
  };
  segments = bytes "rules" ∷ [];
  upgrade = [];
  body = Decoded.malformed [];
}

serve_example : (serve literal prefixes backend list_rules ≡ Reply.aborted) ↔ (
    (handle (bytes "s3") list_rules.access ≡ served)
    × Cause literal prefixes (dispatch (bytes "GET") (bytes "rules" ∷ [])) backend)
serve_example = serve_iff literal prefixes backend list_rules
