-- ===== src/Clashconfig/Examples.antt =====
-- The configuration of Clash: an example of each law.
use ssh_worker.Prelude.{false, none, [], ◌∷◌, bytes, text_eq, split, join, ◌≡◌, ◌↔◌, refl}
use ssh_worker.Prelude.Int.{pos, is_neg}
use ssh_worker.Clashconfig.Paths.{is_abs, clean, dir, join_path, up_to_slash, resolve, go_up}
use ssh_worker.Clashconfig.{ClashConfig, validate}
use ssh_worker.Clashconfig.Laws.{RefersWell, validate_iff}

-- The directory of a dashboard beside a file, and that of a file without a directory.
join_path_beside :
    join_path (dir (bytes "conf/../x/clash.yaml")) (bytes "./ui/../pub//") ≡ bytes "x/pub"
unfolding join_path dir clean up_to_slash resolve go_up is_abs split join text_eq
join_path_beside = refl

dir_of_name : dir (bytes "clash.yaml") ≡ bytes "."
unfolding dir clean up_to_slash resolve go_up is_abs split join text_eq
dir_of_name = refl

abbrev pub home : ClashConfig
home = record {
  mixed_port = pos 7890;
  redir_port = pos 0;
  socks_port = pos 0;
  port = pos 0;
  allow_lan = false;
  bind_address = [];
  mode = [];
  log_level = [];
  ipv6 = false;
  external_controller = [];
  external_ui = bytes "ui";
  secret = [];
  global_client_fingerprint = [];
  unified_delay = false;
  tcp_concurrent = false;
  find_process_mode = [];
  sniffer = none;
  proxies =
      record {
        name = bytes "worker-0";
        kind = bytes "socks5";
        server = bytes "127.0.0.1";
        port = pos 1080;
        udp = false;
        username = [];
        password = [];
      }
      ∷ [];
  proxy_groups =
      record {
        name = bytes "auto";
        kind = bytes "select";
        proxies = bytes "worker-0" ∷ bytes "DIRECT" ∷ [];
        url = [];
        interval = pos 0;
        tolerance = pos 0;
        lazy = false;
        strategy = [];
      }
      ∷ [];
  dns = none;
  rules = bytes "MATCH,DIRECT" ∷ [];
  rule_providers = [];
}

validate_example : (validate home ≡ none) ↔ (
    (is_neg home.mixed_port ≡ false)
    × (is_neg home.socks_port ≡ false)
    × (is_neg home.port ≡ false)
    × RefersWell home)
validate_example = validate_iff home
