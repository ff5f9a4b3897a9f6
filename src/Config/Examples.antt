-- ===== src/Config/Examples.antt =====
-- The configuration: an example of each law.
use ssh_worker.Prelude.{true, false, [], ◌∷◌, bytes, ◌≡◌, refl}
use ssh_worker.Prelude.Int.{pos}
use ssh_worker.Rules.Number.{int64}
use ssh_worker.Config.{
  Config, listen_addrs, addrs_from, port_at, start_port, digits, itoa, join_host_port,
}

abbrev two_workers : Config
two_workers = record {
  listen = record { host = []; port = pos 1080 };
  concurrency = record { enable = true; workers = pos 2; start_port = pos 0 };
  ssh = record {
    host = bytes "ssh.example";
    port = pos 0;
    username = bytes "user";
    password = bytes "secret";
    private_key = [];
  };
  network = [];
  transport = record { tls = false; host = []; path = []; sni = [] };
  proxy = record {
    enable = false;
    host = [];
    port = pos 0;
    kind = [];
    username = [];
    password = [];
  };
  payload = record { enable = false; request = []; expect = [] };
  socks5 = record { max_conns = pos 0; idle_timeout = pos 0 };
  log_level = [];
}

-- The addresses follow each other.
two_addrs : listen_addrs two_workers ≡ bytes "127.0.0.1:1080" ∷ bytes "127.0.0.1:1081" ∷ []
unfolding listen_addrs addrs_from join_host_port itoa port_at start_port int64 digits
two_addrs = refl
