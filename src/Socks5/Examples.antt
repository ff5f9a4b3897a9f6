-- ===== src/Socks5/Examples.antt =====
-- The SOCKS5 server: an example of each law.
use ssh_worker.Prelude.{
  false, true, ◌*◌, some, List, [], ◌∷◌, bytes, to_lower, split, lower, ◌≡◌, refl, arith,
}
use ssh_worker.Samples.{literal, prefixes, plain}
use ssh_worker.Rules.Types.{Rule, domain_suffix, match_all}
use ssh_worker.Socks5.Server.{Limits, Server, second}
use ssh_worker.Socks5.Idle.{Conn, handle_conn}
use ssh_worker.Socks5.Server.Serve.{accepts, fails}
use ssh_worker.Socks5.Server.Serve.Laws.{Returns, serve-Returns}

abbrev rules : List (Rule literal prefixes)
rules =
    record {
      test = domain_suffix (bytes "ads.net");
      adapter = bytes "REJECT";
      raw = bytes "DOMAIN-SUFFIX,ads.net,REJECT";
    }
    ∷ record { test = match_all; adapter = bytes "PROXY"; raw = bytes "MATCH,PROXY" }
    ∷ []

address_split :
    plain.split_host_port (bytes "www.Ads.net:443") ≡ some (bytes "www.Ads.net", bytes "443")
unfolding split
address_split = refl

lower_address_split :
    plain.split_host_port (bytes "www.ads.net:443") ≡ some (bytes "www.ads.net", bytes "443")
unfolding split
lower_address_split = refl

same_lower : to_lower (bytes "www.Ads.net") ≡ to_lower (bytes "www.ads.net")
unfolding to_lower lower
same_lower = refl

abbrev limits : Limits
limits = record { max_conns = 1; idle_timeout = 300 * second; handshake_to = 15 * second }

abbrev idle_server : Server
idle_server = record { limits = limits; active = 0; total = 0 }

abbrev watched_conn : Conn
watched_conn = handle_conn limits 0

-- A client, an error of Accept that is passed over, and the end of the context.
serve-Returns_example :
    Returns
      (accepts ∷ fails false false ∷ accepts ∷ fails true false ∷ [])
      (3000000000 ∷ [])
      idle_server
serve-Returns_example =
    serve-Returns (accepts ∷ fails false false ∷ accepts ∷ fails true false ∷ []) (3000000000 ∷ [])
      idle_server (omega arith)
