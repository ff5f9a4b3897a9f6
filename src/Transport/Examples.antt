-- ===== src/Transport/Examples.antt =====
-- The transport: an example of each law.
use ssh_worker.Prelude.{
  true, false, none, some, [], ◌∷◌, ◌++◌, map, Text, bytes, contains, starts_with, text_eq, All,
  ◌≡◌, refl,
}
use ssh_worker.Prelude.Int.{pos}
use ssh_worker.Errs.{Error}
use ssh_worker.Config.{Config, PayloadConfig, itoa, digits, ProxyConfig}
use ssh_worker.Transport.{
  Stream, Peer, Stages, add_status, is_blank, concat, drain_responses, render_payload, split_at,
  apply_payload, dial, replace, find_pair, put_new, tokens,
}
use ssh_worker.Transport.Laws.{IsTidy, dial-IsTidy, drain_keeps_after_101, apply_payload_sends}
use ssh_worker.Transport.Proxy.{response, encode_64, dial_through_proxy, Stages as ProxyStages}
use ssh_worker.Transport.Proxy.Laws.{Ends, dial_through_proxy-Ends}

abbrev crlf : Text
crlf = 13 ∷ 10 ∷ []

abbrev ok_then_banner : Stream
ok_then_banner = record {
  lines = (bytes "HTTP/1.1 200 OK" ++ crlf) ∷ crlf ∷ (bytes "SSH-2.0-x" ++ crlf) ∷ [];
  partial = [];
}

plain_lines : All (λ l. contains l (bytes "101") ≡ false) ok_then_banner.lines
unfolding contains starts_with
plain_lines = (refl, (refl, (refl, tt)))

abbrev switching : Text
switching = bytes "HTTP/1.1 101 Switching" ++ crlf

switching_101 : contains switching (bytes "101") ≡ true
unfolding contains starts_with
switching_101 = refl

header_not_blank : All (λ l. is_blank l ≡ false) ((bytes "A: b" ++ crlf) ∷ [])
unfolding is_blank text_eq
header_not_blank = (refl, tt)

crlf_blank : is_blank crlf ≡ true
unfolding is_blank text_eq
crlf_blank = refl

drain_keeps_after_101_example :
    drain_responses (record {
      lines =
          switching ∷ ((bytes "A: b" ++ crlf) ∷ []) ++ crlf ∷ ((bytes "SSH-2.0-x" ++ crlf) ∷ []);
      partial = bytes "k";
    })
    ≡ add_status switching
        (record { statuses = []; left = concat ((bytes "SSH-2.0-x" ++ crlf) ∷ []) ++ bytes "k" })
drain_keeps_after_101_example =
    drain_keeps_after_101 switching ((bytes "A: b" ++ crlf) ∷ []) crlf
      ((bytes "SSH-2.0-x" ++ crlf) ∷ []) (bytes "k") switching_101 header_not_blank crlf_blank

abbrev payload : PayloadConfig
payload = record { enable = true; request = bytes "GET [host]:[port][crlf][split]x"; expect = [] }

abbrev quiet : Peer
quiet = record { head_error = none; arrives = ok_then_banner; tail_error = none }

apply_payload_sends_example :
    concat (apply_payload payload (bytes "h") (pos 22) quiet).written
    ≡ concat (
        map
          (λ t. render_payload t (bytes "h") (pos 22))
          (split_at (bytes "[split]") payload.request 0))
apply_payload_sends_example =
    apply_payload_sends payload (bytes "h") (pos 22) quiet refl refl refl refl

abbrev config : Config
config = record {
  listen = record { host = []; port = pos 1080 };
  concurrency = record { enable = false; workers = pos 1; start_port = pos 0 };
  ssh = record {
    host = bytes "h";
    port = pos 22;
    username = bytes "u";
    password = bytes "p";
    private_key = [];
  };
  network = bytes "tcp";
  transport = record { tls = true; host = []; path = []; sni = [] };
  proxy = record {
    enable = false;
    host = [];
    port = pos 0;
    kind = [];
    username = [];
    password = [];
  };
  payload = payload;
  socks5 = record { max_conns = pos 0; idle_timeout = pos 0 };
  log_level = [];
}

abbrev failing_tls : Stages
failing_tls = record { network = none; tls = some (Error.other (bytes "tls")); peer = quiet }

dial-IsTidy_example : IsTidy (dial config failing_tls)
dial-IsTidy_example = dial-IsTidy config failing_tls

-- The tokens of a template are replaced, and a text that is none stays.
rendered :
    render_payload (bytes "[host]:[port][x][lf]") (bytes "h") (pos 22) ≡ bytes "h:22[x]" ++ 10 ∷ []
unfolding render_payload replace find_pair put_new tokens starts_with itoa digits
rendered = refl

encoded : encode_64 (bytes "user:pass") ≡ bytes "dXNlcjpwYXNz"
unfolding encode_64
encoded = refl

abbrev squid : ProxyConfig
squid = record {
  enable = true;
  host = bytes "proxy.example";
  port = pos 3128;
  kind = bytes "http";
  username = bytes "user";
  password = bytes "pass";
}

abbrev accepting : ProxyStages
accepting = record {
  dialled = none;
  written = none;
  answer = response 200 (bytes "200 OK") (bytes "SSH-2.0-x");
}

dial_through_proxy-Ends_example :
    let t = dial_through_proxy (bytes "ssh.example:22") squid accepting in
    Ends squid (bytes "ssh.example:22") accepting t t.error
dial_through_proxy-Ends_example = dial_through_proxy-Ends squid (bytes "ssh.example:22") accepting
