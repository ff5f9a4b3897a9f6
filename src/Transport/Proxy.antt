-- ===== src/Transport/Proxy.antt =====
-- transport/proxy.go and buffer.go: a connection through an HTTP proxy.
pub mod Laws
use ssh_worker.Prelude.{
  ℕ, ◌+◌, ◌-◌, ◌*◌, ◌/◌, ◌%◌, ltb, ◌==◌, if◌then◌else◌, Bool, true, false, ◌||◌, Option, none, some,
  List, [], ◌∷◌, ◌++◌, Text, bytes, text_eq, is_empty,
}
use ssh_worker.Errs.{Error}
use ssh_worker.Config.{ProxyConfig, itoa, join_host_port}

abbrev pub digit_64 : ℕ → ℕ
digit_64 n =
    if ltb n 26
    then b'A' + n
    else if ltb n 52
    then b'a' + (n - 26)
    else if ltb n 62
    then b'0' + (n - 52)
    else if n == 62
    then b'+'
    else b'/'

-- base64.StdEncoding.EncodeToString.
unfoldable pub encode_64 : Text → Text
encode_64 [] = []
encode_64 (a ∷ []) = digit_64 (a / 4) ∷ digit_64 (a % 4 * 16) ∷ b'=' ∷ b'=' ∷ []
encode_64 (a ∷ b ∷ []) =
    digit_64 (a / 4) ∷ digit_64 (a % 4 * 16 + b / 16) ∷ digit_64 (b % 16 * 4) ∷ b'=' ∷ []
encode_64 (a ∷ b ∷ c ∷ cs) =
    digit_64 (a / 4)
    ∷ digit_64 (a % 4 * 16 + b / 16)
    ∷ digit_64 (b % 16 * 4 + c / 64)
    ∷ digit_64 (c % 64)
    ∷ encode_64 cs

-- The request of CONNECT: its target, which is its host too, and Proxy-Authorization.
pub record Request : Type 0 where
  pub target : Text
  pub authorization : Option Text

unfoldable pub connect_request : Text → ProxyConfig → Request
unfolding encode_64
connect_request target p = record {
  target = target;
  authorization =
      if is_empty p.username
      then none
      else some (bytes "Basic " ++ encode_64 (p.username ++ b':' ∷ p.password));
}

-- What reading the response gave: its status code, its status line, and the bytes that were read
-- behind it.
pub data Response : Type 0 where
  broken : Error → Response
  response : ℕ → Text → Text → Response

-- What a call meets: the error of the dial and of the write, and the response.
pub record Stages : Type 0 where
  pub dialled : Option Error
  pub written : Option Error
  pub answer : Response

-- What it leaves: whether a connection was opened, and closed, whether its deadline is set, the
-- bytes that are read first from it, the request that was written, and the error.
pub record Tunnel : Type 0 where
  pub opened : Bool
  pub closed : Bool
  pub limited : Bool
  pub left : Text
  pub sent : Option Request
  pub error : Option Error

abbrev pub shut : Bool → Option Request → Error → Tunnel
shut limited sent e = record {
  opened = true;
  closed = true;
  limited = limited;
  left = [];
  sent = sent;
  error = some e;
}

-- Bytes that are buffered behind the response are read before those of the connection.
unfoldable pub answered : Response → Request → Tunnel
answered (broken e) req = shut true (some req) e
answered (response code status behind) req =
    if code == 200
    then record {
      opened = true;
      closed = false;
      limited = false;
      left = behind;
      sent = some req;
      error = none;
    }
    else shut true (some req) (Error.other (bytes "proxy CONNECT gagal: " ++ status))

unfoldable pub http_connect : Option Error → Response → Request → Tunnel
unfolding answered
http_connect none answer req = answered answer req
http_connect (some e) answer req = shut true none e

unfoldable pub proxy_address : ProxyConfig → Text
unfolding itoa join_host_port
proxy_address p = join_host_port p.host (itoa p.port)

unfoldable pub after_dial : Option Error → Text → ProxyConfig → Stages → Tunnel
unfolding http_connect connect_request
after_dial (some e) target p s = record {
  opened = false;
  closed = false;
  limited = false;
  left = [];
  sent = none;
  error = some e;
}
after_dial none target p s =
    if text_eq p.kind (bytes "http") || is_empty p.kind
    then http_connect s.written s.answer (connect_request target p)
    else shut false none (Error.other (bytes "proxy.type tidak didukung: " ++ p.kind))

unfoldable pub dial_through_proxy : Text → ProxyConfig → Stages → Tunnel
unfolding after_dial
dial_through_proxy target p s = after_dial s.dialled target p s
