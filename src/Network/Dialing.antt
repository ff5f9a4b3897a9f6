-- ===== src/Network/Dialing.antt =====
-- network/tcp.go, ws.go and wsconn.go: what the dialers ask of the packages net and websocket, and
-- what a WebSocket connection sends.
pub mod Laws
use ssh_worker.Prelude.{
  ℕ, Bool, true, false, if◌then◌else◌, Option, none, some, List, [], ◌∷◌, ◌++◌, Text, bytes, length,
}
use ssh_worker.Errs.{Error}
use ssh_worker.Network.{WsDialer, Dialer, tcp, ws, unsupported}

-- The url.URL that a WSDialer asks for.
pub record Url : Type 0 where
  pub scheme : Text
  pub host : Text
  pub path : Text

pub record TlsConfig : Type 0 where
  pub server_name : Text
  pub insecure_skip_verify : Bool

-- DialContext of net.Dialer at an address, and of websocket.Dialer at a URL: `none` is a connection.
pub record Calls : Type 0 where
  pub dial_net : Text → Option Error
  pub dial_websocket : Url → Option TlsConfig → Option Error

abbrev pub url_of : WsDialer → Url
url_of d = record {
  scheme = if d.tls then bytes "wss" else bytes "ws";
  host = d.address;
  path = d.path;
}

abbrev pub tls_of : WsDialer → Option TlsConfig
tls_of d =
    if d.tls
    then some (record { server_name = d.server_name; insecure_skip_verify = true })
    else none

abbrev pub upgraded : Option Error → Option Error
upgraded none = none
upgraded (some e) = some (Error.wrap (bytes "ws dial: ") e)

unfoldable pub dial_ws : WsDialer → Calls → Option Error
dial_ws d calls = upgraded (calls.dial_websocket (url_of d) (tls_of d))

-- NewDialer with DialContext of what it gives.
unfoldable pub dial_context : Dialer → Calls → Option Error
unfolding dial_ws
dial_context (tcp address) calls = calls.dial_net address
dial_context (ws d) calls = dial_ws d calls
dial_context (unsupported t) calls = some (Error.other (bytes "network.type tidak didukung: " ++ t))

-- The sending half of a wsConn: the binary messages that were sent, and whether the connection was
-- closed.
pub record Sender : Type 0 where
  pub sent : List Text
  pub closed : Bool

-- Write, by the answer of WriteMessage: the number of bytes and the error.
unfoldable pub write : Option Error → Text → Sender → Sender × ℕ × Option Error
write none p s = (record s { sent = s.sent ++ p ∷ [] }, length p, none)
write (some e) p s = (s, 0, some e)

-- Close, by the answers to the control message, which is dropped, and to Close of the package.
unfoldable pub close : Option Error → Option Error → Sender → Sender × Option Error
close control e s = (record s { closed = true }, e)

-- SetDeadline, by the answers of the two deadlines: that of the reads is dropped.
unfoldable pub set_deadline : Option Error → Option Error → Option Error
set_deadline for_read for_write = for_write
