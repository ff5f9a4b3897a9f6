-- ===== src/Network.antt =====
-- network/network.go and wsconn.go: the dialer of a configuration, and the bytes of a WebSocket
-- connection.
mod Examples
pub mod Dialing
pub mod Laws
use ssh_worker.Prelude.{
  ℕ, zero, suc, Bool, true, false, if◌then◌else◌, ◌||◌, Option, none, some, List, [], ◌∷◌, ◌++◌,
  Text, bytes, text_eq, is_empty, take, drop,
}
use ssh_worker.Config.{Config, dial_target, sni_host, or_text}

pub record WsDialer : Type 0 where
  pub address : Text
  pub path : Text
  pub tls : Bool
  pub server_name : Text

pub data Dialer : Type 0 where
  tcp : Text → Dialer
  ws : WsDialer → Dialer
  unsupported : Text → Dialer

unfoldable pub new_ws_dialer : Text → Text → Bool → Text → WsDialer
new_ws_dialer addr path use_tls sni = record {
  address = addr;
  path = path;
  tls = use_tls;
  server_name = sni;
}

-- `unsupported` is the error, with the type that it names.
unfoldable pub new_dialer : Config → Dialer
unfolding new_ws_dialer
new_dialer c =
    if text_eq c.network (bytes "tcp") || is_empty c.network
    then tcp (dial_target c)
    else if text_eq c.network (bytes "ws")
    then ws (
        new_ws_dialer (dial_target c) (or_text c.transport.path (bytes "/")) c.transport.tls
          (sni_host c))
    else unsupported c.network

-- A WebSocket connection: what is left of the message that is being read, and the messages that are
-- still to come before the connection fails.
pub record WsConn : Type 0 where
  pub reader : Option Text
  pub messages : List Text

-- The loop of Read where no message is being read: a message without bytes is passed over. `none` is
-- the error of NextReader.
unfoldable pub read_next : ℕ → List Text → WsConn × Option Text
read_next size [] = (record { reader = none; messages = [] }, none)
read_next size ([] ∷ ms) = read_next size ms
read_next size ((c ∷ cs) ∷ ms) =
    (record { reader = some (drop size (c ∷ cs)); messages = ms }, some (take size (c ∷ cs)))

-- Read, by the reader: at the end of a message the next one is read. `size` is the length of the
-- buffer; the reader of a message fills it as far as it can.
unfoldable pub read_from : ℕ → Option Text → List Text → WsConn × Option Text
unfolding read_next
read_from size none ms = read_next size ms
read_from size (some []) ms = read_next size ms
read_from size (some (c ∷ cs)) ms =
    (record { reader = some (drop size (c ∷ cs)); messages = ms }, some (take size (c ∷ cs)))

unfoldable pub read : ℕ → WsConn → WsConn × Option Text
unfolding read_from
read size c = read_from size c.reader c.messages
