-- ===== src/Network/Dialing/Laws.antt =====
-- network/network.go, tcp.go, ws.go and wsconn.go: where the dialer of a configuration connects to,
-- and what the messages of a connection hold.
use ssh_worker.Prelude.{
  Bool, true, false, none, some, List, [], ◌∷◌, ◌++◌, Text, bytes, text_eq, is_empty, ◌≡◌, ◌||◌,
  refl, sym, ap, ◌∙◌, if_case, append_assoc, append-nil,
}
use ssh_worker.Config.{Config, dial_target, sni_host, or_text}
use ssh_worker.Network.{Dialer, tcp, ws, unsupported, new_ws_dialer, new_dialer}
use ssh_worker.Network.Dialing.{Calls, upgraded, dial_ws, dial_context, Sender, write}
use ssh_worker.Network.Laws.{concat}

-- Two networks that answer alike at an address and, for the given name, over TLS.
pub record AgreesAt (address name : Text) (a b : Calls) : Type 0 where
  pub net : a.dial_net address ≡ b.dial_net address
  pub websocket :
      (scheme path : Text)
      → a.dial_websocket (record { scheme = scheme; host = address; path = path }) none
        ≡ b.dial_websocket (record { scheme = scheme; host = address; path = path }) none
  pub secure :
      (scheme path : Text)
      → a.dial_websocket
          (record { scheme = scheme; host = address; path = path })
          (some (record { server_name = name; insecure_skip_verify = true }))
        ≡ b.dial_websocket
            (record { scheme = scheme; host = address; path = path })
            (some (record { server_name = name; insecure_skip_verify = true }))

abbrev Alike : Calls → Calls → Dialer → Type 0
Alike a b d = dial_context d a ≡ dial_context d b

ws-Alike :
    (address path : Text) (use_tls : Bool) (name : Text) (a b : Calls)
    → AgreesAt address name a b
    → Alike a b (ws (new_ws_dialer address path use_tls name))
unfolding dial_context dial_ws new_ws_dialer
ws-Alike address path true name a b h = ap upgraded (h.secure (bytes "wss") path)
ws-Alike address path false name a b h = ap upgraded (h.websocket (bytes "ws") path)

tcp-Alike :
    (address : Text) (a b : Calls)
    → a.dial_net address ≡ b.dial_net address
    → Alike a b (tcp address)
unfolding dial_context
tcp-Alike address a b e = e

unsupported-Alike : (t : Text) (a b : Calls) → Alike a b (unsupported t)
unfolding dial_context
unsupported-Alike t a b = refl

-- The dialer of a configuration connects to the dial target and to nothing else, by the server name
-- of the SNI host: two networks that answer alike there are the same to it.
pub dial_context-new_dialer :
    (c : Config) (a b : Calls)
    → AgreesAt (dial_target c) (sni_host c) a b
    → dial_context (new_dialer c) a ≡ dial_context (new_dialer c) b
unfolding new_dialer
dial_context-new_dialer c a b h =
    if_case (Alike a b) (text_eq c.network (bytes "tcp") || is_empty c.network)
      (tcp-Alike (dial_target c) a b h.net)
      (if_case (Alike a b) (text_eq c.network (bytes "ws"))
        (ws-Alike (dial_target c) (or_text c.transport.path (bytes "/")) c.transport.tls
          (sni_host c) a b h)
        (unsupported-Alike c.network a b))

-- Writes that WriteMessage takes.
abbrev pub write_all : List Text → Sender → Sender
write_all [] s = s
write_all (p ∷ ps) s = write_all ps (write none p s).0

concat_last : (ms : List Text) (p : Text) → concat (ms ++ p ∷ []) ≡ concat ms ++ p
concat_last [] p = append-nil p
concat_last (m ∷ ms) p = ap (λ t. m ++ t) (concat_last ms p) ∙ sym (append_assoc m (concat ms) p)

-- What is to be read of the messages that writes have sent are the bytes of the writes, in order.
pub write_all-pending :
    (ps : List Text) (s : Sender) → concat (write_all ps s).sent ≡ concat s.sent ++ concat ps
unfolding write
write_all-pending [] s = sym (append-nil (concat s.sent))
write_all-pending (p ∷ ps) s =
    write_all-pending ps (write none p s).0
    ∙ ap (λ t. t ++ concat ps) (concat_last s.sent p)
    ∙ append_assoc (concat s.sent) p (concat ps)
