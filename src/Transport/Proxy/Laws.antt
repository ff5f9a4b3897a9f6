-- ===== src/Transport/Proxy/Laws.antt =====
-- transport/proxy.go: when a connection through the proxy is had, and what is left of it else.
use ssh_worker.Prelude.{
  ◌==◌, Bool, true, false, ◌||◌, Option, none, some, Text, bytes, text_eq, is_empty, ◌≡◌, refl,
  arith, inl, inr, Bool-cases,
}
use ssh_worker.Errs.{Error}
use ssh_worker.Config.{ProxyConfig}
use ssh_worker.Transport.Proxy.{
  connect_request, Response, broken, response, Stages, Tunnel, answered, http_connect, after_dial,
  dial_through_proxy,
}

abbrev pub is_http : ProxyConfig → Bool
is_http p = text_eq p.kind (bytes "http") || is_empty p.kind

-- An open connection without a deadline, from which the bytes behind the response are read first,
-- or an error, where what was opened is closed.
abbrev pub Ends : ProxyConfig → Text → Stages → Tunnel → Option Error → Type 0
Ends p target s t none =
    (is_http p ≡ true)
    × (s.dialled ≡ none)
    × (s.written ≡ none)
    × ((status : Text) × (s.answer ≡ response 200 status t.left))
    × (t.sent ≡ some (connect_request target p))
    × (t.opened ≡ true)
    × (t.closed ≡ false)
    × (t.limited ≡ false)
Ends p target s t (some e) = t.closed ≡ t.opened

answered-Ends :
    (p : ProxyConfig) (target : Text) (s : Stages) (a : Response)
    → is_http p ≡ true
    → s.dialled ≡ none
    → s.written ≡ none
    → s.answer ≡ a
    → let t = answered a (connect_request target p) in Ends p target s t t.error
unfolding answered
answered-Ends p target s (broken e) h d w a = refl
answered-Ends p target s (response code status behind) h d w a = elim (Bool-cases (code == 200)) [
  | inl ok_ ↦ rw ok_ (h, d, w, (status, ground (arith, a, ok_)), refl, refl, refl, refl)
  | inr other ↦ rw other refl
]

http_connect-Ends :
    (p : ProxyConfig) (target : Text) (s : Stages) (w : Option Error)
    → is_http p ≡ true
    → s.dialled ≡ none
    → s.written ≡ w
    → let t = http_connect w s.answer (connect_request target p) in Ends p target s t t.error
unfolding http_connect
http_connect-Ends p target s none h d w = answered-Ends p target s s.answer h d w refl
http_connect-Ends p target s (some e) h d w = refl

after_dial-Ends :
    (p : ProxyConfig) (target : Text) (s : Stages) (d : Option Error)
    → s.dialled ≡ d
    → let t = after_dial d target p s in Ends p target s t t.error
unfolding after_dial
after_dial-Ends p target s (some e) d = refl
after_dial-Ends p target s none d = elim (Bool-cases (is_http p)) [
  | inl h ↦ rw h (http_connect-Ends p target s s.written h d refl)
  | inr h ↦ rw h refl
]

-- A call through a proxy without an error had a proxy of type http or of none, a dial, a write and
-- a response of status 200; it sent the request, the connection is open and has no deadline, and
-- the bytes that were read behind the response are not lost. A call with an error has closed the
-- connection that it opened, whichever step failed.
pub dial_through_proxy-Ends :
    (p : ProxyConfig) (target : Text) (s : Stages)
    → let t = dial_through_proxy target p s in Ends p target s t t.error
unfolding dial_through_proxy
dial_through_proxy-Ends p target s = after_dial-Ends p target s s.dialled refl
