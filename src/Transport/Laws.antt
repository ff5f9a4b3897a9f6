-- ===== src/Transport/Laws.antt =====
-- transport/payload.go and transport.go: what is sent, what is left to be read, and how Dial ends.
use ssh_worker.Prelude.{
  Bool, true, false, Option, none, some, List, [], ◌∷◌, ◌++◌, map, Text, bytes, is_empty, contains,
  All, Bool-cases, if_case, ◌≡◌, refl, ap, ◌∙◌, arith, inl, inr, append-nil,
}
use ssh_worker.Prelude.Int.{ℤ}
use ssh_worker.Errs.{Error, is_retryable, retry, with_code}
use ssh_worker.Config.{Config, PayloadConfig, payload_host}
use ssh_worker.Transport.{
  render_payload, split_at, concat, Stream, is_blank, Drained, add_status, after_head, header_line,
  read_line, drain, drain_responses, Peer, Applied, send_tail, send_head, send_parts, apply_payload,
  Stages, Dialled, refused, after_payload, payload_stage, tls_stage, dial_stage, dial,
}

-- Nothing is left, whatever the status.
add_status-left : (s : Text) (d : Drained) → (add_status s d).left ≡ d.left
add_status-left s d = elim (Bool-cases (is_empty s)) [ inl h ↦ rw h refl | inr h ↦ rw h refl ]

-- No line that has been read as a status line is one of 101.
abbrev IsPlain : Option Text → Type 0
IsPlain none = Unit
IsPlain (some s) = contains s (bytes "101") ≡ false

after_head_takes :
    (status behind : Text) (rest : Option Text → Drained)
    → contains status (bytes "101") ≡ false
    → (rest none).left ≡ []
    → (after_head (contains status (bytes "101")) status behind rest).left ≡ []
unfolding after_head
after_head_takes status behind rest h k = rw h (add_status-left status (rest none) ∙ k)

header_line_takes :
    (blank : Bool) (status behind : Text) (rest : Option Text → Drained)
    → contains status (bytes "101") ≡ false
    → (rest none).left ≡ []
    → (rest (some status)).left ≡ []
    → (header_line blank status behind rest).left ≡ []
unfolding header_line
header_line_takes true status behind rest h k m = after_head_takes status behind rest h k
header_line_takes false status behind rest h k m = m

read_line_takes :
    (status : Option Text) (line behind : Text) (rest : Option Text → Drained)
    → IsPlain status
    → contains line (bytes "101") ≡ false
    → ((s : Option Text) → IsPlain s → (rest s).left ≡ [])
    → (read_line status line behind rest).left ≡ []
unfolding read_line
read_line_takes none line behind rest h l ih = ih (some line) l
read_line_takes (some status) line behind rest h l ih =
    header_line_takes (is_blank line) status behind rest h (ih none tt) (ih (some status) h)

drain_takes :
    (lines : List Text) (partial : Text) (status : Option Text)
    → IsPlain status
    → All (λ l. contains l (bytes "101") ≡ false) lines
    → (drain lines partial status).left ≡ []
unfolding drain
drain_takes [] partial status h a = refl
drain_takes (line ∷ lines) partial status h a =
    read_line_takes status line (concat lines ++ partial) (drain lines partial) h a.0
      (λ s p. drain_takes lines partial s p a.1)

-- If no line that arrives has the text 101, everything that arrives before the deadline is taken:
-- also what the SSH server sends behind the answers of the proxy, such as its version line, is not
-- left for the handshake.
pub drain_takes_everything :
    (s : Stream)
    → All (λ l. contains l (bytes "101") ≡ false) s.lines
    → (drain_responses s).left ≡ []
unfolding drain_responses
drain_takes_everything s a = drain_takes s.lines s.partial none tt a

drain_headers :
    (headers : List Text) (blank : Text) (behind : List Text) (partial status : Text)
    → All (λ l. is_blank l ≡ false) headers
    → is_blank blank ≡ true
    → contains status (bytes "101") ≡ true
    → drain (headers ++ blank ∷ behind) partial (some status)
      ≡ add_status status (record { statuses = []; left = concat behind ++ partial })
unfolding drain read_line header_line after_head
drain_headers [] blank behind partial status a b h = rw (b, h) refl
drain_headers (l ∷ ls) blank behind partial status a b h =
    rw (a.0) (drain_headers ls blank behind partial status a.1 b h)

-- After an answer whose status line has the text 101, all that arrives behind its blank line is
-- left for the handshake, and the status line is the only one reported.
pub drain_keeps_after_101 :
    (status : Text) (headers : List Text) (blank : Text) (behind : List Text) (partial : Text)
    → contains status (bytes "101") ≡ true
    → All (λ l. is_blank l ≡ false) headers
    → is_blank blank ≡ true
    → drain_responses (record { lines = status ∷ headers ++ blank ∷ behind; partial = partial })
      ≡ add_status status (record { statuses = []; left = concat behind ++ partial })
unfolding drain_responses drain read_line
drain_keeps_after_101 status headers blank behind partial h a b =
    drain_headers headers blank behind partial status a b h

-- How a call of Dial may end: with a connection that is open, or with an error that is retryable,
-- where a connection that was opened has been closed.
pub record IsTidy (r : Dialled) : Type 0 where
  pub success : r.error ≡ none → (r.opened ≡ true) × (r.closed ≡ false)
  pub failure : (e : Error) → r.error ≡ some e → (is_retryable e ≡ true) × (r.closed ≡ r.opened)

retried-IsTidy : (e : Error) → IsTidy (refused (some (Error.retryable e)))
unfolding is_retryable
retried-IsTidy e = ground arith

after_payload-IsTidy : (a : Applied) → IsTidy (after_payload a)
unfolding after_payload is_retryable retry
after_payload-IsTidy a = ground arith

payload_stage-IsTidy : (c : Config) (s : Stages) → IsTidy (payload_stage c s)
unfolding payload_stage
payload_stage-IsTidy c s =
    if_case IsTidy c.payload.enable
      (after_payload-IsTidy (apply_payload c.payload (payload_host c) c.ssh.port s.peer))
      (record { success = λ e. (refl, refl); failure = λ e h. absurd (ground arith) })

tls_stage-IsTidy : (e : Option Error) (c : Config) (s : Stages) → IsTidy (tls_stage e c s)
unfolding tls_stage retry with_code
tls_stage-IsTidy none c s = payload_stage-IsTidy c s
tls_stage-IsTidy (some e) c s = retried-IsTidy (Error.coded (bytes "TRN_003") e)

dial_stage-IsTidy : (e : Option Error) (c : Config) (s : Stages) → IsTidy (dial_stage e c s)
unfolding dial_stage retry with_code is_retryable
dial_stage-IsTidy none c s =
    if_case IsTidy c.transport.tls (tls_stage-IsTidy s.tls c s) (payload_stage-IsTidy c s)
dial_stage-IsTidy (some e) c s = ground arith

-- Whatever its stages meet, Dial returns an open connection and no error, or an error that is
-- retryable; then the connection that the dialer gave, if it gave one, has been closed.
pub dial-IsTidy : (c : Config) (s : Stages) → IsTidy (dial c s)
unfolding dial
dial-IsTidy c s = dial_stage-IsTidy s.network c s

send_tail_all :
    (e : Option Error) (head tail : Text) (d : Drained)
    → e ≡ none
    → concat (send_tail e head tail d).written ≡ head ++ tail
unfolding send_tail
send_tail_all e head [] d h = refl
send_tail_all none head (c ∷ cs) d h = ap (λ t. head ++ t) (append-nil (c ∷ cs))
send_tail_all (some e) head (c ∷ cs) d h = absurd (ground arith)

send_head_all :
    (e : Option Error) (head tail : Text) (p : Peer)
    → e ≡ none
    → p.tail_error ≡ none
    → concat (send_head e head tail p).written ≡ head ++ tail
unfolding send_head
send_head_all none head tail p h k =
    send_tail_all p.tail_error head tail (drain_responses p.arrives) k
send_head_all (some e) head tail p h k = absurd (ground arith)

send_parts_all :
    (parts : List Text) (p : Peer)
    → p.head_error ≡ none
    → p.tail_error ≡ none
    → concat (send_parts parts p).written ≡ concat parts
unfolding send_parts
send_parts_all [] p h k = refl
send_parts_all (head ∷ rest) p h k = send_head_all p.head_error head (concat rest) p h k

-- Where the payload is enabled, is not empty and no write fails, what is sent is the payload without
-- its marks [split], each part rendered, in order and whatever is answered in between.
pub apply_payload_sends :
    (cfg : PayloadConfig) (host : Text) (port : ℤ) (p : Peer)
    → cfg.enable ≡ true
    → is_empty cfg.request ≡ false
    → p.head_error ≡ none
    → p.tail_error ≡ none
    → concat (apply_payload cfg host port p).written
      ≡ concat (map (λ t. render_payload t host port) (split_at (bytes "[split]") cfg.request 0))
unfolding apply_payload
apply_payload_sends cfg host port p e r h k =
    rw (e, r)
      (send_parts_all
        (map (λ t. render_payload t host port) (split_at (bytes "[split]") cfg.request 0)) p h k)
