-- ===== src/Transport.antt =====
-- transport/payload.go and transport.go: the bytes that are sent before the SSH handshake, the
-- answers that are read, and the stages of Dial.
mod Examples
pub mod Laws
pub mod Proxy
use ssh_worker.Prelude.{
  ℕ, zero, suc, ◌+◌, ◌-◌, ◌==◌, if◌then◌else◌, Bool, true, false, not, ◌&&◌, ◌||◌, Option, none,
  some, List, [], ◌∷◌, ◌++◌, map, any, Text, bytes, is_empty, text_eq, starts_with, contains,
  trim_space, length,
}
use ssh_worker.Prelude.Int.{ℤ}
use ssh_worker.Errs.{Error, retry, with_code}
use ssh_worker.Config.{Config, PayloadConfig, itoa, payload_host}

-- What stands first in the text, of the pairs in their order.
unfoldable pub find_pair : List (Text × Text) → Text → Option (Text × Text)
find_pair [] s = none
find_pair ((old, new) ∷ ps) s = if starts_with s old then some (old, new) else find_pair ps s

-- strings.Replacer at a byte: `rest` is the replacement of the text behind, of which it passes over
-- the given number of bytes.
unfoldable pub put_new : Option (Text × Text) → ℕ → (ℕ → Text) → Text
put_new none c rest = c ∷ rest 0
put_new (some (old, new)) c rest = new ++ rest (length old - 1)

unfoldable pub replace : List (Text × Text) → Text → ℕ → Text
unfolding find_pair put_new
replace ps [] skip = []
replace ps (c ∷ cs) (suc skip) = replace ps cs skip
replace ps (c ∷ cs) zero = put_new (find_pair ps (c ∷ cs)) c (replace ps cs)

unfoldable pub tokens : Text → ℤ → List (Text × Text)
tokens host port =
    (bytes "[crlf]", 13 ∷ 10 ∷ [])
    ∷ (bytes "[CRLF]", 13 ∷ 10 ∷ [])
    ∷ (bytes "[lf]", 10 ∷ [])
    ∷ (bytes "[LF]", 10 ∷ [])
    ∷ (bytes "[cr]", 13 ∷ [])
    ∷ (bytes "[CR]", 13 ∷ [])
    ∷ (bytes "[tab]", 9 ∷ [])
    ∷ (bytes "[TAB]", 9 ∷ [])
    ∷ (bytes "[host]", host)
    ∷ (bytes "[Host]", host)
    ∷ (bytes "[HOST]", host)
    ∷ (bytes "[port]", itoa port)
    ∷ (bytes "[PORT]", itoa port)
    ∷ []

unfoldable pub render_payload : Text → Text → ℤ → Text
unfolding replace tokens
render_payload template host port = replace (tokens host port) template 0

abbrev pub onto_head : ℕ → List Text → List Text
onto_head c [] = (c ∷ []) ∷ []
onto_head c (p ∷ ps) = (c ∷ p) ∷ ps

-- strings.Split at a text, at a byte.
unfoldable pub cut : Bool → ℕ → ℕ → (ℕ → List Text) → List Text
cut true c n rest = [] ∷ rest (n - 1)
cut false c n rest = onto_head c (rest 0)

unfoldable pub split_at : Text → Text → ℕ → List Text
unfolding cut
split_at sep [] skip = [] ∷ []
split_at sep (c ∷ cs) (suc skip) = split_at sep cs skip
split_at sep (c ∷ cs) zero = cut (starts_with (c ∷ cs) sep) c (length sep) (split_at sep cs)

abbrev pub concat : List Text → Text
concat [] = []
concat (p ∷ ps) = p ++ concat ps

-- The bytes that arrive before the deadline: their lines, each with its end, and the bytes behind
-- the last of them.
pub record Stream : Type 0 where
  pub lines : List Text
  pub partial : Text

unfoldable pub is_blank : Text → Bool
is_blank line = text_eq line (13 ∷ 10 ∷ []) || text_eq line (10 ∷ [])

-- What drainResponses returns, and what it leaves to be read.
pub record Drained : Type 0 where
  pub statuses : List Text
  pub left : Text

abbrev pub add_status : Text → Drained → Drained
add_status s d = if is_empty s then d else record d { statuses = trim_space s ∷ d.statuses }

-- The end of a head: 101 ends the loop, any other status goes on with it.
unfoldable pub after_head : Bool → Text → Text → (Option Text → Drained) → Drained
after_head true status behind rest = add_status status (record { statuses = []; left = behind })
after_head false status behind rest = add_status status (rest none)

unfoldable pub header_line : Bool → Text → Text → (Option Text → Drained) → Drained
unfolding after_head
header_line true status behind rest = after_head (contains status (bytes "101")) status behind rest
header_line false status behind rest = rest (some status)

-- A line that is read: a status line, or one behind the status line that is given.
unfoldable pub read_line : Option Text → Text → Text → (Option Text → Drained) → Drained
unfolding header_line is_blank
read_line none line behind rest = rest (some line)
read_line (some status) line behind rest = header_line (is_blank line) status behind rest

-- The loop of drainResponses with that of readHTTPHead in it. A read that ends without a line has
-- taken what there is.
unfoldable pub drain : List Text → Text → Option Text → Drained
unfolding read_line
drain [] partial status = record { statuses = []; left = [] }
drain (line ∷ lines) partial status =
    read_line status line (concat lines ++ partial) (drain lines partial)

unfoldable pub drain_responses : Stream → Drained
unfolding drain
drain_responses s = drain s.lines s.partial none

unfoldable pub match_expect : Text → List Text → Bool
match_expect status expect = any (contains status) expect

abbrev pub payload_write : Text
payload_write = bytes "TRN_004"

-- What a payload meets: the errors of the two writes, and the bytes that arrive after the first.
pub record Peer : Type 0 where
  pub head_error : Option Error
  pub arrives : Stream
  pub tail_error : Option Error

-- What applyPayload did: the writes that succeeded, in order, the status lines, the bytes that are
-- left to be read, and its error.
pub record Applied : Type 0 where
  pub written : List Text
  pub statuses : List Text
  pub left : Text
  pub error : Option Error

abbrev pub all_bytes : Stream → Text
all_bytes s = concat s.lines ++ s.partial

unfoldable pub send_tail : Option Error → Text → Text → Drained → Applied
unfolding with_code
send_tail e head [] d = record {
  written = head ∷ [];
  statuses = d.statuses;
  left = d.left;
  error = none;
}
send_tail none head (c ∷ cs) d = record {
  written = head ∷ (c ∷ cs) ∷ [];
  statuses = d.statuses;
  left = d.left;
  error = none;
}
send_tail (some e) head (c ∷ cs) d = record {
  written = head ∷ [];
  statuses = d.statuses;
  left = d.left;
  error = with_code payload_write (some e);
}

unfoldable pub send_head : Option Error → Text → Text → Peer → Applied
unfolding with_code send_tail drain_responses
send_head none head tail p = send_tail p.tail_error head tail (drain_responses p.arrives)
send_head (some e) head tail p = record {
  written = [];
  statuses = [];
  left = all_bytes p.arrives;
  error = with_code payload_write (some e);
}

unfoldable pub send_parts : List Text → Peer → Applied
unfolding send_head
send_parts [] p = record { written = []; statuses = []; left = all_bytes p.arrives; error = none }
send_parts (head ∷ rest) p = send_head p.head_error head (concat rest) p

unfoldable pub apply_payload : PayloadConfig → Text → ℤ → Peer → Applied
unfolding send_parts render_payload split_at
apply_payload cfg host port p =
    if not cfg.enable || is_empty cfg.request
    then record { written = []; statuses = []; left = all_bytes p.arrives; error = none }
    else send_parts
        (map (λ t. render_payload t host port) (split_at (bytes "[split]") cfg.request 0)) p

-- What the stages of Dial meet.
pub record Stages : Type 0 where
  pub network : Option Error
  pub tls : Option Error
  pub peer : Peer

-- What Dial leaves: whether the connection that the dialer gave was closed, the bytes that are left
-- to be read, and the error.
pub record Dialled : Type 0 where
  pub opened : Bool
  pub closed : Bool
  pub left : Text
  pub error : Option Error

abbrev pub refused : Option Error → Dialled
refused e = record { opened = true; closed = true; left = []; error = e }

unfoldable pub after_payload : Applied → Dialled
unfolding retry
after_payload a = elim a.error [
  | none ↦ record { opened = true; closed = false; left = a.left; error = none }
  | some e ↦ refused (retry (some e))
]

unfoldable pub payload_stage : Config → Stages → Dialled
unfolding after_payload apply_payload
payload_stage c s =
    if c.payload.enable
    then after_payload (apply_payload c.payload (payload_host c) c.ssh.port s.peer)
    else record { opened = true; closed = false; left = all_bytes s.peer.arrives; error = none }

unfoldable pub tls_stage : Option Error → Config → Stages → Dialled
unfolding payload_stage retry with_code
tls_stage none c s = payload_stage c s
tls_stage (some e) c s = refused (retry (with_code (bytes "TRN_003") (some e)))

unfoldable pub dial_stage : Option Error → Config → Stages → Dialled
unfolding tls_stage retry with_code
dial_stage none c s = if c.transport.tls then tls_stage s.tls c s else payload_stage c s
dial_stage (some e) c s = record {
  opened = false;
  closed = false;
  left = [];
  error = retry (with_code (bytes "TRN_001") (some e));
}

unfoldable pub dial : Config → Stages → Dialled
unfolding dial_stage
dial c s = dial_stage s.network c s
