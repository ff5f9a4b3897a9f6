-- ===== src/Clashapi/Connections.antt =====
-- clashapi/connections.go and its part of models.go: the connections that the dashboard shows. An
-- int64 is its bit pattern.
pub mod Laws
pub mod Watch
use ssh_worker.Prelude.{
  ℕ, zero, suc, ◌+◌, ◌/◌, ◌%◌, ◌-◌, ltb, ◌==◌, if◌then◌else◌, Bool, true, false, Option, none, some,
  List, [], ◌∷◌, map, Text, bytes,
}
use ssh_worker.Prelude.Maps.{lookup, delete, put, modify}

pub record Metadata : Type 0 where
  pub network : Text
  pub kind : Text
  pub source_ip : Text
  pub destination_ip : Text
  pub source_port : Text
  pub destination_port : Text
  pub host : Text

pub record Connection : Type 0 where
  pub id : Text
  pub metadata : Metadata
  pub upload : ℕ
  pub download : ℕ
  pub start : Text
  pub chains : List Text
  pub rule : Text
  pub rule_payload : Text

-- A channel of room 1 that a subscriber reads: its number, and whether a signal is in it.
pub record Channel : Type 0 where
  pub number : ℕ
  pub pending : Bool

pub record ConnectionTracker : Type 0 where
  pub conns : List (Text × Connection)
  pub up_total : ℕ
  pub down_total : ℕ
  pub subs : List Channel

abbrev pub new_connection_tracker : ConnectionTracker
new_connection_tracker = record { conns = []; up_total = 0; down_total = 0; subs = [] }

abbrev pub int64_add : ℕ → ℕ → ℕ
int64_add a b = (a + b) % 18446744073709551616

abbrev pub signal : Channel → Channel
signal ch = record ch { pending = true }

unfoldable pub notify : ConnectionTracker → ConnectionTracker
notify t = record t { subs = map signal t.subs }

abbrev pub hex_digit : ℕ → ℕ
hex_digit n = if ltb n 10 then b'0' + n else b'a' + n - 10

-- hex.EncodeToString.
unfoldable pub encode_hex : List ℕ → Text
encode_hex [] = []
encode_hex (b ∷ bs) = hex_digit (b / 16) ∷ hex_digit (b % 16) ∷ encode_hex bs

-- The random bytes are given.
unfoldable pub new_id : List ℕ → Text
unfolding encode_hex
new_id random = encode_hex random

-- The part of Open that holds the lock; `now` is the time that is written.
unfoldable pub insert : Text → Metadata → List Text → Text → ConnectionTracker → ConnectionTracker
insert id meta chains now t = record t {
  conns =
      put id
        (record {
          id = id;
          metadata = meta;
          upload = 0;
          download = 0;
          start = now;
          chains = chains;
          rule = [];
          rule_payload = [];
        })
        t.conns;
}

unfoldable pub open_connection :
    List ℕ → Metadata → List Text → Text → ConnectionTracker → ConnectionTracker × Text
unfolding insert notify new_id
open_connection random meta chains now t =
    let id = new_id random in (notify (insert id meta chains now t), id)

abbrev pub count_bytes : ℕ → ℕ → Connection → Connection
count_bytes up down c = record c {
  upload = int64_add c.upload up;
  download = int64_add c.download down;
}

unfoldable pub add_bytes : Text → ℕ → ℕ → ConnectionTracker → ConnectionTracker
add_bytes id up down t = elim (lookup id t.conns) [
  | none ↦ t
  | some c ↦ record t {
    conns = modify id (count_bytes up down) t.conns;
    up_total = int64_add t.up_total up;
    down_total = int64_add t.down_total down;
  }
]

-- The part of Close that holds the lock.
unfoldable pub remove : Text → ConnectionTracker → ConnectionTracker
remove id t = record t { conns = delete id t.conns }

unfoldable pub close_connection : Text → ConnectionTracker → ConnectionTracker
unfolding remove notify
close_connection id t = notify (remove id t)

pub record ConnectionsResponse : Type 0 where
  pub upload_total : ℕ
  pub download_total : ℕ
  pub connections : List Connection

-- The order of the connections is that of the entries, which Go does not fix.
unfoldable pub snapshot : ConnectionTracker → ConnectionsResponse
snapshot t = record {
  upload_total = t.up_total;
  download_total = t.down_total;
  connections = map (λ (p : Text × Connection). p.1) t.conns;
}

unfoldable pub subscribe : ℕ → ConnectionTracker → ConnectionTracker
subscribe number t = record t { subs = record { number = number; pending = false } ∷ t.subs }

abbrev pub without : ℕ → List Channel → List Channel
without n [] = []
without n (ch ∷ cs) = let rest = without n cs in if ch.number == n then rest else ch ∷ rest

-- The function that Subscribe returns.
unfoldable pub unsubscribe : ℕ → ConnectionTracker → ConnectionTracker
unsubscribe number t = record t { subs = without number t.subs }
