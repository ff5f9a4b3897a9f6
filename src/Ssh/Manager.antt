-- ===== src/Ssh/Manager.antt =====
-- sshclient/manager.go and state.go: the connection and the operations that change it, each run to
-- its end. Race.antt takes them apart.
pub mod Laws
use ssh_worker.Prelude.{
  ℕ, zero, suc, ◌+◌, ◌-◌, ◌*◌, ◌/◌, ◌%◌, ltb, leb, if◌then◌else◌, Bool, true, false, not, ◌&&◌,
  ◌||◌, Option, none, some, List, [], ◌∷◌, ◌++◌, Text, bytes, is_empty,
}
use ssh_worker.Errs.{Error}
use ssh_worker.Health.State.{Floats}
use ssh_worker.Health.Tracker.{
  Effect, on_degrade, on_unhealthy, on_recover, Config as HealthConfig, Tracker, new, set_hooks,
  observe, inc_reconnect,
}

pub data State : Type 0 where
  down connecting up : State

unfoldable pub state_text : State → Text
state_text State.down = bytes "down"
state_text State.connecting = bytes "connecting"
state_text State.up = bytes "up"

abbrev pub is_down : State → Bool
is_down State.down = true
is_down _ = false

abbrev pub is_up : State → Bool
is_up State.up = true
is_up _ = false

-- The configuration of the connection, as far as buildSSHConfig reads it.
pub record SshConfig : Type 0 where
  pub password : Text
  pub private_key : Text
  pub known_hosts : Text

pub data AuthMethod : Type 0 where
  password public_key : AuthMethod

pub data HostKey : Type 0 where
  insecure_ignore : HostKey
  known_hosts : HostKey

pub record ClientConfig : Type 0 where
  pub auth : List AuthMethod
  pub host_key : HostKey

pub data Outcome (A : Type 0) : Type 0 where
  fine : A → Outcome A
  fault : Error → Outcome A

-- What the files gave: the error of reading the private key, of parsing it, and of known_hosts.
pub record Files : Type 0 where
  pub key_read : Option Error
  pub key_parse : Option Error
  pub hosts : Option Error

abbrev pub when : {A : Type 0} → Option Error → Text → Outcome A → Outcome A
when none msg k = k
when (some e) msg k = fault (Error.wrap msg e)

unfoldable pub host_key_callback : SshConfig → Files → Outcome HostKey
host_key_callback cfg f =
    if is_empty cfg.known_hosts
    then fine insecure_ignore
    else when f.hosts (bytes "known_hosts: ") (fine HostKey.known_hosts)

abbrev pub with_host_key : List AuthMethod → Outcome HostKey → Outcome ClientConfig
with_host_key auth (fine hk) = fine (record { auth = auth; host_key = hk })
with_host_key auth (fault e) = fault e

-- The part of buildSSHConfig behind the methods.
unfoldable pub finish_config : List AuthMethod → SshConfig → Files → Outcome ClientConfig
unfolding host_key_callback
finish_config [] cfg f = fault (Error.other (bytes "ssh: tidak ada metode auth"))
finish_config (a ∷ auth) cfg f = with_host_key (a ∷ auth) (host_key_callback cfg f)

unfoldable pub build_ssh_config : SshConfig → Files → Outcome ClientConfig
unfolding finish_config
build_ssh_config cfg f =
    let auth = if is_empty cfg.password then [] else password ∷ [] in
    if is_empty cfg.private_key
    then finish_config auth cfg f
    else when f.key_read (bytes "baca private key: ") (
        when f.key_parse (bytes "parse private key: ")
          (finish_config (auth ++ public_key ∷ []) cfg f))

-- A connection is a number of its own; the raw connection has the same one. `closed` lists those
-- that were closed, the last first.
module _ (fl : Floats) where
  pub record Manager : Type 0 where
    pub cfg : SshConfig
    pub state : State
    pub client : Option ℕ
    pub closed : List ℕ
    pub tracker : Tracker fl

  -- NewManager at the time `now`: not connected, with a tracker that knows the three functions.
  unfoldable pub new_manager : SshConfig → HealthConfig fl → ℕ → Manager
  unfolding new set_hooks
  new_manager cfg health now = record {
    cfg = cfg;
    state = State.down;
    client = none;
    closed = [];
    tracker = set_hooks fl (new fl health now);
  }

  -- What connect meets: the transport, the files and the handshake, each with its error or the new
  -- connection.
  pub record Dialling : Type 0 where
    pub raw : Outcome ℕ
    pub files : Files
    pub handshake : Option Error

  -- connect with the state Connecting: the new state of the manager and the error.
  unfoldable pub handshake_with : Option Error → ℕ → Manager → Manager × Option Error
  handshake_with none c m = (record m { client = some c; state = State.up }, none)
  handshake_with (some e) c m = (
    record m { state = State.down; closed = c ∷ m.closed },
    some (Error.wrap (bytes "handshake: ") e),
  )

  unfoldable pub configure :
      Outcome ClientConfig → Option Error → ℕ → Manager → Manager × Option Error
  unfolding handshake_with
  configure (fine cc_) h c m = handshake_with h c m
  configure (fault e) h c m = (record m { state = State.down; closed = c ∷ m.closed }, some e)

  unfoldable pub connect_raw : Outcome ℕ → Dialling → Manager → Manager × Option Error
  unfolding configure
  connect_raw (fine c) d m = configure (build_ssh_config m.cfg d.files) d.handshake c m
  connect_raw (fault e) d m =
      (record m { state = State.down }, some (Error.wrap (bytes "dial: ") e))

  unfoldable pub connect : Dialling → Manager → Manager × Option Error
  unfolding connect_raw
  connect d m =
      if is_down m.state
      then connect_raw d.raw d (record m { state = State.connecting })
      else (m, none)

  abbrev pub close_all : Option ℕ → List ℕ → List ℕ
  close_all none cs = cs
  close_all (some c) cs = c ∷ cs

  unfoldable pub mark_down : Manager → Manager
  mark_down m =
      if is_up m.state
      then record m { state = State.down; client = none; closed = close_all m.client m.closed }
      else m

  -- The callbacks that NewManager gives the tracker.
  unfoldable pub handle : Effect → Manager → Manager
  unfolding mark_down
  handle on_degrade m = mark_down (record m { tracker = inc_reconnect fl m.tracker })
  handle on_unhealthy m = mark_down (record m { tracker = inc_reconnect fl m.tracker })
  handle on_recover m = m

  unfoldable pub handle_all : List Effect → Manager → Manager
  unfolding handle
  handle_all [] m = m
  handle_all (e ∷ es) m = handle_all es (handle e m)

  -- One call of Observe, and the callbacks that it starts.
  unfoldable pub observe_and_heal : ℕ → Bool → ℕ → Manager → Manager
  observe_and_heal dur failed now m =
      let (t, es) = observe fl dur failed now now m.tracker in
      handle_all es (record m { tracker = t })

  -- What dialling a destination through the client gave, and how long it took.
  pub data Reached : Type 0 where
    opened : ℕ → Reached
    broken : ℕ → Error → Reached

  -- Dial with a client: the destination is asked.
  unfoldable pub dial_through : Reached → ℕ → Manager → Manager × Option Error
  unfolding observe_and_heal mark_down
  dial_through (opened dur) now m = (observe_and_heal dur false now m, none)
  dial_through (broken dur e) now m = (mark_down (observe_and_heal dur true now m), some e)

  unfoldable pub dial_client : Option ℕ → (ℕ → Reached) → ℕ → Manager → Manager × Option Error
  unfolding observe_and_heal dial_through
  dial_client none ask now m = (observe_and_heal 0 true now m, some Error.not_connected)
  dial_client (some c) ask now m =
      if is_up m.state
      then dial_through (ask c) now m
      else (observe_and_heal 0 true now m, some Error.not_connected)

  unfoldable pub dial : (ℕ → Reached) → ℕ → Manager → Manager × Option Error
  unfolding dial_client
  dial ask now m = dial_client m.client ask now m

  -- Close, once the goroutines have ended.
  unfoldable pub close : Manager → Manager
  unfolding mark_down
  close m = mark_down m
