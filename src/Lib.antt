-- ===== src/Lib.antt =====
-- ssh-worker: a SOCKS5 proxy whose connections go through an SSH tunnel.
--
-- The program (main.go) reads a JSON configuration and, if it is given one, the YAML of Clash
-- (internal/clashconfig), and starts one worker for each listening address, and the HTTP API of a
-- dashboard (clashapi). A worker opens its transport
-- through the dial limiter (qload), keeps one SSH connection on it (sshclient), watches its health
-- (health), and serves SOCKS5 clients (socks5). The server asks the rule engine (internal/rules)
-- whether a destination is blocked, dialled directly or dialled through SSH. The engine is built
-- from the rules section of a Clash configuration and from the categories of geosite.dat
-- (internal/geodata). Failed dials and slow answers reach the tracker, whose callbacks take the SSH
-- connection down; the supervisor of the connection opens it again.
--
-- Files:
--   Prelude, Prelude/*    shared names: texts as lists of bytes, lists and tests over native
--                         numbers, signed integers of the configuration, search in lists
--   Errs                  internal/errs/errs.go: Retryable, Coded, IsRetryable, CodeOf
--   Qload                 qload/qload.go: New, Dial, allow, onSuccess, onFailure, adaptTimeout,
--                         nextBackoff, sleepJitter. Qload/Bounds has the ranges, Qload/Attempts the
--                         loop of Dial, Qload/Breaker calls in a row, Qload/Concurrent calls that
--                         overlap, as steps
--   Geodata               internal/geodata/loader.go: Domain, DomainType
--   Geodata/Loader        internal/geodata/loader.go: New, Categories, Stats
--   Geodata/Decode        internal/geodata/decode.go; Decode/Encode is a writer of the format, which
--                         the program has not, for the round trip
--   Rules/Number          atoi and itoa of internal/rules, atoiOrZero of socks5
--   Rules/Matcher         internal/rules/matcher.go: DomainMatcher and Contains
--   Rules/Types           internal/rules/types.go: the kinds of rule and Match
--   Rules/Geosite         internal/rules/geosite.go: GeoSiteStore and its cache
--   Rules/Parser          internal/rules/parser.go: Parse
--   Rules/Engine          internal/rules/engine.go: Match, IsBlocked, NormalizeHost
--   Rules/Builder         internal/rules/builder.go: Build; Builder/Files has it behind the loader
--   Health/State          health/state.go, and the interface of float64
--   Health/Percentile     percentile of health/tracker.go
--   Health/Tracker        health/tracker.go: Observe, evaluate, transition, Snapshot.
--                         Tracker/Machine has the states and holds, Tracker/Window what holds
--                         of every tracker, Tracker/Ring the samples
--   Health/Probe          health/probe.go (once) and health/http.go (the two handlers)
--   Socks5/Server         socks5/server.go: route, the accept loop, with Server/Routing and
--                         Server/Limit; Server/Serve has the end of Serve and drain
--   Socks5/Idle           socks5/idleconn.go and the deadline of handleConn
--   Ssh/Manager           sshclient/manager.go: connect, buildSSHConfig, Dial, markDown, Close
--   Ssh/Supervisor        sshclient/manager.go: supervise, keepaliveOnce, sleepJitter
--   Ssh/Probing           sshclient/manager.go and health/probe.go: the probes through Dial
--   Ssh/Race              sshclient/manager.go: connect and markDown as interleaved steps
--   Config                config/config.go: the helpers, ApplyDefaults, ValidateAll
--   Transport             transport/payload.go: RenderPayload, applyPayload, drainResponses with
--                         readHTTPHead, matchExpect; transport/transport.go: Dial;
--                         Transport/Proxy has proxy.go
--   Network               network/network.go: NewDialer; network/wsconn.go: Read. Network/Dialing
--                         has the two dialers, and Write, Close and SetDeadline
--   Clashconfig           internal/clashconfig: the records, applyDefaults, Validate;
--                         Clashconfig/Paths has IsAbs, Clean, Dir and Join of path/filepath
--   Clashapi/Auth         clashapi/auth.go: the two middlewares as Start composes them
--   Clashapi/Connections  clashapi/connections.go; Connections/Watch has serveConnectionsWS beside
--                         the calls of the tracker, as steps
--   Clashapi/Traffic      clashapi/traffic.go, and the dashboards that read it, as steps
--   Clashapi/Logs         clashapi/logs.go, and serveLogsWS, as events
--   Clashapi/Proxies      clashapi/proxies_yaml.go, and the map of handleGetProxies
--   Clashapi/Handlers     clashapi/handlers.go and server.go; Handlers/Rules has rules.go and
--                         Handlers/Routes routes.go
--   Clashapi/Server       clashapi/server.go: the middlewares, the routes and the handlers together
--   Logger                internal/logger/logger.go and internal/safe/safe.go
--   Worker/Pipeline       main.go: the dial function of a worker, the limiter around the transport
--   Worker/Startup        main.go: runWorker; sshclient/manager.go: Start. Startup/Limiter has the
--                         breaker over several starts, Startup/Liveness the starts of a worker
--   Worker/Program        config/config.go: Load; main.go: main, up to the options of the API;
--                         Program/Shown has the references of the workers, Program/Serving
--                         a worker from the two files to its server
--   Samples, */Examples   plain instances of the parameters (Samples/Varint has that of protowire),
--                         and each law at a concrete input
--
-- Correspondence: a struct is a record, a method is a function from the state to the new state and
-- its results, an error is an Option or a data type, a callback that is started is an element of a
-- list of effects. Clock readings, random numbers and answers from outside are arguments. Times are
-- nanoseconds in ℕ; a signed field of a configuration is a ℤ until its default is applied. Counters
-- of 32 bits, the numbers of atoi and the byte counts of the API keep their wrap-around. A map of Go
-- with texts as keys is the list of its entries (Prelude/Maps), whose order means nothing.
--
-- Bounds and fuel: Dial recurses on the attempts that are left, which MaxRetries bounds; itoa
-- recurses on the room in its buffer of twelve bytes and is `none` where the code panics; the digits
-- of a port have room for twenty, enough for 64 bits; the loops of the decoder get the length of their
-- bytes as fuel, one for each round; the loop of supervise, the ticks of the probe and the calls of a
-- tracker are lists of any length, and so are the times between the ends of handlers in drain.
--
-- Parameters: protowire (Wire), regexp (Regexp), the parts of net that rules and routing use
-- (Networks, Addresses), float64 (Floats; only the order of its comparison is assumed, as IsOrder;
-- 0.95 times the number of samples is rounded up exactly), the dial functions, the SSH handshake and
-- the files that hold keys.
--
-- Not modelled: which log lines are written; JSON, YAML and the HTTP and WebSocket connections
-- themselves; the flags and signals of main.go. Letters beyond ASCII keep their case in the model.
pub mod Prelude
pub mod Errs
pub mod Logger
pub mod Qload
pub mod Geodata
pub mod Rules
pub mod Health
pub mod Socks5
pub mod Ssh
pub mod Config
pub mod Transport
pub mod Network
pub mod Clashconfig
pub mod Clashapi
pub mod Worker
pub mod Samples
