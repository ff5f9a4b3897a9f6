-- ===== src/Clashapi/Server.antt =====
-- clashapi/server.go, Start: a request on its way through the two middlewares, the routes and the
-- handler.
pub mod Laws
use ssh_worker.Prelude.{ℕ, Bool, true, false, Option, none, some, List, [], ◌∷◌, Text}
use ssh_worker.Rules.Matcher.{Regexp}
use ssh_worker.Rules.Types.{Networks, Rule}
use ssh_worker.Socks5.Server.{Addresses}
use ssh_worker.Clashapi.Auth.{Request, Answer, no_content, unauthorized, served, handle}
use ssh_worker.Clashapi.Connections.{ConnectionTracker}
use ssh_worker.Clashapi.Traffic.{TrafficTracker}
use ssh_worker.Clashapi.Handlers.{
  Options, Response, Decoded, handle_hello, handle_version, handle_get_configs,
  handle_patch_configs, handle_get_proxies, handle_get_proxy, handle_put_proxy, handle_proxy_delay,
  handle_connections, handle_close_all_connections, handle_close_connection, handle_traffic,
  handle_logs,
}
use ssh_worker.Clashapi.Handlers.Rules.{RuleEntry, handle_get_rules, handle_get_blocklist}
use ssh_worker.Clashapi.Handlers.Routes.{Handler, dispatch}

-- What the handlers read of a request besides its headers of access.
pub record Call : Type 0 where
  pub access : Request
  pub segments : List Text
  pub upgrade : Text
  pub body : Decoded

-- What a client gets: an answer of a handler, a list of rules, a WebSocket, or no answer since the
-- handler panicked; or one of a middleware or of the routes, 204, 401 or 405.
pub data Reply : Type 0 where
  plain : Response → Reply
  listed : List RuleEntry → Reply
  upgraded aborted preflight refused not_allowed : Reply

abbrev pub or_upgrade : Option Response → Reply
or_upgrade none = upgraded
or_upgrade (some r) = plain r

abbrev pub or_abort : Option (List RuleEntry) → Reply
or_abort none = aborted
or_abort (some es) = listed es

abbrev pub pass_on : Answer → Reply → Reply
pass_on no_content r = preflight
pass_on unauthorized r = refused
pass_on served r = r

module _ (re : Regexp) (net : Networks) where
  -- What the server was made with, and the trackers as the handler finds them.
  pub record Backend : Type 0 where
    pub options : Options
    pub secret : Text
    pub addresses : Addresses
    pub connections : ConnectionTracker
    pub traffic : TrafficTracker
    pub rule_engine : Option (List (Rule re net))

  unfoldable pub run_handler : Handler → Backend → Call → Reply
  run_handler Handler.hello b c = plain handle_hello
  run_handler Handler.version b c = plain (handle_version b.options)
  run_handler Handler.get_configs b c = plain (handle_get_configs b.addresses b.options)
  run_handler Handler.patch_configs b c = plain handle_patch_configs
  run_handler Handler.get_proxies b c = plain (handle_get_proxies b.options)
  run_handler (Handler.get_proxy name) b c = plain (handle_get_proxy name b.options)
  run_handler (Handler.put_proxy name) b c = plain (handle_put_proxy name c.body b.options)
  run_handler (Handler.proxy_delay name) b c = plain (handle_proxy_delay name b.options)
  run_handler Handler.connections b c = or_upgrade (handle_connections c.upgrade b.connections)
  run_handler Handler.close_all b c = plain handle_close_all_connections
  run_handler (Handler.close_one id) b c = plain (handle_close_connection id)
  run_handler Handler.traffic b c = or_upgrade (handle_traffic c.upgrade b.traffic)
  run_handler Handler.logs b c = or_upgrade (handle_logs c.upgrade)
  run_handler Handler.rules b c = or_abort (handle_get_rules b.rule_engine)
  run_handler Handler.blocklist b c = or_abort (handle_get_blocklist b.rule_engine)
  run_handler Handler.method_not_allowed b c = not_allowed

  unfoldable pub serve : Backend → Call → Reply
  unfolding run_handler
  serve b c =
      pass_on (handle b.secret c.access) (run_handler (dispatch c.access.method c.segments) b c)
