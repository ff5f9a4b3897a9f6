-- ===== src/Clashapi/Handlers/Routes.antt =====
-- clashapi/routes.go: which handler a request reaches, by its method and the segments of its path.
use ssh_worker.Prelude.{
  if◌then◌else◌, not, ◌&&◌, ◌||◌, List, [], ◌∷◌, Text, bytes, text_eq, is_empty,
}

pub data Handler : Type 0 where
  hello version get_configs patch_configs get_proxies connections close_all : Handler
  traffic logs rules blocklist : Handler
  get_proxy put_proxy proxy_delay close_one : Text → Handler
  method_not_allowed : Handler

-- The paths of one segment that a GET names.
unfoldable pub get_one : Text → Handler
get_one s =
    if text_eq s (bytes "version")
    then version
    else if text_eq s (bytes "configs")
    then get_configs
    else if text_eq s (bytes "proxies")
    then get_proxies
    else if text_eq s (bytes "connections")
    then connections
    else if text_eq s (bytes "traffic")
    then traffic
    else if text_eq s (bytes "logs")
    then logs
    else if text_eq s (bytes "rules")
    then rules
    else if text_eq s (bytes "blocklist")
    then blocklist
    else hello

-- A pattern of GET serves HEAD too, and "GET /" every path that no other one takes. A wildcard takes
-- a segment that is not empty.
unfoldable pub route_get : List Text → Handler
unfolding get_one
route_get (s ∷ []) = get_one s
route_get (s ∷ n ∷ []) =
    if text_eq s (bytes "proxies") && not (is_empty n) then get_proxy n else hello
route_get (s ∷ n ∷ d ∷ []) =
    if text_eq s (bytes "proxies") && not (is_empty n) && text_eq d (bytes "delay")
    then proxy_delay n
    else hello
route_get _ = hello

unfoldable pub route_patch : List Text → Handler
route_patch (s ∷ []) = if text_eq s (bytes "configs") then patch_configs else method_not_allowed
route_patch _ = method_not_allowed

unfoldable pub route_put : List Text → Handler
route_put (s ∷ n ∷ []) =
    if text_eq s (bytes "proxies") && not (is_empty n) then put_proxy n else method_not_allowed
route_put _ = method_not_allowed

unfoldable pub route_delete : List Text → Handler
route_delete (s ∷ []) = if text_eq s (bytes "connections") then close_all else method_not_allowed
route_delete (s ∷ n ∷ []) =
    if text_eq s (bytes "connections") && not (is_empty n) then close_one n else method_not_allowed
route_delete _ = method_not_allowed

-- A method without a pattern for the path is refused: "GET /" matches every path.
unfoldable pub dispatch : Text → List Text → Handler
unfolding route_get route_patch route_put route_delete
dispatch method segments =
    if text_eq method (bytes "GET") || text_eq method (bytes "HEAD")
    then route_get segments
    else if text_eq method (bytes "PATCH")
    then route_patch segments
    else if text_eq method (bytes "PUT")
    then route_put segments
    else if text_eq method (bytes "DELETE")
    then route_delete segments
    else method_not_allowed
