-- ===== src/Reconciler.antt =====
-- internal/platform/reconcile.go: the state in the database pushed to Caddy and the hosts file.
-- What Caddy and the file system answer in one call is a parameter of the call.
pub mod Routing
pub mod Live
mod Examples
use xdev.Prelude.{
  ℕ, ◌&&◌, ◌||◌, Bool, true, false, not, List, [], ◌∷◌, ◌++◌, if◌then◌else◌, is_empty, Text, codes,
  itoa, has_suffix,
}
use xdev.Prelude.Int.{ℤ, pos}
use xdev.Prelude.Result.{Result, ok, err}
use xdev.Store.Schema.{Db, App}
use xdev.Store.Endpoints.{endpoint_paths, apps_with_endpoints}
use xdev.Store.Routes.{RouteInfo, proxy_routes}
use xdev.Hosts.{sync_hosts, missing_from_hosts}

-- type Route of internal/proxy/proxy.go
pub record Route : Type 0 where
  pub host : Text
  pub upstream : Text
  pub root : Text
  pub fcgi_port : ℤ
  pub internal : Bool
  pub paths : List Text

-- The fields that are set once.
pub record Config : Type 0 where
  pub self_addr : Text
  pub manage_hosts : Bool

-- The fields that Sync changes, with the routes of the last push that landed and the text of the
-- hosts file.
pub record State : Type 0 where
  pub enabled : Bool
  pub loaded : List Route
  pub hosts_file : Text

-- What the outside answers in one call: the probe, the push and the write of the hosts file.
pub record Answers : Type 0 where
  pub reachable : Bool
  pub push_lands : Bool
  pub hosts_writable : Bool

pub data SyncError : Type 0 where
  push_failed : SyncError

unfoldable pub endpoint_routes_of : Text → List App → List Route
endpoint_routes_of self [] = []
endpoint_routes_of self (a ∷ apps) =
    let rest = endpoint_routes_of self apps in
    if is_empty (endpoint_paths a) || is_empty a.domain
    then rest
    else record {
      host = a.domain;
      upstream = self;
      root = [];
      fcgi_port = pos 0;
      internal = false;
      paths = endpoint_paths a;
    }
      ∷ rest

unfoldable pub endpoint_routes : Config → Db → List Route
endpoint_routes cfg db =
    if is_empty cfg.self_addr then [] else endpoint_routes_of cfg.self_addr (apps_with_endpoints db)

abbrev pub loopback : Text
loopback = codes "127.0.0.1:"

-- The body of the loop over the routes of the apps.
unfoldable pub app_route : RouteInfo → Route
app_route i =
    let bare : Route = record {
      host = i.host;
      upstream = [];
      root = [];
      fcgi_port = pos 0;
      internal = i.local;
      paths = [];
    } in
    if not (is_empty i.upstream)
    then record bare { upstream = i.upstream }
    else if not (is_empty i.root)
    then record bare { root = i.root; fcgi_port = i.fcgi_port }
    else record bare { upstream = loopback ++ itoa i.port }

unfoldable pub app_routes : List RouteInfo → List Route
unfolding app_route
app_routes [] = []
app_routes (i ∷ infos) = app_route i ∷ app_routes infos

unfoldable pub needs_hosts_entry : RouteInfo → Bool
needs_hosts_entry i = i.local && not (has_suffix i.host (codes ".localhost"))

unfoldable pub local_hosts_of : List RouteInfo → List Text
unfolding needs_hosts_entry
local_hosts_of [] = []
local_hosts_of (i ∷ infos) =
    let rest = local_hosts_of infos in if needs_hosts_entry i then i.host ∷ rest else rest

unfoldable pub local_hosts : Db → List Text
local_hosts db = local_hosts_of (proxy_routes db)

-- The list that Sync hands to proxy.Sync.
unfoldable pub routes_for : Config → Db → List Route
routes_for cfg db = endpoint_routes cfg db ++ app_routes (proxy_routes db)

unfoldable pub sync : Config → Answers → Db → State → Result SyncError (Unit {0}) × State
sync cfg ans db s =
    if not s.enabled && not ans.reachable
    then (ok tt, s)
    else if not ans.push_lands
    then (err push_failed, record s { enabled = false })
    else (
      ok tt,
      record {
        enabled = true;
        loaded = routes_for cfg db;
        hosts_file =
            if cfg.manage_hosts && ans.hosts_writable
            then sync_hosts s.hosts_file (local_hosts db)
            else s.hosts_file;
      },
    )

-- RetryUntilLive over its rounds, each with the answers and the database that it meets; the list
-- ends where the context is done.
unfoldable pub retry_until_live : Config → List (Answers × Db) → State → State
retry_until_live cfg [] s = s
retry_until_live cfg (round ∷ more) s =
    let rest = retry_until_live cfg more (sync cfg round.0 round.1 s).1 in
    if s.enabled then s else rest

unfoldable pub missing_hosts : List Text → State → List Text
missing_hosts candidates s = missing_from_hosts s.hosts_file candidates
