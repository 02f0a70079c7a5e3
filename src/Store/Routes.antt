-- ===== src/Store/Routes.antt =====
-- ProxyRoutes of internal/store/domains.go and UsedPorts of internal/store/apps.go
use xdev.Prelude.{
  ℕ, ◌&&◌, ◌||◌, Bool, true, false, List, [], ◌∷◌, ◌++◌, map, Option, none, some, ltb, ◌==◌,
  if◌then◌else◌, is_empty, Text, codes, text_eq, find, filter, itoa,
}
use xdev.Prelude.Atoi.{atoi}
use xdev.Prelude.Int.{ℤ, pos, negsuc}
use xdev.Prelude.Paths.{join_path}
use xdev.Store.Ranking.{member}
use xdev.Store.Schema.{
  Db, App, DomainRow, ProjectRow, status_running, type_static, type_proxy, serve_static, wp_shared,
}
use xdev.Store.Settings.{get_setting}
use xdev.Store.Table.{order_by}

-- type RouteInfo
pub record RouteInfo : Type 0 where
  pub host : Text
  pub port : ℕ
  pub root : Text
  pub fcgi_port : ℤ
  pub upstream : Text
  pub local : Bool

abbrev pub wp_host_dir_key : Text
wp_host_dir_key = codes "wp_host_dir"

abbrev pub wp_host_fpm_port_key : Text
wp_host_fpm_port_key = codes "wp_host_fpm_port"

pub is_zero : ℤ → Bool
is_zero (pos n) = n == 0
is_zero (negsuc n) = false

-- A row of the join of domains, apps and projects.
pub record Joined : Type 0 where
  pub domain : DomainRow
  pub app : App
  pub project : ProjectRow

pub join_project : DomainRow → App → Option ProjectRow → List Joined
join_project d a none = []
join_project d a (some p) = record { domain = d; app = a; project = p } ∷ []

pub join_app : List ProjectRow → DomainRow → Option App → List Joined
unfolding join_project find
join_app projects d none = []
join_app projects d (some a) = join_project d a (find (λ p. p.id == a.project_id) projects)

pub join_rows : List ProjectRow → List App → List DomainRow → List Joined
unfolding join_app find
join_rows projects apps [] = []
join_rows projects apps (d ∷ ds) =
    join_app projects d (find (λ a. a.id == d.app_id) apps) ++ join_rows projects apps ds

-- The WHERE clause.
unfoldable pub routable : Joined → Bool
routable j =
    ltb 0 j.domain.port
    || ltb 0 j.app.port
    || (text_eq j.app.type type_static && text_eq j.app.serve_mode serve_static)
    || (text_eq j.app.type type_proxy && text_eq j.app.status status_running)
    || (text_eq j.app.wp_mode wp_shared && text_eq j.app.status status_running)

-- BINARY collation: code points order as their UTF-8 bytes.
unfoldable pub text_le : Text → Text → Bool
text_le [] t = true
text_le (a ∷ s) [] = false
text_le (a ∷ s) (b ∷ t) = ltb a b || ((a == b) && text_le s t)

abbrev pub host_before : Joined → Joined → Bool
host_before a b = text_le a.domain.hostname b.domain.hostname

-- The route that the switch sets up, before a case fills in where it goes.
pub bare_route : Joined → RouteInfo
bare_route j = record {
  host = j.domain.hostname;
  port = 0;
  root = [];
  fcgi_port = pos 0;
  upstream = [];
  local = j.domain.is_local;
}

-- The directory of a serve-mode app.
pub static_root : Joined → Text
unfolding join_path
static_root j =
    let base =
      if is_empty j.app.source_dir
      then join_path (j.project.dir ∷ j.app.slug ∷ [])
      else j.app.source_dir in
    join_path (base ∷ j.app.root_dir ∷ [])

-- The switch over one row; `wp_dir` and `wp_port` are the settings of the WordPress host.
unfoldable pub route_of : Text → ℤ → Joined → Option RouteInfo
unfolding bare_route static_root is_zero join_path
route_of wp_dir wp_port j =
    if ltb 0 j.domain.port && text_eq j.app.type (codes "mail")
    then some
        (record (bare_route j) { upstream = codes "https://127.0.0.1:" ++ itoa j.domain.port })
    else if ltb 0 j.domain.port
    then some (record (bare_route j) { port = j.domain.port })
    else if text_eq j.app.type type_proxy
    then some (record (bare_route j) { upstream = j.app.upstream })
    else if text_eq j.app.wp_mode wp_shared
    then (if is_empty wp_dir || is_zero wp_port
        then none
        else some (record (bare_route j) {
          root =
              join_path (wp_dir ∷ codes "sites" ∷ (j.project.slug ++ codes "_" ++ j.app.slug) ∷ []);
          fcgi_port = wp_port;
        }))
    else if text_eq j.app.type type_static && text_eq j.app.serve_mode serve_static
    then some (record (bare_route j) { root = static_root j })
    else some (record (bare_route j) { port = j.app.port })

pub routes_of : Text → ℤ → List Joined → List RouteInfo
unfolding route_of
routes_of wp_dir wp_port [] = []
routes_of wp_dir wp_port (j ∷ js) = elim (route_of wp_dir wp_port j) [
  | none ↦ routes_of wp_dir wp_port js
  | some r ↦ r ∷ routes_of wp_dir wp_port js
]

unfoldable pub proxy_routes : Db → List RouteInfo
unfolding routes_of order_by text_le filter routable join_rows get_setting atoi
proxy_routes db =
    routes_of (get_setting wp_host_dir_key db) (atoi (get_setting wp_host_fpm_port_key db)).0
      (order_by host_before (filter routable (join_rows db.projects db.apps db.domains)))

-- UNION keeps one of equal ports.
pub union : List ℕ → List ℕ → List ℕ
unfolding member
union [] ports = ports
union (p ∷ ps) ports = let rest = union ps ports in if member p rest then rest else p ∷ rest

pub positive_port : ℤ → List ℕ
positive_port (pos n) = if ltb 0 n then n ∷ [] else []
positive_port (negsuc n) = []

-- CAST(value AS INTEGER) is `cast`, which SQLite defines.
unfoldable pub used_ports : (Text → ℤ) → Db → List ℕ
unfolding union positive_port filter find
used_ports cast db =
    let setting : List ℕ = elim (find (λ s. text_eq s.0 wp_host_fpm_port_key) db.settings) [
      | none ↦ []
      | some s ↦ positive_port (cast s.1)
    ] in
    union (filter (ltb 0) (map (λ a. a.port) db.apps))
      (union (filter (ltb 0) (map (λ d. d.port) db.domains)) (union setting []))
