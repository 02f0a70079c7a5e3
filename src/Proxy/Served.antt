-- ===== src/Proxy/Served.antt =====
-- What Caddy is told to serve.
use xdev.Prelude.{
  ◌≡◌, refl, ◌&&◌, ◌||◌, Bool, true, false, List, [], ◌∷◌, map, Option, none, some, arith, any,
  Text, codes, text_eq,
}
use xdev.Reconciler.{Route}
use xdev.Reconciler.Routing.{Matcher, same_host, same_path, matches}
use xdev.Proxy.Values.{
  Json, text, number, flag, array, object, Items, end, item, items, texts, lookup, get_field,
}
use xdev.Proxy.{Net, Manager}
use xdev.Proxy.Build.{match_of, http_route, server, http_app, build_config}

-- The value at a path of field names.
abbrev pub at : List Text → Option Json → Option Json
at [] j = j
at (k ∷ ks) j = at ks (lookup k j)

-- Whether one of the alternatives of a match takes a request: it has the hostname, and the path if it
-- lists paths.
abbrev has_path : Matcher → Text → Items → Bool
has_path c path end = false
has_path c path (item (text t) js) = same_path c path t || has_path c path js
has_path c path (item (number n) js) = has_path c path js
has_path c path (item (flag b) js) = has_path c path js
has_path c path (item (array is) js) = has_path c path js
has_path c path (item (object fs) js) = has_path c path js

abbrev has_host : Matcher → Text → Items → Bool
has_host c host end = false
has_host c host (item (text t) js) = same_host c t host || has_host c host js
has_host c host (item (number n) js) = has_host c host js
has_host c host (item (flag b) js) = has_host c host js
has_host c host (item (array is) js) = has_host c host js
has_host c host (item (object fs) js) = has_host c host js

abbrev host_listed : Matcher → Text → Option Json → Bool
host_listed c host none = true
host_listed c host (some (text t)) = false
host_listed c host (some (number n)) = false
host_listed c host (some (flag b)) = false
host_listed c host (some (array js)) = has_host c host js
host_listed c host (some (object fs)) = false

abbrev path_listed : Matcher → Text → Option Json → Bool
path_listed c path none = true
path_listed c path (some (text t)) = false
path_listed c path (some (number n)) = false
path_listed c path (some (flag b)) = false
path_listed c path (some (array js)) = has_path c path js
path_listed c path (some (object fs)) = false

abbrev alternatives : Matcher → Text → Text → Items → Bool
alternatives c host path end = false
alternatives c host path (item j js) =
    (host_listed c host (lookup (codes "host") (some j))
      && path_listed c path (lookup (codes "path") (some j)))
    || alternatives c host path js

abbrev takes : Matcher → Text → Text → Option Json → Bool
takes c host path none = true
takes c host path (some (text t)) = false
takes c host path (some (number n)) = false
takes c host path (some (flag b)) = false
takes c host path (some (array js)) = alternatives c host path js
takes c host path (some (object fs)) = false

-- Which routes of a list take a request, from its first on.
abbrev takers : Matcher → Text → Text → Items → List Bool
takers c host path end = []
takers c host path (item j js) =
    takes c host path (lookup (codes "match") (some j)) ∷ takers c host path js

abbrev pub route_takers : Matcher → Text → Text → Option Json → List Bool
route_takers c host path none = []
route_takers c host path (some (text t)) = []
route_takers c host path (some (number n)) = []
route_takers c host path (some (flag b)) = []
route_takers c host path (some (array js)) = takers c host path js
route_takers c host path (some (object fs)) = []

has_path-texts :
    (c : Matcher) (path : Text) (ps : List Text)
    → has_path c path (texts ps) ≡ any (same_path c path) ps
unfolding any
has_path-texts c path [] = refl
has_path-texts c path (p ∷ ps) = ground (arith, has_path-texts c path ps)

http_route-takes :
    (c : Matcher) (host path : Text) (net : Net) (m : Manager) (r : Route)
    → takes c host path (lookup (codes "match") (some (http_route net m r))) ≡ matches c host path r
unfolding http_route match_of lookup get_field text_eq
http_route-takes c host path net m r = ground (arith, has_path-texts c path r.paths)

takers-routes :
    (c : Matcher) (host path : Text) (net : Net) (m : Manager) (routes : List Route)
    → takers c host path (items (map (http_route net m) routes))
      ≡ map (λ r. matches c host path r) routes
takers-routes c host path net m [] = refl
takers-routes c host path net m (r ∷ routes) =
    ground (arith, http_route-takes c host path net m r, takers-routes c host path net m routes)

-- Whatever the ports, the redirects and the other settings are, the configuration has one HTTP route
-- for each route that it was built from, in the same order, and for every request it takes the
-- request exactly if that route matches it, by hostname and by path.
pub build_config-routes :
    (c : Matcher) (host path : Text) (net : Net) (m : Manager) (routes : List Route)
    → route_takers c host path (
        at
          (codes "apps" ∷ codes "http" ∷ codes "servers" ∷ codes "xdev" ∷ codes "routes" ∷ [])
          (some (build_config net m routes)))
      ≡ map (λ r. matches c host path r) routes
unfolding build_config http_app lookup get_field text_eq server
build_config-routes c host path net m routes =
    ground (arith, takers-routes c host path net m routes)
