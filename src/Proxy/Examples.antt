-- ===== src/Proxy/Examples.antt =====
-- Runs of internal/proxy/proxy.go on three routes.
use xdev.Prelude.{
  ◌≡◌, refl, ◌&&◌, Bool, true, false, not, lower_rune, List, [], ◌∷◌, ◌++◌, map, Option, none, some,
  any, is_empty, Text, codes, text_eq, itoa, if◌then◌else◌,
}
use xdev.Prelude.Int.{pos, pos_part}
use xdev.Reconciler.{Route}
use xdev.Proxy.{Net, Manager, new_manager, swap_loopback_host}
use xdev.Proxy.Build.{build_config}
use xdev.Reconciler.Routing.{Matcher, matches}
use xdev.Proxy.Certified.{certifies, build_config-certifies}
use xdev.Proxy.Served.{at, route_takers, build_config-routes}

abbrev route : Text → Bool → List Text → Route
route host internal paths = record {
  host = host;
  upstream = codes "127.0.0.1:20000";
  root = [];
  fcgi_port = pos 0;
  internal = internal;
  paths = paths;
}

abbrev routes : List Route
routes =
    route (codes "a.test") true (codes "/_xdev/push" ∷ [])
    ∷ route (codes "a.test") true []
    ∷ route (codes "b.io") false []
    ∷ []

-- Addresses of the form host:port, by their first colon.
abbrev net : Net
net = record {
  parse_url = λ u. none;
  split_host_port = λ a. xdev.Prelude.cut b':' a;
  join_host_port = λ h p. h ++ codes ":" ++ p;
  parse_ip = λ h. if text_eq h (codes "127.0.0.1") then some true else none;
  decimal = λ n. itoa (pos_part n);
}

abbrev manager : Manager
manager =
    new_manager
      (record {
        upstream_host_var = codes "host.internal";
        admin_listen_var = [];
        disable_redirect_var = [];
        root_prefix_var = [];
      })
      (codes "127.0.0.1:2019") (pos 443) (pos 80) [] []

-- Lower case for ASCII letters, and a path that is clean already.
abbrev caddy : Matcher
caddy = record { letter = lower_rune (λ c. c); clean = map (lower_rune (λ c. c)) }

build_config-routes_example :
    route_takers caddy (codes "A.test") (codes "/_XDEV/push") (
      at
        (codes "apps" ∷ codes "http" ∷ codes "servers" ∷ codes "xdev" ∷ codes "routes" ∷ [])
        (some (build_config net manager routes)))
    ≡ map (λ r. matches caddy (codes "A.test") (codes "/_XDEV/push") r) routes
build_config-routes_example =
    build_config-routes caddy (codes "A.test") (codes "/_XDEV/push") net manager routes

-- The endpoint's route and the app's own take the request, the third does not.
two_take_it :
    map (λ r. matches caddy (codes "A.test") (codes "/_XDEV/push") r) routes
    ≡ true ∷ true ∷ false ∷ []
unfolding text_eq lower_rune any
two_take_it = refl

build_config-certifies_example :
    (certifies (codes "internal") (codes "b.io") (
        at
          (codes "apps" ∷ codes "tls" ∷ codes "automation" ∷ codes "policies" ∷ [])
          (some (build_config net manager routes)))
      ≡ any (λ r. is_empty r.paths && (r.internal && text_eq r.host (codes "b.io"))) routes)
    × (certifies (codes "acme") (codes "b.io") (
          at
            (codes "apps" ∷ codes "tls" ∷ codes "automation" ∷ codes "policies" ∷ [])
            (some (build_config net manager routes)))
        ≡ any (λ r. is_empty r.paths && (not r.internal && text_eq r.host (codes "b.io"))) routes)
build_config-certifies_example = build_config-certifies net manager routes (codes "b.io")

loopback_swapped :
    swap_loopback_host net (codes "127.0.0.1:20000") (codes "host.internal")
    ≡ codes "host.internal:20000"
unfolding swap_loopback_host xdev.Prelude.cut text_eq
loopback_swapped = refl

other_host_kept :
    swap_loopback_host net (codes "10.0.0.7:80") (codes "host.internal") ≡ codes "10.0.0.7:80"
unfolding swap_loopback_host xdev.Prelude.cut text_eq
other_host_kept = refl
