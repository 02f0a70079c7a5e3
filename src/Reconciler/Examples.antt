-- ===== src/Reconciler/Examples.antt =====
-- Runs of internal/platform/reconcile.go.
use xdev.Prelude.{
  ◌≡◌, refl, inl, ◌||◌, true, false, [], ◌∷◌, some, any, In, map, codes, text_eq, has_prefix,
  lower_rune,
}
use xdev.Store.Schema.{Db, App}
use xdev.Store.Routes.{proxy_routes}
use xdev.Store.Endpoints.{endpoint_paths, hook_path}
use xdev.Store.Sample.{sample, app}
use xdev.Reconciler.{Config, State, Answers, sync, routes_for, app_routes, retry_until_live}
use xdev.Reconciler.Live.{lands, retry_until_live-enabled}
use xdev.Reconciler.Routing.{
  Matcher, served, control_prefix, routes_for-endpoint, routes_for-outside,
}

abbrev config : Config
config = record { self_addr = codes "127.0.0.1:8700"; manage_hosts = true }

abbrev down : State
down = record { enabled = false; loaded = []; hosts_file = codes "127.0.0.1 localhost" }

abbrev up : Answers
up = record { reachable = true; push_lands = true; hosts_writable = true }

abbrev absent : Answers
absent = record { reachable = false; push_lands = true; hosts_writable = true }

-- The app with a webhook.
abbrev hooked : App
hooked = record (app 1 1 (codes "api") 1) { domain = codes "api.test"; hook_id = codes "k7" }

abbrev hooked_db : Db
hooked_db = record sample { apps = hooked ∷ [] }

retry_until_live-enabled_example :
    (retry_until_live config ((absent, sample) ∷ (up, hooked_db) ∷ []) down).enabled
    ≡ (down.enabled || any lands ((absent, sample) ∷ (up, hooked_db) ∷ []))
retry_until_live-enabled_example =
    retry_until_live-enabled config ((absent, sample) ∷ (up, hooked_db) ∷ []) down

-- Lower case for ASCII letters, and a path that is clean already.
abbrev caddy : Matcher
caddy = record { letter = lower_rune (λ c. c); clean = map (lower_rune (λ c. c)) }

hook_switched_on : In (hook_path hooked) (endpoint_paths hooked)
unfolding endpoint_paths
hook_switched_on = inl refl

routes_for-endpoint_example :
    served caddy (routes_for config hooked_db) (codes "api.test") (hook_path hooked)
    ≡ some (codes "127.0.0.1:8700")
routes_for-endpoint_example =
    routes_for-endpoint caddy config hooked_db hooked (hook_path hooked) refl refl (inl refl) refl
      hook_switched_on

is_outside : has_prefix (caddy.clean (codes "/Login")) control_prefix ≡ false
unfolding has_prefix lower_rune
is_outside = refl

is_lower : map caddy.letter control_prefix ≡ control_prefix
unfolding lower_rune
is_lower = refl

-- A request for an endpoint in capital letters is under the prefix.
capitals_match :
    served caddy (routes_for config hooked_db) (codes "api.test") (codes "/_XDEV/hook/K7")
    ≡ some (codes "127.0.0.1:8700")
unfolding served routes_for xdev.Reconciler.endpoint_routes xdev.Reconciler.endpoint_routes_of
    xdev.Store.Endpoints.apps_with_endpoints endpoint_paths hook_path lower_rune text_eq any
capitals_match = refl

routes_for-outside_example :
    served caddy (routes_for config hooked_db) (codes "API.test") (codes "/Login")
    ≡ served caddy (app_routes (proxy_routes hooked_db)) (codes "API.test") (codes "/Login")
routes_for-outside_example =
    routes_for-outside caddy config hooked_db (codes "API.test") (codes "/Login") is_lower
      is_outside
