-- ===== src/Reconciler/Routing.antt =====
-- Which upstream a request gets: Caddy takes the first route that matches (the note on
-- endpointRoutes in internal/platform/reconcile.go).
use xdev.Prelude.{
  ℕ, ap, sym, ◌∙◌, ==_refl, map, Bool-cases, ◌≡◌, refl, ◌&&◌, ◌||◌, Bool, true, false, List, [],
  ◌∷◌, ◌++◌, Option, none, some, arith, inl, inr, if◌then◌else◌, is_empty, any, filter, In, Text,
  codes, text_eq, text_eq_sound, text_eq_refl, has_prefix,
}
use xdev.Store.Schema.{Db, App}
use xdev.Store.Endpoints.{endpoint_paths, hook_path, apps_with_endpoints}
use xdev.Store.Routes.{proxy_routes}
use xdev.Reconciler.{Route, Config, endpoint_routes_of, endpoint_routes, app_routes, routes_for}

-- How Caddy compares. It folds the case of hostnames and of the paths of a route, letter by letter,
-- and before that it cleans the path of a request and folds it too: that is `clean`.
pub record Matcher : Type 0 where
  pub letter : ℕ → ℕ
  pub clean : Text → Text

abbrev pub same_host : Matcher → Text → Text → Bool
same_host c pattern host = text_eq (map c.letter pattern) (map c.letter host)

abbrev pub same_path : Matcher → Text → Text → Bool
same_path c path pattern = text_eq (map c.letter pattern) (c.clean path)

-- A route with paths serves those alone; one without serves its whole host.
abbrev pub matches : Matcher → Text → Text → Route → Bool
matches c host path r =
    same_host c r.host host && (is_empty r.paths || any (same_path c path) r.paths)

-- The upstream of the first route that matches.
unfoldable pub served : Matcher → List Route → Text → Text → Option Text
unfolding any
served c [] host path = none
served c (r ∷ routes) host path =
    let rest = served c routes host path in if matches c host path r then some r.upstream else rest

any-In :
    (c : Matcher) (path : Text) (paths : List Text)
    → c.clean path ≡ map c.letter path
    → In path paths
    → any (same_path c path) paths ≡ true
unfolding any
any-In c path [] k m = elim m [ ]
any-In c path (p ∷ ps) k (inl e) = rw (k, ← e, text_eq_refl (map c.letter path)) refl
any-In c path (p ∷ ps) k (inr m) = ground (arith, any-In c path ps k m)

endpoint_routes_of-served :
    (c : Matcher) (self : Text) (apps : List App) (after : List Route) (a : App) (path : Text)
    → c.clean path ≡ map c.letter path
    → In a apps
    → is_empty a.domain ≡ false
    → In path (endpoint_paths a)
    → served c (endpoint_routes_of self apps ++ after) a.domain path ≡ some self
unfolding served endpoint_routes_of
endpoint_routes_of-served c self [] after a path k m h p = elim m [ ]
endpoint_routes_of-served c self (b ∷ apps) after a path k (inl e) h p =
    ground (arith, any-In c path (endpoint_paths a) k p, text_eq_refl (map c.letter a.domain))
endpoint_routes_of-served c self (b ∷ apps) after a path k (inr m) h p =
    ground (arith, endpoint_routes_of-served c self apps after a path k m h p)

filter-In :
    (p : App → Bool) (a : App) (apps : List App) → In a apps → p a ≡ true → In a (filter p apps)
unfolding filter
filter-In p a [] m h = elim m [ ]
filter-In p a (b ∷ apps) (inl e) h = ground arith
filter-In p a (b ∷ apps) (inr m) h = ground (arith, filter-In p a apps m h)

with_endpoints-In :
    (db : Db) (a : App) (path : Text)
    → In a db.apps
    → In path (endpoint_paths a)
    → In a (apps_with_endpoints db)
unfolding apps_with_endpoints endpoint_paths
with_endpoints-In db a path m p = filter-In _ a db.apps m (ground arith)

-- An app's deploy endpoints reach xdev itself: where xdev has an address and the app has a hostname,
-- the first route for each path that the app has switched on leads to that address, before any
-- route of an app. A request for that path has nothing in it to clean.
pub routes_for-endpoint :
    (c : Matcher) (cfg : Config) (db : Db) (a : App) (path : Text)
    → c.clean path ≡ map c.letter path
    → is_empty cfg.self_addr ≡ false
    → In a db.apps
    → is_empty a.domain ≡ false
    → In path (endpoint_paths a)
    → served c (routes_for cfg db) a.domain path ≡ some cfg.self_addr
unfolding routes_for endpoint_routes
routes_for-endpoint c cfg db a path k h m d p = rw h (
    endpoint_routes_of-served c cfg.self_addr (apps_with_endpoints db)
      (app_routes (proxy_routes db)) a path k (with_endpoints-In db a path m p) d p)

abbrev pub control_prefix : Text
control_prefix = codes "/_xdev/"

hook_path-prefix :
    (a : App) → is_empty a.hook_id ≡ false → has_prefix (hook_path a) control_prefix ≡ true
unfolding hook_path has_prefix
hook_path-prefix a h = rw h refl

has_prefix-map :
    (f : ℕ → ℕ) (s p : Text) → has_prefix s p ≡ true → has_prefix (map f s) (map f p) ≡ true
unfolding has_prefix
has_prefix-map f s [] h = refl
has_prefix-map f [] (a ∷ p) h = absurd (ground (arith, h))
has_prefix-map f (b ∷ s) (a ∷ p) h = ground (arith, h, ==_refl (f a), has_prefix-map f s p)

-- No pattern under the prefix matches a path outside it.
pattern-unmatched :
    (c : Matcher) (path p : Text)
    → map c.letter control_prefix ≡ control_prefix
    → has_prefix (c.clean path) control_prefix ≡ false
    → has_prefix p control_prefix ≡ true
    → same_path c path p ≡ false
pattern-unmatched c path p l h u =
    let folded : has_prefix (map c.letter p) control_prefix ≡ true =
      ap (has_prefix (map c.letter p)) (sym l) ∙ has_prefix-map c.letter p control_prefix u in
    elim (Bool-cases (same_path c path p)) [
      | inr e ↦ e
      | inl e ↦ absurd (
          ground (
            arith,
            h,
            folded,
            ap (λ s. has_prefix s control_prefix) (text_eq_sound (map c.letter p) (c.clean path) e),
          ))
    ]

hook-unmatched :
    (c : Matcher) (a : App) (path : Text)
    → map c.letter control_prefix ≡ control_prefix
    → has_prefix (c.clean path) control_prefix ≡ false
    → is_empty a.hook_id ≡ false
    → same_path c path (hook_path a) ≡ false
hook-unmatched c a path l h e = pattern-unmatched c path (hook_path a) l h (hook_path-prefix a e)

-- No endpoint path matches a path outside the prefix.
outside-unmatched :
    (c : Matcher) (a : App) (path : Text)
    → map c.letter control_prefix ≡ control_prefix
    → has_prefix (c.clean path) control_prefix ≡ false
    → any (same_path c path) (endpoint_paths a) ≡ false
unfolding endpoint_paths any has_prefix
outside-unmatched c a path l h = ground (
  arith,
  hook-unmatched c a path l h,
  pattern-unmatched c path xdev.Store.Endpoints.push_path l h refl,
)

endpoint_routes_of-outside :
    (c : Matcher) (self : Text) (apps : List App) (after : List Route) (host path : Text)
    → map c.letter control_prefix ≡ control_prefix
    → has_prefix (c.clean path) control_prefix ≡ false
    → served c (endpoint_routes_of self apps ++ after) host path ≡ served c after host path
unfolding served endpoint_routes_of
endpoint_routes_of-outside c self [] after host path l h = refl
endpoint_routes_of-outside c self (a ∷ apps) after host path l h = ground (
  arith,
  outside-unmatched c a path l h,
  endpoint_routes_of-outside c self apps after host path l h,
)

-- A request whose path, cleaned and folded, is outside /_xdev/ is served as if no app had an
-- endpoint: by the routes of the apps alone. Folding leaves /_xdev/ as it is.
pub routes_for-outside :
    (c : Matcher) (cfg : Config) (db : Db) (host path : Text)
    → map c.letter control_prefix ≡ control_prefix
    → has_prefix (c.clean path) control_prefix ≡ false
    → served c (routes_for cfg db) host path ≡ served c (app_routes (proxy_routes db)) host path
unfolding routes_for endpoint_routes
routes_for-outside c cfg db host path l h = ground (
  arith,
  endpoint_routes_of-outside c cfg.self_addr (apps_with_endpoints db) (app_routes (proxy_routes db))
      host path l h,
)
