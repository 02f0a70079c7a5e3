-- ===== src/Proxy/Build.antt =====
-- buildConfig of internal/proxy/proxy.go
use xdev.Prelude.{◌&&◌, ◌++◌, true, not, List, [], ◌∷◌, map, if◌then◌else◌, is_empty, Text, codes}
use xdev.Prelude.Int.{ℤ, pos, lt_int}
use xdev.Reconciler.{Route}
use xdev.Proxy.Values.{Json, text, number, flag, array, object, items, texts, fields}
use xdev.Proxy.{Net, Manager, host_path, admin_origins, reverse_proxy_handlers}
use xdev.Proxy.Sites.{php_site_subroute, static_site_handlers}

unfoldable pub handle_of : Net → Manager → Route → List Json
unfolding php_site_subroute static_site_handlers reverse_proxy_handlers host_path
handle_of net m r =
    if not (is_empty r.root) && lt_int (pos 0) r.fcgi_port
    then php_site_subroute net r.root r.fcgi_port m.upstream_host ∷ []
    else if not (is_empty r.root)
    then static_site_handlers (host_path m r.root)
    else reverse_proxy_handlers net r.upstream m.upstream_host

unfoldable pub match_of : Route → Json
match_of r = object (
    fields (
      (codes "host", array (texts (r.host ∷ [])))
      ∷ (if is_empty r.paths then [] else (codes "path", array (texts r.paths)) ∷ [])))

unfoldable pub http_route : Net → Manager → Route → Json
unfolding handle_of match_of
http_route net m r = object (
    fields (
      (codes "match", array (items (match_of r ∷ [])))
      ∷ (codes "handle", array (items (handle_of net m r)))
      ∷ (codes "terminal", flag true)
      ∷ []))

-- A route with paths brings no hostname: the app's own route has it.
unfoldable pub internal_hosts : List Route → List Text
internal_hosts [] = []
internal_hosts (r ∷ rs) =
    let rest = internal_hosts rs in if is_empty r.paths && r.internal then r.host ∷ rest else rest

unfoldable pub public_hosts : List Route → List Text
public_hosts [] = []
public_hosts (r ∷ rs) =
    let rest = public_hosts rs in if is_empty r.paths && not r.internal then r.host ∷ rest else rest

unfoldable pub listen_on : Net → ℤ → Text
listen_on net port = codes ":" ++ net.decimal port

unfoldable pub server : Net → Manager → List Route → Json
unfolding http_route listen_on
server net m routes =
    if m.disable_https_redirect
    then object (
        fields (
          (
            codes "listen",
            array (texts (listen_on net m.https_port ∷ listen_on net m.http_port ∷ [])),
          )
          ∷ (codes "routes", array (items (map (http_route net m) routes)))
          ∷ (codes "automatic_https", object (fields ((codes "disable_redirects", flag true) ∷ [])))
          ∷ []))
    else object (
        fields (
          (codes "listen", array (texts (listen_on net m.https_port ∷ [])))
          ∷ (codes "routes", array (items (map (http_route net m) routes)))
          ∷ []))

unfoldable pub http_app : Net → Manager → List Route → Json
unfolding server
http_app net m routes = object (
    fields (
      (codes "http_port", number m.http_port)
      ∷ (codes "https_port", number m.https_port)
      ∷ (codes "servers", object (fields ((codes "xdev", server net m routes) ∷ [])))
      ∷ []))

unfoldable pub policy : List Text → List (Text × Json) → Json
policy subjects issuer = object (
    fields (
      (codes "subjects", array (texts subjects))
      ∷ (codes "issuers", array (items (object (fields issuer) ∷ [])))
      ∷ []))

unfoldable pub internal_issuer : Manager → List (Text × Json)
internal_issuer m =
    (codes "module", text (codes "internal")) ∷ (codes "lifetime", text m.leaf_lifetime) ∷ []

unfoldable pub acme_issuer : Manager → List (Text × Json)
acme_issuer m =
    (codes "module", text (codes "acme"))
    ∷ (if is_empty m.acme_email then [] else (codes "email", text m.acme_email) ∷ [])

unfoldable pub policies : Manager → List Route → List Json
unfolding policy internal_hosts public_hosts internal_issuer acme_issuer
policies m routes =
    (if is_empty (internal_hosts routes)
      then []
      else policy (internal_hosts routes) (internal_issuer m) ∷ [])
    ++ (if is_empty (public_hosts routes)
        then []
        else policy (public_hosts routes) (acme_issuer m) ∷ [])

unfoldable pub tls_app : Manager → List Route → List (Text × Json)
unfolding policies
tls_app m routes =
    if is_empty (policies m routes)
    then []
    else (
      codes "tls",
      object (
          fields (
            (
              codes "automation",
              object (fields ((codes "policies", array (items (policies m routes))) ∷ [])),
            )
            ∷ [])),
    )
      ∷ []

unfoldable pub pki_app : Manager → List Route → List (Text × Json)
unfolding internal_hosts
pki_app m routes =
    if is_empty (internal_hosts routes)
    then []
    else (
      codes "pki",
      object (
          fields (
            (
              codes "certificate_authorities",
              object (
                  fields (
                    (
                      codes "local",
                      object (
                          fields
                            ((codes "intermediate_lifetime", text m.intermediate_lifetime) ∷ [])),
                    )
                    ∷ [])),
            )
            ∷ [])),
    )
      ∷ []

unfoldable pub admin_settings : Net → Manager → List (Text × Json)
unfolding admin_origins
admin_settings net m =
    if is_empty m.admin_listen
    then []
    else (
      codes "admin",
      object (
          fields (
            (codes "listen", text m.admin_listen)
            ∷ (codes "origins", array (texts (admin_origins net m.admin_addr)))
            ∷ [])),
    )
      ∷ []

unfoldable pub build_config : Net → Manager → List Route → Json
unfolding http_app tls_app pki_app admin_settings
build_config net m routes = object (
    fields (
      (
        codes "apps",
        object (
            fields
              ((codes "http", http_app net m routes) ∷ (tls_app m routes ++ pki_app m routes))),
      )
      ∷ admin_settings net m))
