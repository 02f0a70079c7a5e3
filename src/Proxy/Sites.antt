-- ===== src/Proxy/Sites.antt =====
-- phpSiteSubroute and staticSiteHandlers of internal/proxy/proxy.go
use xdev.Prelude.{List, [], ◌∷◌, ◌++◌, Text, codes}
use xdev.Prelude.Int.{ℤ, pos}
use xdev.Proxy.Values.{Json, text, number, array, object, items, texts, fields}
use xdev.Proxy.{Net, set, upstreams}

-- {"key": [value]} and its like.
abbrev matching : Text → Json → Json
matching key value = object (fields ((key, value) ∷ []))

abbrev only : Json → Json
only j = array (items (j ∷ []))

-- A route of a subroute, without and with a condition.
abbrev always : Json → Json
always handler = object (fields ((codes "handle", only handler) ∷ []))

abbrev where_matched : Json → Json → Json
where_matched condition handler =
    object (fields ((codes "match", only condition) ∷ (codes "handle", only handler) ∷ []))

abbrev rewrite_to_match : Json
rewrite_to_match =
    set (codes "rewrite") ((codes "uri", text (codes "{http.matchers.file.relative}")) ∷ [])

unfoldable pub php_site_subroute : Net → Text → ℤ → Text → Json
unfolding upstreams
php_site_subroute net root fcgi_port upstream_host = set (codes "subroute") (
    (
      codes "routes",
      array (
          items (
            always (set (codes "vars") ((codes "root", text root) ∷ []))
            ∷ where_matched
                (object (
                  fields (
                    (
                      codes "file",
                      matching (codes "try_files")
                          (array (texts (codes "{http.request.uri.path}/index.php" ∷ []))),
                    )
                    ∷ (
                      codes "not",
                      only (matching (codes "path") (array (texts (codes "*/" ∷ [])))),
                    )
                    ∷ [])))
                (set (codes "static_response") (
                  (codes "status_code", number (pos 308))
                  ∷ (
                    codes "headers",
                    matching (codes "Location")
                        (array (texts (codes "{http.request.orig_uri.path}/" ∷ []))),
                  )
                  ∷ []))
            ∷ where_matched
                (matching (codes "file") (
                  object (
                    fields (
                      (
                        codes "try_files",
                        array (
                            texts (
                              codes "{http.request.uri.path}"
                              ∷ codes "{http.request.uri.path}/index.php"
                              ∷ codes "index.php"
                              ∷ [])),
                      )
                      ∷ (codes "split_path", array (texts (codes ".php" ∷ [])))
                      ∷ []))))
                rewrite_to_match
            ∷ where_matched (matching (codes "path") (array (texts (codes "*.php" ∷ [])))) (
                set (codes "reverse_proxy") (
                  (
                    codes "transport",
                    object (
                        fields (
                          (codes "protocol", text (codes "fastcgi"))
                          ∷ (codes "split_path", array (texts (codes ".php" ∷ [])))
                          ∷ [])),
                  )
                  ∷ upstreams (upstream_host ++ codes ":" ++ net.decimal fcgi_port)
                  ∷ []))
            ∷ always (set (codes "file_server") [])
            ∷ [])),
    )
    ∷ [])

-- What a static site never serves.
abbrev pub hidden_paths : List Text
hidden_paths =
    codes "/.git"
    ∷ codes "/.git/*"
    ∷ codes "/*/.git"
    ∷ codes "/*/.git/*"
    ∷ codes "/.env"
    ∷ codes "/.env.*"
    ∷ codes "/*/.env"
    ∷ codes "/*/.env.*"
    ∷ []

unfoldable pub static_site_handlers : Text → List Json
static_site_handlers root =
    set (codes "vars") ((codes "root", text root) ∷ [])
    ∷ set (codes "subroute") (
        (
          codes "routes",
          only (
              where_matched (matching (codes "path") (array (texts hidden_paths)))
                (set (codes "static_response") ((codes "status_code", number (pos 404)) ∷ []))),
        )
        ∷ [])
    ∷ set (codes "subroute") (
        (
          codes "routes",
          only (
              where_matched
                (matching (codes "file") (
                  matching (codes "try_files") (
                    array (
                      texts (
                        codes "{http.request.uri.path}"
                        ∷ codes "{http.request.uri.path}/"
                        ∷ codes "/index.html"
                        ∷ [])))))
                rewrite_to_match),
        )
        ∷ [])
    ∷ set (codes "file_server") []
    ∷ []
