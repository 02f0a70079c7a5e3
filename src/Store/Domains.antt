-- ===== src/Store/Domains.antt =====
-- The hostnames of internal/store/domains.go
pub mod Insert
pub mod Replace
pub mod Accepts
use xdev.Prelude.{
  ℕ, suc, ◌&&◌, Bool, not, List, [], ◌∷◌, ◌++◌, map, Option, none, some, ltb, leb, ◌==◌,
  if◌then◌else◌, Text, text_eq, find, filter, any,
}
use xdev.Prelude.Result.{ok, err}
use xdev.Store.Schema.{Db, Write, constraint, DomainRow}
use xdev.Store.Table.{order_by, update_where}
use xdev.Store.Apps.{update_app_row}

-- type ServiceDomain: a hostname and the port it is routed to.
pub record ServiceDomain : Type 0 where
  pub host : Text
  pub port : ℕ

-- ORDER BY id
unfoldable pub domain_before : DomainRow → DomainRow → Bool
domain_before a b = leb a.id b.id

unfoldable pub service_rows : ℕ → Db → List DomainRow
unfolding order_by domain_before filter
service_rows app db =
    order_by domain_before (filter (λ d. (d.app_id == app) && ltb 0 d.port) db.domains)

-- ORDER BY id LIMIT 1, or "".
unfoldable pub app_service_domain : ℕ → Db → Text
unfolding service_rows
app_service_domain app db = elim (service_rows app db) [ [] ↦ [] | d ∷ rest ↦ d.hostname ]

unfoldable pub app_service_domains : ℕ → Db → List ServiceDomain
unfolding service_rows
app_service_domains app db =
    map (λ d. record { host = d.hostname; port = d.port }) (service_rows app db)

-- The app that owns a hostname, or 0.
unfoldable pub domain_owner : Text → Db → ℕ
unfolding find
domain_owner hostname db = elim (find (λ d. text_eq d.hostname hostname) db.domains) [
  | none ↦ 0
  | some d ↦ d.app_id
]

unfoldable pub set_app_domain : ℕ → ℕ → Text → Write (Unit {0})
unfolding update_app_row
set_app_domain now app hostname =
    update_app_row app λ r. record r { domain = hostname; updated_at = now }

unfoldable pub app_hostnames : ℕ → Db → List Text
unfolding order_by domain_before filter
app_hostnames app db =
    map (λ d. d.hostname)
      (order_by domain_before (filter (λ d. (d.app_id == app) && (d.port == 0)) db.domains))

unfoldable pub app_exists : ℕ → Db → Bool
unfolding any
app_exists app db = any (λ a. a.id == app) db.apps

-- INSERT INTO domains: none where the hostname is taken (UNIQUE) or the app is not there.
unfoldable pub insert_domain : ℕ → Text → Bool → Text → ℕ → Db → Option Db
unfolding app_exists any
insert_domain app hostname is_local ssl_mode port db =
    if any (λ d. text_eq d.hostname hostname) db.domains
    then none
    else if not (app_exists app db)
    then none
    else some (record db {
      domains =
          db.domains
          ++ record {
            id = suc db.last_domain;
            app_id = app;
            hostname = hostname;
            is_local = is_local;
            ssl_mode = ssl_mode;
            port = port;
          }
            ∷ [];
      last_domain = suc db.last_domain;
    })

unfoldable pub insert_services : ℕ → Bool → Text → List ServiceDomain → Db → Option Db
insert_services app is_local ssl_mode [] db = some db
insert_services app is_local ssl_mode (d ∷ svc) db =
    elim (insert_domain app d.host is_local ssl_mode d.port db) [
      | none ↦ none
      | some db' ↦ insert_services app is_local ssl_mode svc db'
    ]

-- The loop over the hostnames skips the empty ones.
unfoldable pub insert_hostnames : ℕ → Bool → Text → List Text → Db → Option Db
insert_hostnames app is_local ssl_mode [] db = some db
insert_hostnames app is_local ssl_mode ([] ∷ hosts) db =
    insert_hostnames app is_local ssl_mode hosts db
insert_hostnames app is_local ssl_mode ((c ∷ h) ∷ hosts) db =
    elim (insert_domain app (c ∷ h) is_local ssl_mode 0 db) [
      | none ↦ none
      | some db' ↦ insert_hostnames app is_local ssl_mode hosts db'
    ]

unfoldable pub clear_domains : ℕ → Db → Db
unfolding filter
clear_domains app db = record db { domains = filter (λ d. not (d.app_id == app)) db.domains }

-- One transaction: a statement that fails rolls back all of it.
unfoldable pub replace_app_domains :
    ℕ → List Text → List ServiceDomain → Bool → Text → Write (Unit {0})
replace_app_domains app hostnames svc is_local ssl_mode db =
    elim (insert_hostnames app is_local ssl_mode hostnames (clear_domains app db)) [
      | none ↦ (err constraint, db)
      | some db' ↦ elim (insert_services app is_local ssl_mode svc db') [
        | none ↦ (err constraint, db)
        | some db'' ↦ (ok tt, db'')
      ]
    ]

-- INSERT … ON CONFLICT(hostname) DO UPDATE; the foreign key refuses an app that is not there.
unfoldable pub create_domain : ℕ → Text → Bool → Text → ℕ → Write (Unit {0})
unfolding update_where any
create_domain app hostname is_local ssl_mode port db =
    if not (app_exists app db)
    then (err constraint, db)
    else if any (λ d. text_eq d.hostname hostname) db.domains
    then (
      ok tt,
      record db {
        domains =
            update_where (λ d. text_eq d.hostname hostname)
              (λ d. record d {
                app_id = app;
                is_local = is_local;
                ssl_mode = ssl_mode;
                port = port;
              })
              db.domains;
      },
    )
    else elim (insert_domain app hostname is_local ssl_mode port db) [
      | none ↦ (err constraint, db)
      | some db' ↦ (ok tt, db')
    ]
