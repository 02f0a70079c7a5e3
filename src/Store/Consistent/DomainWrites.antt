-- ===== src/Store/Consistent/DomainWrites.antt =====
-- The writes of domains, deployments and settings keep the database consistent.
use xdev.Prelude.{
  ℕ, suc, ◌≡◌, refl, inl, inr, Bool, true, List, [], ◌∷◌, ◌++◌, map, arith, Bool-cases,
  Option-cases, some, ◌==◌, any, text_eq, Text,
}
use xdev.Store.Ranking.{member}
use xdev.Store.Schema.{Db, App}
use xdev.Store.Consistent.{IsConsistent, app_ids}
use xdev.Store.Consistent.Tables.{DomainsOk-insert, DomainsOk-update, DomainsOk-delete}
use xdev.Store.Domains
use xdev.Store.Domains.{
  ServiceDomain, app_exists, insert_domain, insert_services, insert_hostnames, clear_domains,
}

any-member :
    (app : ℕ) (apps : List App)
    → any (λ a. a.id == app) apps ≡ true
    → member app (map (λ a. a.id) apps) ≡ true
unfolding any member
any-member app [] e = cc
any-member app (a ∷ apps) e = ground (arith, any-member app apps)

pub app_exists-member :
    (app : ℕ) (db : Db) → app_exists app db ≡ true → member app (app_ids db) ≡ true
unfolding app_exists
app_exists-member app db h = any-member app db.apps h

pub insert_domain-IsConsistent :
    (app : ℕ) (host : Text) (local : Bool) (ssl : Text) (port : ℕ) (db db' : Db)
    → insert_domain app host local ssl port db ≡ some db'
    → IsConsistent db
    → IsConsistent db'
unfolding insert_domain
insert_domain-IsConsistent app host local ssl port db db' h c =
    elim (Bool-cases (any (λ d. text_eq d.hostname host) db.domains)) [
      | inl taken ↦ absurd (ground arith)
      | inr free ↦ elim (Bool-cases (app_exists app db)) [
        | inr no_app ↦ absurd (ground arith)
        | inl there ↦
            let new = record db {
              domains =
                  db.domains
                  ++ record {
                    id = suc db.last_domain;
                    app_id = app;
                    hostname = host;
                    is_local = local;
                    ssl_mode = ssl;
                    port = port;
                  }
                    ∷ [];
              last_domain = suc db.last_domain;
            } in
            let e : new ≡ db' = ground arith in
            rw (← e) (record {
              projects = c.projects;
              apps = c.apps;
              domains =
                  DomainsOk-insert (app_ids db) db.domains db.last_domain c.domains _ refl free
                    (app_exists-member app db there);
              deployments = c.deployments;
              settings = c.settings;
            })
      ]
    ]

insert_services-IsConsistent :
    (app : ℕ) (local : Bool) (ssl : Text) (svc : List ServiceDomain) (db db' : Db)
    → insert_services app local ssl svc db ≡ some db'
    → IsConsistent db
    → IsConsistent db'
unfolding insert_services
insert_services-IsConsistent app local ssl [] db db' h c = let e : db ≡ db' = cc in rw (← e) c
insert_services-IsConsistent app local ssl (d ∷ svc) db db' h c =
    elim (Option-cases (insert_domain app d.host local ssl d.port db)) [
      | inl e ↦ absurd (cc (rw (e, insert_services) at h))
      | inr (mid, e) ↦
          insert_services-IsConsistent app local ssl svc mid db' (rw (e, insert_services) at h)
            (insert_domain-IsConsistent app d.host local ssl d.port db mid e c)
    ]

insert_hostnames-IsConsistent :
    (app : ℕ) (local : Bool) (ssl : Text) (hosts : List Text) (db db' : Db)
    → insert_hostnames app local ssl hosts db ≡ some db'
    → IsConsistent db
    → IsConsistent db'
unfolding insert_hostnames
insert_hostnames-IsConsistent app local ssl [] db db' h c = let e : db ≡ db' = cc in rw (← e) c
insert_hostnames-IsConsistent app local ssl ([] ∷ hosts) db db' h c =
    insert_hostnames-IsConsistent app local ssl hosts db db' h c
insert_hostnames-IsConsistent app local ssl ((x ∷ host) ∷ hosts) db db' h c =
    elim (Option-cases (insert_domain app (x ∷ host) local ssl 0 db)) [
      | inl e ↦ absurd (cc (rw (e, insert_hostnames) at h))
      | inr (mid, e) ↦
          insert_hostnames-IsConsistent app local ssl hosts mid db' (rw (e, insert_hostnames) at h)
            (insert_domain-IsConsistent app (x ∷ host) local ssl 0 db mid e c)
    ]

pub clear_domains-IsConsistent :
    (app : ℕ) (db : Db) → IsConsistent db → IsConsistent (clear_domains app db)
unfolding clear_domains
clear_domains-IsConsistent app db c = record {
  projects = c.projects;
  apps = c.apps;
  domains = DomainsOk-delete (app_ids db) db.domains db.last_domain c.domains _ _ (λ d keep m. m);
  deployments = c.deployments;
  settings = c.settings;
}

pub replace_app_domains-IsConsistent :
    (app : ℕ) (hosts : List Text) (svc : List ServiceDomain) (local : Bool) (ssl : Text) (db : Db)
    → IsConsistent db
    → IsConsistent (Domains.replace_app_domains app hosts svc local ssl db).1
unfolding Domains.replace_app_domains
replace_app_domains-IsConsistent app hosts svc local ssl db c =
    elim (Option-cases (insert_hostnames app local ssl hosts (clear_domains app db))) [
      | inl e ↦ rw (e, Domains.replace_app_domains) c
      | inr (mid, e) ↦
          let mid_ok =
            insert_hostnames-IsConsistent app local ssl hosts (clear_domains app db) mid e
              (clear_domains-IsConsistent app db c) in
          elim (Option-cases (insert_services app local ssl svc mid)) [
            | inl e' ↦ rw (e, Domains.replace_app_domains) (rw (e', Domains.replace_app_domains) c)
            | inr (last, e') ↦
                rw (e, Domains.replace_app_domains)
                  (rw (e', Domains.replace_app_domains)
                    (insert_services-IsConsistent app local ssl svc mid last e' mid_ok))
          ]
    ]

pub create_domain-IsConsistent :
    (app : ℕ) (host : Text) (local : Bool) (ssl : Text) (port : ℕ) (db : Db)
    → IsConsistent db
    → IsConsistent (Domains.create_domain app host local ssl port db).1
unfolding Domains.create_domain
create_domain-IsConsistent app host local ssl port db c = elim (Bool-cases (app_exists app db)) [
  | inr e ↦ rw e c
  | inl there ↦ elim (Bool-cases (any (λ d. text_eq d.hostname host) db.domains)) [
    | inl taken ↦
        rw (there, taken)
          (record {
            projects = c.projects;
            apps = c.apps;
            domains =
                DomainsOk-update (app_ids db) db.domains db.last_domain c.domains _ _ (λ d. refl)
                  (λ d. refl) (λ d h. app_exists-member app db there);
            deployments = c.deployments;
            settings = c.settings;
          })
    | inr free ↦ elim (Option-cases (insert_domain app host local ssl port db)) [
      | inl e ↦ rw (there, free, e, Domains.create_domain) c
      | inr (mid, e) ↦
          rw (there, free, e, Domains.create_domain)
            (insert_domain-IsConsistent app host local ssl port db mid e c)
    ]
  ]
]
