-- ===== src/Store/Domains/Accepts.antt =====
-- When ReplaceAppDomains accepts what it is given.
use xdev.Prelude.{
  ℕ, suc, ◌≡◌, refl, inl, inr, Bool, true, false, not, ◌&&◌, ◌||◌, List, [], ◌∷◌, ◌++◌, map, some,
  arith, ◌==◌, is_empty, any, filter, All, In, Text, text_eq,
}
use xdev.Prelude.Result.{ok}
use xdev.Store.Rows.{Unique}
use xdev.Store.Schema.{Db, DomainRow}
use xdev.Store.Domains.{
  ServiceDomain, app_exists, insert_domain, insert_services, insert_hostnames, clear_domains,
  replace_app_domains,
}

-- A row has the hostname.
abbrev taken : Text → Db → Bool
taken h db = any (λ d. text_eq d.hostname h) db.domains

-- The hostnames that are written: those given that are not empty, and those of the services.
abbrev pub written : List Text → List ServiceDomain → List Text
written hosts svc = filter (λ h. not (is_empty h)) hosts ++ map (λ d. d.host) svc

-- Another app has one of the names.
abbrev pub held_elsewhere : ℕ → List Text → Db → Bool
held_elsewhere app names db =
    any (λ d. not (d.app_id == app) && any (text_eq d.hostname) names) db.domains

any-snoc :
    (p : DomainRow → Bool) (rows : List DomainRow) (n : DomainRow)
    → any p (rows ++ n ∷ []) ≡ (any p rows || p n)
unfolding any
any-snoc p [] n = ground arith
any-snoc p (r ∷ rows) n = ground (arith, any-snoc p rows n)

-- What an insert that was possible leaves free.
record Inserted (app : ℕ) (h : Text) (db db' : Db) : Type 0 where
  exists : app_exists app db' ≡ true
  takes : (g : Text) → taken g db' ≡ (taken g db || text_eq h g)

insert_domain-Inserted :
    (app : ℕ) (h : Text) (local : Bool) (ssl : Text) (port : ℕ) (db : Db)
    → app_exists app db ≡ true
    → taken h db ≡ false
    → (db' : Db) × (insert_domain app h local ssl port db ≡ some db') × Inserted app h db db'
unfolding insert_domain app_exists
insert_domain-Inserted app h local ssl port db here free = (
  record db {
    domains =
        db.domains
        ++ record {
          id = suc db.last_domain;
          app_id = app;
          hostname = h;
          is_local = local;
          ssl_mode = ssl;
          port = port;
        }
          ∷ [];
    last_domain = suc db.last_domain;
  },
  rw (free, here) refl,
  record { exists = here; takes = λ g. any-snoc (λ d. text_eq d.hostname g) db.domains _ },
)

still_free :
    (app : ℕ) (h : Text) (db db' : Db) (names : List Text)
    → Inserted app h db db'
    → any (text_eq h) names ≡ false
    → All (λ g. taken g db ≡ false) names
    → All (λ g. taken g db' ≡ false) names
unfolding any
still_free app h db db' [] i ne f = tt
still_free app h db db' (g ∷ names) i ne f =
    (ground (arith, i.takes g), still_free app h db db' names i (ground arith) f.1)

insert_services-accepts :
    (app : ℕ) (local : Bool) (ssl : Text) (svc : List ServiceDomain) (db : Db)
    → app_exists app db ≡ true
    → Unique text_eq (map (λ d. d.host) svc)
    → All (λ g. taken g db ≡ false) (map (λ d. d.host) svc)
    → (db' : Db) × (insert_services app local ssl svc db ≡ some db')
unfolding insert_services
insert_services-accepts app local ssl [] db here u f = (db, refl)
insert_services-accepts app local ssl (d ∷ svc) db here u f =
    let (mid, made, i) = insert_domain-Inserted app d.host local ssl d.port db here f.0 in
    let (last, done) =
      insert_services-accepts app local ssl svc mid i.exists u.1
        (still_free app d.host db mid _ i u.0 f.1) in
    (last, rw (made, insert_services) done)

insert_hostnames-accepts :
    (app : ℕ) (local : Bool) (ssl : Text) (hosts : List Text) (svc : List ServiceDomain) (db : Db)
    → app_exists app db ≡ true
    → Unique text_eq (written hosts svc)
    → All (λ g. taken g db ≡ false) (written hosts svc)
    → (mid last : Db) × (insert_hostnames app local ssl hosts db ≡ some mid)
      × (insert_services app local ssl svc mid ≡ some last)
unfolding insert_hostnames filter
insert_hostnames-accepts app local ssl [] svc db here u f =
    let (last, done) = insert_services-accepts app local ssl svc db here u f in
    (db, last, refl, done)
insert_hostnames-accepts app local ssl ([] ∷ hosts) svc db here u f =
    insert_hostnames-accepts app local ssl hosts svc db here u f
insert_hostnames-accepts app local ssl ((c ∷ h) ∷ hosts) svc db here u f =
    let (next, made, i) = insert_domain-Inserted app (c ∷ h) local ssl 0 db here f.0 in
    let (mid, last, first, second) =
      insert_hostnames-accepts app local ssl hosts svc next i.exists u.1
        (still_free app (c ∷ h) db next _ i u.0 f.1) in
    (mid, last, rw (made, insert_hostnames) first, second)

any-In :
    (x h : Text) (names : List Text)
    → In h names
    → text_eq x h ≡ true
    → any (text_eq x) names ≡ true
unfolding any
any-In x h [] m e = elim m [ ]
any-In x h (g ∷ names) (inl q) e = ground arith
any-In x h (g ∷ names) (inr m) e = ground (arith, any-In x h names m e)

cleared_free :
    (app : ℕ) (names : List Text) (h : Text) (rows : List DomainRow)
    → In h names
    → any (λ d. not (d.app_id == app) && any (text_eq d.hostname) names) rows ≡ false
    → any (λ d. text_eq d.hostname h) (filter (λ d. not (d.app_id == app)) rows) ≡ false
unfolding any filter
cleared_free app names h [] m f = refl
cleared_free app names h (d ∷ rows) m f =
    ground (arith, any-In d.hostname h names m, cleared_free app names h rows m)

All-from : (P : Text → Type 0) (names : List Text) → ((h : Text) → In h names → P h) → All P names
All-from P [] f = tt
All-from P (h ∷ names) f = (f h (inl refl), All-from P names (λ g m. f g (inr m)))

-- ReplaceAppDomains succeeds for an app of the database where the hostnames to write are pairwise
-- different and none of them belongs to another app.
pub replace_app_domains-accepts :
    (app : ℕ) (hosts : List Text) (svc : List ServiceDomain) (local : Bool) (ssl : Text) (db : Db)
    → app_exists app db ≡ true
    → Unique text_eq (written hosts svc)
    → held_elsewhere app (written hosts svc) db ≡ false
    → (replace_app_domains app hosts svc local ssl db).0 ≡ ok tt
unfolding replace_app_domains clear_domains
replace_app_domains-accepts app hosts svc local ssl db here u held =
    let free =
      All-from (λ g. taken g (clear_domains app db) ≡ false) (written hosts svc)
        (λ h m. cleared_free app (written hosts svc) h db.domains m held) in
    let (mid, last, first, second) =
      insert_hostnames-accepts app local ssl hosts svc (clear_domains app db)
        (unfold app_exists in here) u free in
    rw (first, replace_app_domains) (rw (second, replace_app_domains) refl)
