-- ===== src/Store/Domains/Insert.antt =====
-- What each INSERT of ReplaceAppDomains adds to the lists that AppHostnames and AppServiceDomains read.
use xdev.Prelude.{
  ℕ, suc, ◌≤◌, ◌<◌, ◌≡◌, refl, sym, ap, ◌∙◌, inl, inr, Bool, true, false, not, ◌&&◌, List, [], ◌∷◌,
  ◌++◌, map, map-append, append_assoc, append-nil, some, arith, Bool-cases, Option-cases, ltb, ◌==◌,
  if◌then◌else◌, is_empty, Text, text_eq, filter, any, All,
}
use xdev.Store.Rows.{All-map, All-filter}
use xdev.Store.Schema.{Db, DomainRow}
use xdev.Store.Consistent.{IsConsistent}
use xdev.Store.Consistent.DomainWrites.{insert_domain-IsConsistent}
use xdev.Store.Domains.{
  ServiceDomain, domain_before, service_rows, app_service_domains, app_hostnames, app_exists,
  insert_domain, insert_services, insert_hostnames,
}
use xdev.Store.Table.{order_by, order_by-last}

filter-snoc :
    {A : Type 0} (p : A → Bool) (xs : List A) (n : A)
    → filter p (xs ++ n ∷ []) ≡ filter p xs ++ (if p n then n ∷ [] else [])
unfolding filter
filter-snoc p [] n = ground arith
filter-snoc p (x ∷ xs) n = elim (Bool-cases (p x)) [
  | inl e ↦ rw (e, filter-snoc p xs n)
  | inr e ↦ rw (e, filter-snoc p xs n)
]

-- A row with the next id comes last in every SELECT … ORDER BY id.
select-snoc :
    (p : DomainRow → Bool) (rows : List DomainRow) (last : ℕ) (n : DomainRow)
    → All (λ d. d.id ≤ last) rows
    → n.id ≡ suc last
    → order_by domain_before (filter p (rows ++ n ∷ []))
      ≡ order_by domain_before (filter p rows) ++ (if p n then n ∷ [] else [])
unfolding domain_before
select-snoc p rows last n bound e = elim (Bool-cases (p n)) [
  | inl h ↦
      rw (filter-snoc p rows n, h)
        (order_by-last domain_before n (filter p rows) (
          All-map (λ d. d.id ≤ last) (λ d. domain_before d n ≡ true) (filter p rows)
            (λ d b. ground arith) (All-filter _ p rows bound)))
  | inr h ↦ rw (filter-snoc p rows n, h) (rw (append-nil (filter p rows)) (sym (append-nil _)))
]

map-snoc_if :
    {A B : Type 0} (f : A → B) (xs : List A) (b : Bool) (n : A)
    → map f (xs ++ (if b then n ∷ [] else [])) ≡ map f xs ++ (if b then f n ∷ [] else [])
map-snoc_if f xs true n = map-append f xs (n ∷ [])
map-snoc_if f xs false n = map-append f xs []

-- What one INSERT adds to the two lists of each app.
abbrev if_own : {A : Type 0} → ℕ → ℕ → Bool → A → List A
if_own app other b x = if (app == other) && b then x ∷ [] else []

record Added (app : ℕ) (host : Text) (port : ℕ) (db db' : Db) : Type 0 where
  pub names :
      (other : ℕ)
      → app_hostnames other db' ≡ app_hostnames other db ++ if_own app other (port == 0) host
  pub services :
      (other : ℕ)
      → app_service_domains other db'
        ≡ app_service_domains other db
          ++ if_own app other (ltb 0 port) (record { host = host; port = port })

insert_domain-Added :
    (app : ℕ) (host : Text) (local : Bool) (ssl : Text) (port : ℕ) (db db' : Db)
    → IsConsistent db
    → insert_domain app host local ssl port db ≡ some db'
    → Added app host port db db'
unfolding insert_domain app_hostnames app_service_domains service_rows
insert_domain-Added app host local ssl port db db' c h =
    elim (Bool-cases (any (λ d. text_eq d.hostname host) db.domains)) [
      | inl taken ↦ absurd (ground arith)
      | inr free ↦ elim (Bool-cases (app_exists app db)) [
        | inr no_app ↦ absurd (ground arith)
        | inl there ↦
            let n : DomainRow = record {
              id = suc db.last_domain;
              app_id = app;
              hostname = host;
              is_local = local;
              ssl_mode = ssl;
              port = port;
            } in
            let e : db.domains ++ n ∷ [] ≡ db'.domains = ground arith in
            record {
              names = λ other. rw (← e) (
                  rw
                    (select-snoc (λ d. (d.app_id == other) && (d.port == 0)) db.domains
                      db.last_domain n c.domains.bound refl)
                    (map-snoc_if (λ d. d.hostname) _ ((app == other) && (port == 0)) n));
              services = λ other. rw (← e) (
                  rw
                    (select-snoc (λ d. (d.app_id == other) && ltb 0 d.port) db.domains
                      db.last_domain n c.domains.bound refl)
                    (map-snoc_if (λ d. record { host = d.hostname; port = d.port }) _
                      ((app == other) && ltb 0 port) n));
            }
      ]
    ]

-- The lists of the app after the loops; those of another app stay as they are.
abbrev pub grown : {A : Type 0} → ℕ → ℕ → List A → List A → List A
grown app other old new = if app == other then old ++ new else old

grow_step :
    {A : Type 0} (t : Bool) (a b c : List A) (x : A) (new : List A)
    → b ≡ a ++ (if t && true then x ∷ [] else [])
    → c ≡ (if t then b ++ new else b)
    → c ≡ (if t then a ++ x ∷ new else a)
grow_step true a b c x new p q = q ∙ ap (λ z. z ++ new) p ∙ append_assoc a (x ∷ []) new
grow_step false a b c x new p q = q ∙ p ∙ append-nil a

grow_none :
    {A : Type 0} (t : Bool) (a b c : List A) (x : A) (new : List A)
    → b ≡ a ++ (if t && false then x ∷ [] else [])
    → c ≡ (if t then b ++ new else b)
    → c ≡ (if t then a ++ new else a)
grow_none true a b c x new p q = q ∙ ap (λ z. z ++ new) (p ∙ append-nil a)
grow_none false a b c x new p q = q ∙ p ∙ append-nil a

grown-nil : {A : Type 0} (t : Bool) (a : List A) → a ≡ (if t then a ++ [] else a)
grown-nil true a = sym (append-nil a)
grown-nil false a = refl

pub record Grown (app : ℕ) (hosts : List Text) (svc : List ServiceDomain) (db db' : Db)
    : Type 0 where
  pub names : (other : ℕ) → app_hostnames other db' ≡ grown app other (app_hostnames other db) hosts
  pub services :
      (other : ℕ)
      → app_service_domains other db' ≡ grown app other (app_service_domains other db) svc
  pub still : IsConsistent db'

pub insert_services-Grown :
    (app : ℕ) (local : Bool) (ssl : Text) (svc : List ServiceDomain) (db db' : Db)
    → IsConsistent db
    → All (λ d. 0 < d.port) svc
    → insert_services app local ssl svc db ≡ some db'
    → Grown app [] svc db db'
unfolding insert_services
insert_services-Grown app local ssl [] db db' c ports h =
    let e : db ≡ db' = cc in
    rw (← e) (record {
      names = λ other. grown-nil (app == other) _;
      services = λ other. grown-nil (app == other) _;
      still = c;
    })
insert_services-Grown app local ssl (d ∷ svc) db db' c ports h =
    elim (Option-cases (insert_domain app d.host local ssl d.port db)) [
      | inl e ↦ absurd (cc (rw (e, insert_services) at h))
      | inr (mid, e) ↦
          let one = insert_domain-Added app d.host local ssl d.port db mid c e in
          let rest =
            insert_services-Grown app local ssl svc mid db'
              (insert_domain-IsConsistent app d.host local ssl d.port db mid e c) ports.1
              (rw (e, insert_services) at h) in
          let positive : ltb 0 d.port ≡ true = ground (arith, ports.0) in
          let not_zero : (d.port == 0) ≡ false = ground (arith, ports.0) in
          record {
            names = λ other.
                grow_none (app == other) (app_hostnames other db) (app_hostnames other mid) _ d.host
                  [] (rw not_zero at (one.names other)) (rest.names other);
            services = λ other.
                grow_step (app == other) (app_service_domains other db)
                  (app_service_domains other mid) _ d svc (rw positive at (one.services other))
                  (rest.services other);
            still = rest.still;
          }
    ]

pub insert_hostnames-Grown :
    (app : ℕ) (local : Bool) (ssl : Text) (hosts : List Text) (db db' : Db)
    → IsConsistent db
    → insert_hostnames app local ssl hosts db ≡ some db'
    → Grown app (filter (λ h. not (is_empty h)) hosts) [] db db'
unfolding insert_hostnames filter
insert_hostnames-Grown app local ssl [] db db' c h =
    let e : db ≡ db' = cc in
    rw (← e) (record {
      names = λ other. grown-nil (app == other) _;
      services = λ other. grown-nil (app == other) _;
      still = c;
    })
insert_hostnames-Grown app local ssl ([] ∷ hosts) db db' c h =
    insert_hostnames-Grown app local ssl hosts db db' c h
insert_hostnames-Grown app local ssl ((x ∷ host) ∷ hosts) db db' c h =
    elim (Option-cases (insert_domain app (x ∷ host) local ssl 0 db)) [
      | inl e ↦ absurd (cc (rw (e, insert_hostnames) at h))
      | inr (mid, e) ↦
          let one = insert_domain-Added app (x ∷ host) local ssl 0 db mid c e in
          let rest =
            insert_hostnames-Grown app local ssl hosts mid db'
              (insert_domain-IsConsistent app (x ∷ host) local ssl 0 db mid e c)
              (rw (e, insert_hostnames) at h) in
          record {
            names = λ other.
                grow_step (app == other) (app_hostnames other db) (app_hostnames other mid) _
                  (x ∷ host) (filter (λ h. not (is_empty h)) hosts) (one.names other)
                  (rest.names other);
            services = λ other.
                grow_none (app == other) (app_service_domains other db)
                  (app_service_domains other mid) _ (record { host = x ∷ host; port = 0 }) []
                  (one.services other) (rest.services other);
            still = rest.still;
          }
    ]
